-- ===== src/Memory.antt =====
-- A platform that can be run: amounts are whole numbers, the n-th uuid is the number n, a table is a
-- list of rows, and a call fails only on a row that is missing or a key that is taken.
pub mod Store
use mathlib.Core.List.{Perm}
use mathlib.Core.List.Perm
use auto_store_api.Prelude.{
  ℕ, ℤ, pos, negsuc, pos_part, ◌*◌, String, ◌≡◌, refl, sym, subst, if◌then◌else◌, ok_injective,
  Bool, true, Option, none, some, List, [], ◌∷◌, ◌++◌, Result, ok, err, length, select, lookup,
  upsert, update_where, Has, not, inl, inr, Bool-cases, ◌+ℤ◌, ltb_ℤ, leb_ℤ, str_eq, false, ◌+◌,
}
use auto_store_api.Models.Paystack.{VerifyData}
use auto_store_api.Platform.{Platform}
use auto_store_api.Platform.Sql.{Table, DbError, record_not_found, duplicated_key}
use auto_store_api.World.{Db, World}
use auto_store_api.Models.Tokens.{TokenType}
use Store.{memory_texts, memory_redis, str_eq_self}

module _ {A : Type 0} where
  abbrev pub of_option : DbError → Option A → Result DbError A
  of_option e none = err e
  of_option e (some a) = ok a

  abbrev pub head : List A → Option A
  head [] = none
  head (x ∷ xs) = some x

  pub of_option-ok : (e : DbError) (o : Option A) (a : A) → of_option e o ≡ ok a → o ≡ some a
  of_option-ok e none a h = cc
  of_option-ok e (some b) a h = cc

  pub of_option-err : (e f : DbError) (o : Option A) → of_option e o ≡ err f → o ≡ none
  of_option-err e f none h = refl
  of_option-err e f (some b) h = cc

  pub head-none : (xs : List A) → head xs ≡ none → xs ≡ []
  head-none [] h = refl
  head-none (x ∷ xs) h = cc

  pub head-select :
      (p : A → Bool) (xs : List A) (a : A) → head (select p xs) ≡ some a → Has a xs × (p a ≡ true)
  head-select p [] a h = cc
  head-select p (x ∷ xs) a h = elim (Bool-cases (p x)) [
    | inl e ↦ (
      inl (
          sym (
            first x a
              (subst (λ b. head (if b then x ∷ select p xs else select p xs) ≡ some a) e h))),
      subst (λ y. p y ≡ true)
          (first x a (subst (λ b. head (if b then x ∷ select p xs else select p xs) ≡ some a) e h))
          e,
    )
    | inr e ↦
        let (m, q) =
          head-select p xs a
            (subst (λ b. head (if b then x ∷ select p xs else select p xs) ≡ some a) e h) in
        (inr m, q)
  ]
    where
      first : (x a : A) → some x ≡ some a → x ≡ a
      first x a h = cc

  abbrev pub insert_at : Option A → A → List A → Result DbError (List A)
  insert_at none a t = ok (t ++ a ∷ [])
  insert_at (some _) a t = err duplicated_key

  pub insert_at-ok :
      (o : Option A) (a : A) (t u : List A)
      → insert_at o a t ≡ ok u
      → (o ≡ none) × (u ≡ t ++ a ∷ [])
  insert_at-ok none a t u h = (refl, ok_injective (sym h))
  insert_at-ok (some x) a t u h = cc

-- A table in memory.
module _ {A : Type 0} (key : A → ℕ) where
  abbrev pub memory : Table A key
  memory = record {
    Rows = List A;
    rows = λ t. t;
    get = λ k t. of_option record_not_found (lookup key k t);
    first = λ p t. of_option record_not_found (head (select p t));
    find = λ p t. ok (select p t);
    count = λ p t. ok (length (select p t));
    create = λ a t. insert_at (lookup key (key a) t) a t;
    save = λ a t. ok (upsert key a t);
    update = λ p f t. ok (update_where p f t);
    delete = λ p t. ok (select (λ a. not (p a)) t);
    get_ok = λ k t a h. of_option-ok _ _ a h;
    get_missing = λ k t h. of_option-err _ _ _ h;
    first_ok = λ p t a h. head-select p t a (of_option-ok _ _ a h);
    first_missing = λ p t h. head-none _ (of_option-err _ _ _ h);
    find_ok = λ p t l h. subst (λ l. Perm l (select p t)) (ok_injective h) (Perm.refl (select p t));
    count_ok = λ p t n h. ok_injective (sym h);
    create_ok = λ a t u h. insert_at-ok _ a t u h;
    save_ok = λ a t u h. ok_injective (sym h);
    update_ok = λ p f t u h. ok_injective (sym h);
    delete_ok = λ p t u h. ok_injective (sym h);
  }

abbrev pub to_text : ℤ → String
to_text (pos n) = "1"
to_text (negsuc n) = "-1"

pub to_text-ne : (n : ℤ) → str_eq (to_text n) "" ≡ false
to_text-ne (pos n) = refl
to_text-ne (negsuc n) = refl

abbrev pub charge_of : String → VerifyData
charge_of s = record {
  reference = s;
  amount = pos 100;
  status = "success";
  entity_type = "";
  entity_id = "";
}

-- Paystack agrees to every refund and has been paid 100 by every transaction.
abbrev pub memory_platform : Platform
memory_platform = record {
  Float = ℤ;
  add = λ a b. a +ℤ b;
  mul = λ a b. pos (pos_part a * pos_part b);
  div = λ a b. a;
  lt = ltb_ℤ;
  le = leb_ℤ;
  of_int = λ n. n;
  round = λ a. a;
  tenth = pos 0;
  uuid = λ n. n + 100;
  uuid_text = λ n. "abcdefgh-0000";
  short = λ n. "abcdefgh";
  decimal = to_text;
  decimal_ne = to_text-ne;
  parse_uuid = λ s. none;
  equal_fold = str_eq;
  hmac_hex = λ k b. k;
  event_of_json = λ s. ok (record { event = s; content = s });
  charge_of_json = λ s. ok (charge_of s);
  refund_of_json = λ s. ok (record { id = pos 7; status = "failed"; reference = "order-1" });
  post_refund = λ n b. ok (record {
    status = true;
    message = "";
    content = record { id = pos 7; status = "pending"; amount = pos 100 };
  });
  post_initialize = λ n b. ok (record {
    status = true;
    message = "";
    content = record {
      authorization_url = "";
      access_code = "";
      reference = "order-abcdefgh-abcdefgh";
    };
  });
  get_verify = λ n s. ok (record { status = true; message = ""; content = charge_of s });
  texts = memory_texts;
  redis = memory_redis;
  hash_password = λ n s. ok s;
  same_password = str_eq;
  same_hashed = λ n s h e. str_eq_self h s (ok_injective (sym e));
  sign_claims = λ c. ok "token";
  sign_guest = λ c. ok "token";
  parse_claims = λ s. err "";
  parse_guest = λ s. ok (record {
    guest_id = 9;
    token_type = TokenType.guest;
    expires_at = 0;
    issued_at = 0;
    id = 0;
  });
  send_mail = λ n to subject body. err "refused";
  commit = λ n. none;
  products = memory (λ r. r.id);
  movements = memory (λ r. r.id);
  carts = memory (λ r. r.id);
  addresses = memory (λ r. r.id);
  orders = memory (λ r. r.id);
  order_items = memory (λ r. r.id);
  users = memory (λ r. r.id);
  profiles = memory (λ r. r.id);
  job_types = memory (λ r. r.id);
  services = memory (λ r. r.id);
  quotes = memory (λ r. r.id);
  quote_items = memory (λ r. r.id);
  quote_lines = memory (λ r. r.id);
  bookings = memory (λ r. r.id);
  payments = memory (λ r. r.id);
  categories = memory (λ r. r.id);
  questions = memory (λ r. r.id);
  answers = memory (λ r. r.id);
  conversations = memory (λ r. r.id);
  messages = memory (λ r. r.id);
  notifications = memory (λ r. r.id);
  preferences = memory (λ r. r.id);
}

abbrev pub empty_db : Db memory_platform
empty_db = record {
  products = [];
  movements = [];
  carts = [];
  addresses = [];
  orders = [];
  order_items = [];
  users = [];
  profiles = [];
  job_types = [];
  services = [];
  quotes = [];
  quote_items = [];
  quote_lines = [];
  bookings = [];
  payments = [];
  categories = [];
  questions = [];
  answers = [];
  conversations = [];
  messages = [];
  notifications = [];
  preferences = [];
}

-- The state of a process that has just been started on a database.
abbrev pub started : Db memory_platform → World memory_platform
started d = record {
  db = d;
  drawn = 0;
  begun = 0;
  notices = [];
  called = 0;
  refunds = [];
  published = [];
  mailed = 0;
  store = ([], []);
}
