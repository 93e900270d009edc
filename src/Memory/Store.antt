-- ===== src/Memory/Store.antt =====
-- Texts and Redis in memory.
use auto_store_api.Prelude.{
  ℕ, zero, suc, ℤ, pos, ◌≡◌, refl, sym, subst, ap, if◌then◌else◌, true, Option, none, some, List,
  [], ◌∷◌, Result, ok, err, String, str_eq, eq_iff, add_int64, leb, ◌==◌, ◌≤◌, ◌<◌, arith,
  Bool-cases, inl, inr, ok_injective,
}
use auto_store_api.Platform.Text.{Texts}
use auto_store_api.Platform.Keys.{Redis, Entry, number, text}

pub str_eq_self : (s t : String) → s ≡ t → str_eq s t ≡ true
str_eq_self s t e = (eq_iff s t).1 e

-- The texts "", "a", "a-" and "a--" as they are, with any other text read as the last of them.
abbrev size_of : String → ℕ
size_of s = if str_eq s "" then 0 else if str_eq s "a" then 1 else if str_eq s "a-" then 2 else 3

abbrev first_of : ℕ → String
first_of n = if n == 0 then "" else if n == 1 then "a" else if n == 2 then "a-" else "a--"

size-most : (s : String) → size_of s ≤ 3
size-most s = ground arith

pub size-first : (n : ℕ) → n ≤ 3 → size_of (first_of n) ≡ n
size-first zero h = refl
size-first (suc zero) h = refl
size-first (suc (suc zero)) h = refl
size-first (suc (suc (suc zero))) h = refl
size-first (suc (suc (suc (suc n)))) h = absurd (omega arith)

pub pos_of : (n : ℕ) → leb 2 n ≡ true → 0 < n
pos_of n h = ground arith

pub size-prefix : (n : ℕ) (s : String) → n ≤ size_of s → size_of (first_of n) ≡ n
size-prefix n s h = size-first n (let m = size-most s in omega arith)

abbrev pub memory_texts : Texts
memory_texts = record {
  lower = λ s. s;
  trim_space = λ s. s;
  trim_dashes = λ s. s;
  dashed = λ s. s;
  byte_len = size_of;
  prefix = λ n s. first_of n;
  ends_dashed = λ s. leb 2 (size_of s);
  len_prefix = size-prefix;
  len_dashed = λ s h. pos_of (size_of s) h;
  split_space = λ s. some ("bearer", s);
  is_mail = λ s. true;
}

-- Redis as an association list, newest first.
abbrev entry : String → List (String × Entry) → Option Entry
entry k [] = none
entry k ((l, v) ∷ s) = if str_eq l k then some v else entry k s

abbrev without : String → List (String × Entry) → List (String × Entry)
without k [] = []
without k ((l, v) ∷ s) = if str_eq l k then without k s else (l, v) ∷ without k s

abbrev raised : Option Entry → Result String ℤ
raised none = ok (pos 1)
raised (some (number n)) = ok (add_int64 n (pos 1))
raised (some (text t)) = err "WRONGTYPE"

abbrev raise_to :
    String → Result String ℤ → List (String × Entry) → Result String (ℤ × List (String × Entry))
raise_to k (ok n) s = ok (n, (k, number n) ∷ s)
raise_to k (err e) s = err e

abbrev as_number : Option Entry → Result String ℤ
as_number (some (number n)) = ok n
as_number _ = err "redis: nil"

abbrev as_text : Option Entry → Result String String
as_text (some (text t)) = ok t
as_text _ = err "redis: nil"

pub entry_top : (k : String) (v : Entry) (s : List (String × Entry)) → entry k ((k, v) ∷ s) ≡ some v
entry_top k v s = ap (λ b. if b then some v else entry k s) (str_eq_self k k refl)

pub entry-without : (k : String) (s : List (String × Entry)) → entry k (without k s) ≡ none
entry-without k [] = refl
entry-without k ((l, v) ∷ s) = elim (Bool-cases (str_eq l k)) [
  | inl e ↦ rw e (entry-without k s)
  | inr e ↦ rw (e, e) (entry-without k s)
]

pub as_number-number :
    (n m : ℤ) (o : Option Entry) → as_number o ≡ ok n → o ≡ some (number m) → n ≡ m
as_number-number n m o e h = cc

pub as_text-text : (t : String) (o : Option Entry) → as_text o ≡ ok t → o ≡ some (text t)
as_text-text t none e = cc
as_text-text t (some (number n)) e = cc
as_text-text t (some (text u)) e = cc

pub number_injective : (n m : ℤ) → number n ≡ number m → n ≡ m
number_injective n m e = cc

pub raise_to-number :
    (k : String) (s t : List (String × Entry)) (n m : ℤ)
    → raise_to k (raised (entry k s)) s ≡ ok (n, t)
    → entry k s ≡ some (number m)
    → (n ≡ add_int64 m (pos 1)) × (entry k t ≡ some (number n))
raise_to-number k s t n m e h =
    let f : raise_to k (raised (some (number m))) s ≡ ok (n, t) =
      subst (λ o. raise_to k (raised o) s ≡ ok (n, t)) h e in
    let g = ok_injective f in
    (
      sym (ap (λ r. r.0) g),
      subst (λ t. entry k t ≡ some (number n)) (ap (λ r. r.1) g)
          (subst (λ z. entry k ((k, number z) ∷ s) ≡ some (number n)) (sym (ap (λ r. r.0) g))
            (entry_top k (number n) s)),
    )

-- The keys, and the queue.
abbrev pub Stored : Type 0
Stored = List (String × Entry) × List ℕ

abbrev with_queue : List ℕ → Result String (ℤ × List (String × Entry)) → Result String (ℤ × Stored)
with_queue q (ok (n, s)) = ok (n, (s, q))
with_queue q (err e) = err e

pub with_queue-ok :
    (q : List ℕ) (r : Result String (ℤ × List (String × Entry))) (n : ℤ) (t : Stored)
    → with_queue q r ≡ ok (n, t)
    → r ≡ ok (n, t.0)
with_queue-ok q (ok (m, s)) n t e = ap (λ c. ok (c.0, c.1.0)) (ok_injective e)
with_queue-ok q (err x) n t e = absurd cc

abbrev pub memory_redis : Redis
memory_redis = record {
  configured = true;
  Store = Stored;
  value = λ k s. entry k s.0;
  waiting = λ s. s.1;
  incr = λ k s. with_queue s.1 (raise_to k (raised (entry k s.0)) s.0);
  get_int = λ k s. as_number (entry k s.0);
  get_text = λ k s. as_text (entry k s.0);
  set_text = λ k v n s. ok ((k, text v) ∷ s.0, s.1);
  del = λ k s. ok (without k s.0, s.1);
  lpush = λ n s. ok (s.0, n ∷ s.1);
  expire = λ k n s. s;
  incr_ok = λ k s t n m e h. raise_to-number k s.0 t.0 n m (with_queue-ok s.1 _ n t e) h;
  get_int_ok = λ k s n m e h. as_number-number n m (entry k s.0) e h;
  get_text_ok = λ k s v e. as_text-text v (entry k s.0) e;
  set_text_ok = λ k v n s t e.
      subst (λ (t : Stored). entry k t.0 ≡ some (text v)) (ok_injective e)
        (entry_top k (text v) s.0);
  del_ok =
      λ k s t e. subst (λ (t : Stored). entry k t.0 ≡ none) (ok_injective e) (entry-without k s.0);
  expire_value = λ k n s. refl;
  lpush_ok = λ n s t e. ap (λ (t : Stored). t.1) (ok_injective (sym e));
}
