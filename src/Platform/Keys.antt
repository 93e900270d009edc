-- ===== src/Platform/Keys.antt =====
-- Redis as the process sees it: what its commands do to the keys when they succeed. A key that
-- expires does so between two methods and not within one.
use auto_store_api.Prelude.{
  ℕ, ℤ, pos, ◌≡◌, Bool, Option, none, some, List, ◌∷◌, Result, ok, String, add_int64,
}

-- What stands at a key: a counter or a text.
pub data Entry : Type 0 where
  number : ℤ → Entry
  text : String → Entry

pub record Redis : Type 1 where
  -- Is there a client?
  pub configured : Bool
  pub Store : Type 0
  pub value : String → Store → Option Entry
  -- The ids in the queue `notifications:send`, newest first.
  pub waiting : Store → List ℕ
  -- `INCR`, `GET` read as a number, `GET` of a JSON text, `SET` of one with a time to live, `DEL`,
  -- and `LPUSH` of a notification's id.
  pub incr : String → Store → Result String (ℤ × Store)
  pub get_int : String → Store → Result String ℤ
  pub get_text : String → Store → Result String String
  pub set_text : String → String → ℕ → Store → Result String Store
  pub del : String → Store → Result String Store
  pub lpush : ℕ → Store → Result String Store
  -- `EXPIRE`, whose result the callers drop.
  pub expire : String → ℕ → Store → Store
  pub incr_ok :
      (k : String) (s t : Store) (n m : ℤ)
      → incr k s ≡ ok (n, t)
      → value k s ≡ some (number m)
      → (n ≡ add_int64 m (pos 1)) × (value k t ≡ some (number n))
  pub get_int_ok :
      (k : String) (s : Store) (n m : ℤ) → get_int k s ≡ ok n → value k s ≡ some (number m) → n ≡ m
  pub get_text_ok :
      (k : String) (s : Store) (v : String) → get_text k s ≡ ok v → value k s ≡ some (text v)
  pub set_text_ok :
      (k v : String) (n : ℕ) (s t : Store) → set_text k v n s ≡ ok t → value k t ≡ some (text v)
  pub del_ok : (k : String) (s t : Store) → del k s ≡ ok t → value k t ≡ none
  pub expire_value : (k : String) (n : ℕ) (s : Store) → value k (expire k n s) ≡ value k s
  pub lpush_ok : (n : ℕ) (s t : Store) → lpush n s ≡ ok t → waiting t ≡ n ∷ waiting s
