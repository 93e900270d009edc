-- ===== src/Prelude/Rows.antt =====
-- What the statements of SQL do to the rows of a table, as functions on lists.
use mathlib.Core.Path.{◌≡◌, refl, sym, ap, subst}
use mathlib.Core.Logic.{◌≢◌, ◌⊎◌, inl, inr, ∥∥₁_elim}
use mathlib.Core.Bool.{Bool, true, false}
use mathlib.Core.Option.{Option, none, some}
use mathlib.Core.List.{List, [], ◌∷◌, ◌++◌, Perm, Permᴰ}
use mathlib.Core.HLevel.{×_prop, Unit-prop}
use native.Mathlib.Omega.{arith}
use Prim.Native.Nat.{ℕ, suc, ◌+◌, ◌≤◌}
use auto_store_api.Prelude.Tests.{◌==◌, ltb, if◌then◌else◌, Bool-cases}

few_after : (n m : ℕ) (b : Bool) → m ≡ n + (if b then 1 else 0) → n ≤ 1 → (b ≡ true → n ≡ 0) → m ≤ 1
few_after n m true e few zero = omega (arith, zero refl)
few_after n m false e few zero = omega arith

module _ {A : Type 0} where
  abbrev pub All : (A → Type 0) → List A → Type 0
  All P [] = Unit
  All P (x ∷ xs) = P x × All P xs

  abbrev pub length : List A → ℕ
  length [] = 0
  length (x ∷ xs) = suc (length xs)

  -- `WHERE`
  abbrev pub select : (A → Bool) → List A → List A
  select p [] = []
  select p (x ∷ xs) = if p x then x ∷ select p xs else select p xs

  -- `WHERE id = ?`
  abbrev pub lookup : (A → ℕ) → ℕ → List A → Option A
  lookup key k [] = none
  lookup key k (x ∷ xs) = if key x == k then some x else lookup key k xs

  -- `INSERT … ON CONFLICT (id) DO UPDATE`
  abbrev pub upsert : (A → ℕ) → A → List A → List A
  upsert key a [] = a ∷ []
  upsert key a (x ∷ xs) = if key x == key a then a ∷ xs else x ∷ upsert key a xs

  -- `UPDATE … SET … WHERE …`
  abbrev pub update_where : (A → Bool) → (A → A) → List A → List A
  update_where p f [] = []
  update_where p f (x ∷ xs) = (if p x then f x else x) ∷ update_where p f xs

  abbrev pub Has : A → List A → Type 0
  Has a [] = ⊥
  Has a (x ∷ xs) = (a ≡ x) ⊎ Has a xs

  -- Each row is the one that its id finds.
  abbrev pub IsKeyed : (A → ℕ) → List A → Type 0
  IsKeyed key rows = (a : A) → Has a rows → lookup key (key a) rows ≡ some a

  abbrev pub map_option : {B : Type 0} → (A → B) → Option A → Option B
  map_option f none = none
  map_option f (some a) = some (f a)

  pub lookup-upsert_self :
      (key : A → ℕ) (k : ℕ) (a : A) (xs : List A)
      → key a ≡ k
      → lookup key k (upsert key a xs) ≡ some a
  lookup-upsert_self key k a [] e = ground arith
  lookup-upsert_self key k a (x ∷ xs) e = ground (arith, lookup-upsert_self key k a xs e)

  pub lookup-upsert_ne :
      (key : A → ℕ) (k : ℕ) (a : A) (xs : List A)
      → key a ≢ k
      → lookup key k (upsert key a xs) ≡ lookup key k xs
  lookup-upsert_ne key k a [] h = ground arith
  lookup-upsert_ne key k a (x ∷ xs) h = ground (arith, lookup-upsert_ne key k a xs h)

  pub lookup-key :
      (key : A → ℕ) (k : ℕ) (xs : List A) (a : A) → lookup key k xs ≡ some a → key a ≡ k
  lookup-key key k [] a h = cc
  lookup-key key k (x ∷ xs) a h = ground (arith, lookup-key key k xs a)

  pub lookup-append_new :
      (key : A → ℕ) (k : ℕ) (xs : List A) (a : A)
      → lookup key k xs ≡ none
      → key a ≡ k
      → lookup key k (xs ++ a ∷ []) ≡ some a
  lookup-append_new key k [] a h e = ground arith
  lookup-append_new key k (x ∷ xs) a h e = ground (arith, lookup-append_new key k xs a)

  pub lookup-append_ne :
      (key : A → ℕ) (k : ℕ) (xs : List A) (a : A)
      → key a ≢ k
      → lookup key k (xs ++ a ∷ []) ≡ lookup key k xs
  lookup-append_ne key k [] a h = ground arith
  lookup-append_ne key k (x ∷ xs) a h = ground (arith, lookup-append_ne key k xs a h)

  abbrev pub amend : (A → Bool) → (A → A) → Option A → Option A
  amend p f none = none
  amend p f (some x) = some (if p x then f x else x)

  -- An update that keeps the ids acts on each row where it stands.
  pub lookup-update_where :
      (key : A → ℕ) (k : ℕ) (p : A → Bool) (f : A → A) (xs : List A)
      → ((x : A) → key (f x) ≡ key x)
      → lookup key k (update_where p f xs) ≡ amend p f (lookup key k xs)
  lookup-update_where key k p f [] h = refl
  lookup-update_where key k p f (x ∷ xs) h = ground (arith, h x, lookup-update_where key k p f xs h)

  pub All-select : (P : A → Type 0) (p : A → Bool) (xs : List A) → All P xs → All P (select p xs)
  All-select P p [] h = tt
  All-select P p (x ∷ xs) h = elim (Bool-cases (p x)) [
    | inl e ↦ rw e (h.0, All-select P p xs h.1)
    | inr e ↦ rw e (All-select P p xs h.1)
  ]

  All-Permᴰ : (P : A → Type 0) {xs ys : List A} → Permᴰ xs ys → All P ys → All P xs
  All-Permᴰ P Permᴰ.nil h = tt
  All-Permᴰ P (Permᴰ.cons e q) h = (subst P (sym e) h.0, All-Permᴰ P q h.1)
  All-Permᴰ P (Permᴰ.swap e f) h = (subst P (sym e) h.1.0, (subst P (sym f) h.0, h.1.1))
  All-Permᴰ P (Permᴰ.trans q r) h = All-Permᴰ P q (All-Permᴰ P r h)

  All-prop : (P : A → Type 0) (xs : List A) → ((x : A) → IsProp (P x)) → IsProp (All P xs)
  All-prop P [] h = Unit-prop
  All-prop P (x ∷ xs) h = ×_prop (h x) (All-prop P xs h)

  -- What holds of each element holds of each element of a permutation.
  pub All-Perm :
      (P : A → Type 0) {xs ys : List A}
      → ((x : A) → IsProp (P x))
      → Perm xs ys
      → All P ys
      → All P xs
  All-Perm P {xs} h q a = ∥∥₁_elim q (All-prop P xs h) (λ d. All-Permᴰ P d a)

  -- A new row is counted if the condition holds of it.
  pub length-select_new :
      (p : A → Bool) (a : A) (xs : List A)
      → length (select p (xs ++ a ∷ [])) ≡ length (select p xs) + (if p a then 1 else 0)
  length-select_new p a [] = ground arith
  length-select_new p a (x ∷ xs) = ground (arith, length-select_new p a xs)

  -- A condition that at most one row meets, and none does when the new row meets it.
  pub length-select_few :
      (p : A → Bool) (a : A) (xs : List A)
      → length (select p xs) ≤ 1
      → (p a ≡ true → select p xs ≡ [])
      → length (select p (xs ++ a ∷ [])) ≤ 1
  length-select_few p a xs few none_yet =
      few_after _ _ (p a) (length-select_new p a xs) few (λ e. ap length (none_yet e))

  pub empty_of : (xs : List A) → ltb 0 (length xs) ≡ false → xs ≡ []
  empty_of [] h = refl
  empty_of (x ∷ xs) h = ground arith

  -- A new row that does not meet the condition is not among those that do.
  pub select-append_not :
      (p : A → Bool) (a : A) (xs : List A) → p a ≡ false → select p (xs ++ a ∷ []) ≡ select p xs
  select-append_not p a [] h = ground arith
  select-append_not p a (x ∷ xs) h = ground (arith, select-append_not p a xs h)

  pub lookup-append_old :
      (key : A → ℕ) (k : ℕ) (xs : List A) (a b : A)
      → lookup key k xs ≡ some b
      → lookup key k (xs ++ a ∷ []) ≡ some b
  lookup-append_old key k [] a b h = cc
  lookup-append_old key k (x ∷ xs) a b h = ground (arith, lookup-append_old key k xs a b)

  -- Saving over a row that meets a condition just as the new one does leaves as many that meet it.
  pub length-select-upsert :
      (key : A → ℕ) (q : A → Bool) (a b : A) (xs : List A)
      → lookup key (key a) xs ≡ some b
      → q a ≡ q b
      → length (select q (upsert key a xs)) ≡ length (select q xs)
  length-select-upsert key q a b [] h e = cc
  length-select-upsert key q a b (x ∷ xs) h e = ground (arith, length-select-upsert key q a b xs)

  -- An update that keeps a condition leaves as many rows that meet it.
  pub length-select_update :
      (r q : A → Bool) (f : A → A) (xs : List A)
      → ((x : A) → q (f x) ≡ q x)
      → length (select q (update_where r f xs)) ≡ length (select q xs)
  length-select_update r q f [] h = refl
  length-select_update r q f (x ∷ xs) h = ground (arith, h x, length-select_update r q f xs h)
