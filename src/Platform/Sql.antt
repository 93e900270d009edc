-- ===== src/Platform/Sql.antt =====
-- A table behind gorm, and how a call on it may end. The laws are gorm's and SQL's documented
-- behaviour: a call that succeeds has this effect on the rows, and a call that fails has none.
use mathlib.Core.List.{Perm}
use auto_store_api.Prelude.{
  ℕ, ◌≡◌, Bool, true, none, some, List, [], ◌∷◌, ◌++◌, Result, ok, err, length, select, lookup,
  upsert, update_where, Has, not, lookup-key,
}

-- `gorm.ErrRecordNotFound`, `gorm.ErrDuplicatedKey`, and any other failure of the driver.
pub data DbError : Type 0 where
  record_not_found duplicated_key failure : DbError

pub record Table (A : Type 0) (key : A → ℕ) : Type 1 where
  pub Rows : Type 0
  pub rows : Rows → List A
  -- `First(&a, "id = ?", k)`
  pub get : ℕ → Rows → Result DbError A
  -- `Where(p).First(&a)`
  pub first : (A → Bool) → Rows → Result DbError A
  -- `Where(p).Find(&as)`
  pub find : (A → Bool) → Rows → Result DbError (List A)
  -- `Where(p).Count(&n)`
  pub count : (A → Bool) → Rows → Result DbError ℕ
  -- `Create(&a)`
  pub create : A → Rows → Result DbError Rows
  -- `Save(&a)`
  pub save : A → Rows → Result DbError Rows
  -- `Model(&A{}).Where(p).Updates(f)`
  pub update : (A → Bool) → (A → A) → Rows → Result DbError Rows
  -- `Where(p).Delete(&A{})`
  pub delete : (A → Bool) → Rows → Result DbError Rows
  pub get_ok : (k : ℕ) (t : Rows) (a : A) → get k t ≡ ok a → lookup key k (rows t) ≡ some a
  pub get_missing :
      (k : ℕ) (t : Rows) → get k t ≡ err record_not_found → lookup key k (rows t) ≡ none
  pub first_ok :
      (p : A → Bool) (t : Rows) (a : A) → first p t ≡ ok a → Has a (rows t) × (p a ≡ true)
  pub first_missing :
      (p : A → Bool) (t : Rows) → first p t ≡ err record_not_found → select p (rows t) ≡ []
  pub find_ok :
      (p : A → Bool) (t : Rows) (l : List A) → find p t ≡ ok l → Perm l (select p (rows t))
  pub count_ok :
      (p : A → Bool) (t : Rows) (n : ℕ) → count p t ≡ ok n → n ≡ length (select p (rows t))
  pub create_ok :
      (a : A) (t u : Rows)
      → create a t ≡ ok u
      → (lookup key (key a) (rows t) ≡ none) × (rows u ≡ rows t ++ a ∷ [])
  pub save_ok : (a : A) (t u : Rows) → save a t ≡ ok u → rows u ≡ upsert key a (rows t)
  pub update_ok :
      (p : A → Bool) (f : A → A) (t u : Rows)
      → update p f t ≡ ok u
      → rows u ≡ update_where p f (rows t)
  pub delete_ok :
      (p : A → Bool) (t u : Rows) → delete p t ≡ ok u → rows u ≡ select (λ a. not (p a)) (rows t)

pub get-key :
    {A : Type 0} {key : A → ℕ} (table : Table A key) (k : ℕ) (t : table.Rows) (a : A)
    → table.get k t ≡ ok a
    → key a ≡ k
get-key {key} table k t a e = lookup-key key k (table.rows t) a (table.get_ok k t a e)
