-- ===== src/Order/Demand.antt =====
-- What a list of lines takes from the stock of each product.
use mathlib.Core.Logic.{∥∥₁_elim}
use mathlib.Core.List.{Perm, Permᴰ}
use auto_store_api.Prelude.{
  ℕ, ℤ, pos, ◌≡◌, refl, Bool, true, false, int_laws, sym, ◌∙◌, ap, subst, Option, none, some, List,
  [], ◌∷◌, inl, inr, ◌+ℤ◌, +ℤ_assoc, +ℤ_comm, +ℤ-zero, InInt64, add_int64, add_int64-neg_int64,
  add_int64-exact_nonneg, ◌≤ℤ◌, ◌==◌, ==→eq, ==→ne, Bool-cases, if◌then◌else◌, neg_int64,
}
use auto_store_api.Platform.{Platform}
use auto_store_api.Models.Sales.{Product, StockMovementReason}
use auto_store_api.World.{Db}
use auto_store_api.Inventory.Stock.{stock}
use auto_store_api.Inventory.Adjust.{Adjusted, Adjusted-is, Adjusted-others}
use auto_store_api.Inventory.Exact.{IsStocked, level_at}
use auto_store_api.Order.{stock_change}

-- The quantity of the product `k` in a list, whose elements have a product and a quantity.
abbrev pub demand {ℓ} : {A : Type ℓ} → (A → ℕ) → (A → ℤ) → ℕ → List A → ℤ
demand product quantity k [] = pos 0
demand product quantity k (x ∷ xs) =
    if product x == k
    then quantity x +ℤ demand product quantity k xs
    else demand product quantity k xs

swap_if :
    (x y : Bool) (a b d : ℤ)
    → (if x then a +ℤ (if y then b +ℤ d else d) else (if y then b +ℤ d else d))
      ≡ (if y then b +ℤ (if x then a +ℤ d else d) else (if x then a +ℤ d else d))
swap_if true true a b d = omega int_laws
swap_if true false a b d = refl
swap_if false true a b d = refl
swap_if false false a b d = refl

demand-Permᴰ :
    {A : Type 0} (product : A → ℕ) (quantity : A → ℤ) (k : ℕ) {xs ys : List A}
    → Permᴰ xs ys
    → demand product quantity k xs ≡ demand product quantity k ys
demand-Permᴰ product quantity k Permᴰ.nil = refl
demand-Permᴰ product quantity k (Permᴰ.cons e q) =
    let rest = demand-Permᴰ product quantity k q in
    λ i. if product (e i) == k then quantity (e i) +ℤ rest i else rest i
demand-Permᴰ product quantity k (Permᴰ.swap {a} {b} {l} e f) =
    swap_if (product a == k) (product b == k) (quantity a) (quantity b)
      (demand product quantity k l)
    ∙ λ i. demand product quantity k (f i ∷ e i ∷ l)
demand-Permᴰ product quantity k (Permᴰ.trans q r) =
    demand-Permᴰ product quantity k q ∙ demand-Permᴰ product quantity k r

ℤ-IsSet : IsSet ℤ
ℤ-IsSet = hlevel

-- The order of the list does not matter.
pub demand-Perm :
    {A : Type 0} (product : A → ℕ) (quantity : A → ℤ) (k : ℕ) {xs ys : List A}
    → Perm xs ys
    → demand product quantity k xs ≡ demand product quantity k ys
demand-Perm product quantity k q = ∥∥₁_elim q (ℤ-IsSet _ _) (λ d. demand-Permᴰ product quantity k d)

exact_of :
    (before q after : ℤ)
    → InInt64 before × (pos 0 ≤ℤ before)
    → InInt64 q
    → after ≡ add_int64 before (neg_int64 q)
    → pos 0 ≤ℤ after
    → before ≡ after +ℤ q
exact_of before q after h hq e p =
    subst (λ z. before ≡ z +ℤ q) (sym e)
      (add_int64-neg_int64 before q h.0 hq h.1 (subst (λ z. pos 0 ≤ℤ z) e p))

split_sum : (a q rest : ℤ) → a +ℤ (q +ℤ rest) ≡ (a +ℤ rest) +ℤ q
split_sum a q rest = ap (λ z. a +ℤ z) (+ℤ_comm q rest) ∙ sym (+ℤ_assoc a rest q)

-- A level with `n` more, where there is one.
abbrev pub plus : ℤ → Option ℤ → Option ℤ
plus n none = none
plus n (some b) = some (b +ℤ n)

plus-zero : (o : Option ℤ) → plus (pos 0) o ≡ o
plus-zero none = refl
plus-zero (some b) = ap some (+ℤ-zero b)

plus-sum : (q rest : ℤ) (o : Option ℤ) → plus (q +ℤ rest) o ≡ plus q (plus rest o)
plus-sum q rest none = refl
plus-sum q rest (some b) = ap some (split_sum b q rest)

plus-sum_comm : (q rest : ℤ) (o : Option ℤ) → plus (q +ℤ rest) o ≡ plus rest (plus q o)
plus-sum_comm q rest o = ap (λ z. plus z o) (+ℤ_comm q rest) ∙ plus-sum rest q o

module _ (p : Platform) where
  module _ {A : Type 0} (product : A → ℕ) (quantity : A → ℤ) where
    -- From `d` to `e`, each level has fallen by what the list has of the product.
    abbrev pub Took : List A → Db p → Db p → Type 0
    Took xs d e = (k : ℕ) → plus (demand product quantity k xs) (stock p k e) ≡ stock p k d

    -- From `d` to `e`, each level has risen by what the list has of the product.
    abbrev pub Gave : List A → Db p → Db p → Type 0
    Gave xs d e = (k : ℕ) → stock p k e ≡ plus (demand product quantity k xs) (stock p k d)

    pub Took-nil : (d : Db p) → Took [] d d
    Took-nil d k = plus-zero _

    -- An adjustment by the negation of an element's quantity, and then the rest of the list.
    pub Took-cons :
        (x : A) (xs : List A) (reason : StockMovementReason) (id : ℕ) (d m e : Db p)
        (r : Product p.Float)
        → IsStocked p d
        → InInt64 (quantity x)
        → Adjusted p (stock_change p (product x) (neg_int64 (quantity x)) reason id) d r m
        → Took xs m e
        → Took (x ∷ xs) d e
    Took-cons x xs reason id d m e r h hq a rest k = elim (Bool-cases (product x == k)) [
      | inl same ↦
          let exact : some a.before ≡ plus (quantity x) (stock p (product x) m) =
            ap some (
              exact_of a.before (quantity x) r.stock_quantity (level_at p d _ _ h a.was) hq a.moved
                a.nonneg)
            ∙ ap (plus (quantity x)) (sym (Adjusted-is p a)) in
          rw same (
            plus-sum (quantity x) _ _
            ∙ ap (plus (quantity x)) (rest k)
            ∙ subst (λ j. plus (quantity x) (stock p j m) ≡ stock p j d) (==→eq _ _ same)
                (sym exact ∙ sym a.was))
      | inr other ↦ rw other (rest k ∙ Adjusted-others p k a (λ e. ==→ne _ _ other (sym e)))
    ]

    pub Gave-nil : (d : Db p) → Gave [] d d
    Gave-nil d k = sym (plus-zero _)

    pub Gave-cons :
        (x : A) (xs : List A) (reason : StockMovementReason) (id : ℕ) (d m e : Db p)
        (r : Product p.Float)
        → IsStocked p d
        → InInt64 (quantity x)
        → Adjusted p (stock_change p (product x) (quantity x) reason id) d r m
        → Gave xs m e
        → Gave (x ∷ xs) d e
    Gave-cons x xs reason id d m e r h hq a rest k = elim (Bool-cases (product x == k)) [
      | inl same ↦
          let range = level_at p d _ _ h a.was in
          let exact : r.stock_quantity ≡ a.before +ℤ quantity x =
            a.moved
            ∙ add_int64-exact_nonneg a.before (quantity x) range.0 hq range.1
                (subst (λ z. pos 0 ≤ℤ z) a.moved a.nonneg) in
          let risen : stock p (product x) m ≡ plus (quantity x) (stock p (product x) d) =
            Adjusted-is p a ∙ ap some exact ∙ ap (plus (quantity x)) (sym a.was) in
          rw same (
            rest k
            ∙ ap (plus _)
                (subst (λ j. stock p j m ≡ plus (quantity x) (stock p j d)) (==→eq _ _ same) risen)
            ∙ sym (plus-sum_comm (quantity x) _ _))
      | inr other ↦
          rw other (rest k ∙ ap (plus _) (Adjusted-others p k a (λ e. ==→ne _ _ other (sym e))))
    ]
