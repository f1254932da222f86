-- ===== src/Keys.antt =====
-- Dictionaries and lists over keys of any type that come with an equality and an order.
use data_ops_studio_v.Base.{
  ℕ, ◌+◌, ◌≡◌, ◌↔◌, refl, Bool, true, Option, none, some, List, [], ◌∷◌, ◌++◌, map, if◌then◌else◌,
  arith, not, filterb, is_some, Bool-cases, inl, inr, ap, ◌&&◌,
}
use data_ops_studio_v.Sql.{sort_in, order_by}

-- Equality of keys as Python hashes and compares them, and the order of `compare_pk_sort_key`.
pub record Keys (K : Type 0) : Type 0 where
  pub eq : K → K → Bool
  pub eq_iff : (a b : K) → (eq a b ≡ true) ↔ (a ≡ b)
  pub precedes : K → K → Bool

module _ {K R : Type 0} (keys : Keys K) where
  unfoldable pub get : K → List (K × R) → Option R
  get k [] = none
  get k ((j, r) ∷ m) = if keys.eq j k then some r else get k m

  unfoldable pub put : K → R → List (K × R) → List (K × R)
  put k r [] = (k, r) ∷ []
  put k r ((j, q) ∷ m) = if keys.eq j k then (j, r) ∷ m else (j, q) ∷ put k r m

  pub get-put :
      (k j : K) (r : R) (m : List (K × R))
      → get j (put k r m) ≡ (if keys.eq k j then some r else get j m)
  unfolding get put
  get-put k j r [] = refl
  get-put k j r ((i, q) ∷ m) =
      ground (arith, keys.eq_iff k j, keys.eq_iff i k, keys.eq_iff i j, get-put k j r m)

-- How often a key stands in a list.
module _ {K : Type 0} (keys : Keys K) where
  unfoldable pub occurs : K → List K → ℕ
  occurs k [] = 0
  occurs k (j ∷ js) = (if keys.eq j k then 1 else 0) + occurs k js

  occurs-sort_in :
      (k j : K) (js : List K)
      → occurs k (sort_in keys.precedes j js) ≡ (if keys.eq j k then 1 else 0) + occurs k js
  unfolding occurs sort_in
  occurs-sort_in k j [] = refl
  occurs-sort_in k j (i ∷ js) = ground (arith, occurs-sort_in k j js)

  pub occurs-order_by : (k : K) (js : List K) → occurs k (order_by keys.precedes js) ≡ occurs k js
  unfolding occurs order_by
  occurs-order_by k [] = refl
  occurs-order_by k (j ∷ js) =
      ground (arith, occurs-sort_in k j (order_by keys.precedes js), occurs-order_by k js)

  pub occurs-append : (k : K) (xs ys : List K) → occurs k (xs ++ ys) ≡ occurs k xs + occurs k ys
  unfolding occurs
  occurs-append k [] ys = omega arith
  occurs-append k (x ∷ xs) ys = omega (arith, occurs-append k xs ys)

  pub occurs-filterb :
      (p : K → Bool) (k : K) (js : List K)
      → occurs k (filterb p js) ≡ (if p k then occurs k js else 0)
  unfolding occurs
  occurs-filterb p k [] = ground arith
  occurs-filterb p k (j ∷ js) = elim (Bool-cases (keys.eq j k)) [
    | inl same ↦
        let e : j ≡ k = (keys.eq_iff j k).0 same in
        elim (Bool-cases (p k)) [
          | inl hit ↦ rw (e, hit) (ground (arith, occurs-filterb p k js))
          | inr miss ↦ rw (e, miss) (ground (arith, occurs-filterb p k js))
        ]
    | inr other ↦ ground (arith, occurs-filterb p k js)
  ]

-- A dictionary has each of its keys once.
module _ {K R : Type 0} (keys : Keys K) where
  abbrev pub HoldsOnce : List (K × R) → Type 0
  HoldsOnce m =
      (k : K) → occurs keys k (map (λ e. e.0) m) ≡ (if is_some (get keys k m) then 1 else 0)

  occurs-put :
      (k j : K) (r : R) (m : List (K × R))
      → occurs keys k (map (λ e. e.0) (put keys j r m))
        ≡ occurs keys k (map (λ e. e.0) m)
          + (if keys.eq j k && not (is_some (get keys j m)) then 1 else 0)
  unfolding occurs put get
  occurs-put k j r [] = ground arith
  occurs-put k j r ((i, q) ∷ m) = elim (Bool-cases (keys.eq i j)) [
    | inl same ↦ rw same (ground arith)
    | inr other ↦ rw other (ground (arith, occurs-put k j r m))
  ]

  pub HoldsOnce-put : (j : K) (r : R) (m : List (K × R)) → HoldsOnce m → HoldsOnce (put keys j r m)
  HoldsOnce-put j r m h k = elim (Bool-cases (keys.eq j k)) [
    | inl same ↦
        let e : j ≡ k = (keys.eq_iff j k).0 same in
        ground (arith, occurs-put k j r m, get-put keys j k r m, h k, ap (λ x. get keys x m) e)
    | inr other ↦ ground (arith, occurs-put k j r m, get-put keys j k r m, h k)
  ]
