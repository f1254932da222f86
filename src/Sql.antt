-- ===== src/Sql.antt =====
-- The SQL statements that the source issues, over tables as lists of rows in an order of storage.
use data_ops_studio_v.Base.{Bool, List, [], ◌∷◌, map, if◌then◌else◌, filterb, Option, none, some}

-- `UPDATE … SET … WHERE`, and the rows that it returns.
unfoldable pub update_where : {A : Type 0} → (A → Bool) → (A → A) → List A → List A
update_where p f = map (λ a. if p a then f a else a)

unfoldable pub returning : {A : Type 0} → (A → Bool) → (A → A) → List A → List A
returning p f rows = map f (filterb p rows)

-- `ORDER BY`, by insertion: `before a b` says that `a` sorts in front of `b`, and rows that it does
-- not tell apart stay in the order of storage.
unfoldable pub sort_in : {A : Type 0} → (A → A → Bool) → A → List A → List A
sort_in before a [] = a ∷ []
sort_in before a (b ∷ bs) = if before b a then b ∷ sort_in before a bs else a ∷ b ∷ bs

unfoldable pub order_by : {A : Type 0} → (A → A → Bool) → List A → List A
unfolding sort_in
order_by before [] = []
order_by before (a ∷ rest) = sort_in before a (order_by before rest)

-- `ORDER BY … LIMIT 1`.
unfoldable pub first : {A : Type 0} → (A → A → Bool) → List A → Option A
first before [] = none
first before (a ∷ rest) = elim (first before rest) [
  | none ↦ some a
  | some b ↦ some (if before b a then b else a)
]
