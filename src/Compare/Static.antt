-- ===== src/Compare/Static.antt =====
-- `_StaticRowReader` of app/domain/compare.py: a reader of rows that are at hand. `first_int` is the
-- first key column if there is one and it is an integer, and `tuple_hash` is `_stable_tuple_hash`,
-- an MD5 digest.
use data_ops_studio_v.Base.{
  ℕ, ◌+◌, ◌≡◌, refl, Option, Bool, false, none, some, List, [], ◌∷◌, filterb, length, if◌then◌else◌,
}
use data_ops_studio_v.Base.Json.{ℤ}
use data_ops_studio_v.Compare.{CompareRow, CompareSegment, CompareSegmentReader}
use data_ops_studio_v.Compare.Comparable.{in_range, Reads}

module _ {K C : Type 0} (first_int : K → Option ℤ) (tuple_hash : List C → ℕ) where
  unfoldable pub aggregate_hash_of : List (CompareRow K C) → ℕ
  aggregate_hash_of [] = 0
  aggregate_hash_of (r ∷ rows) =
      elim r.row_hash64 [ none ↦ tuple_hash r.values | some h ↦ h ] + aggregate_hash_of rows

  unfoldable pub rows_in : CompareSegment → List (CompareRow K C) → List (CompareRow K C)
  rows_in s [] = []
  rows_in s (r ∷ rows) =
      let rest = rows_in s rows in
      let inside : Bool = elim (first_int r.pk) [
        | none ↦ false
        | some x ↦ in_range s.start s.end_ x
      ] in
      if inside then r ∷ rest else rest

  unfoldable pub static_reader : List (CompareRow K C) → CompareSegmentReader K C
  static_reader table = record {
    segment_fingerprint = λ s.
        let rows = rows_in s table in
        record { row_count = length rows; aggregate_hash = aggregate_hash_of rows };
    fetch_rows = λ s. rows_in s table;
  }

  rows_in-filterb :
      (position : K → ℤ)
      → ((k : K) → first_int k ≡ some (position k))
      → (s : CompareSegment) (rows : List (CompareRow K C))
      → rows_in s rows ≡ filterb (λ r. in_range s.start s.end_ (position r.pk)) rows
  unfolding rows_in
  rows_in-filterb position first s [] = refl
  rows_in-filterb position first s (r ∷ rows) =
      rw (first r.pk, rows_in-filterb position first s rows) refl

  -- Where every key begins with an integer, the reader fetches the rows of the segment.
  pub static_reader-Reads :
      (position : K → ℤ)
      → ((k : K) → first_int k ≡ some (position k))
      → (table : List (CompareRow K C)) → Reads position table (static_reader table)
  unfolding static_reader
  static_reader-Reads position first table s = rows_in-filterb position first s table
