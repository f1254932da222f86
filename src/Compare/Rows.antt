-- ===== src/Compare/Rows.antt =====
-- `_row_map`, `_rows_equivalent` and `_row_level_diff` of app/domain/compare.py.
use data_ops_studio_v.Base.{
  ℕ, ◌+◌, Bool, not, Option, none, some, List, [], ◌∷◌, ◌++◌, map, if◌then◌else◌, ltb, is_some,
  Result, ok, raise, ◌>>=◌, filterb,
}
use data_ops_studio_v.Sql.{order_by}
use data_ops_studio_v.Compare.{
  CompareRow, CompareDiffEvent, CompareDiffBucket, CompareSegment, CompareSegmentReader, Side,
  CompareDuplicateKeyError,
}
use data_ops_studio_v.Keys.{Keys, get, put}

abbrev pub RowMap : (K C : Type 0) → Type 0
RowMap K C = List (K × CompareRow K C)

module _ {K C : Type 0} (keys : Keys K) where
  -- The loop of `_row_map`, with its two counters.
  unfoldable pub fill :
      List (CompareRow K C) → RowMap K C → (total duplicates : ℕ) → RowMap K C × ℕ × ℕ
  fill [] out total duplicates = (out, total, duplicates)
  fill (r ∷ rows) out total duplicates =
      fill rows (put keys r.pk r out) (total + 1)
        (if is_some (get keys r.pk out) then duplicates + 1 else duplicates)

  unfoldable pub row_map :
      List (CompareRow K C) → Side → Result CompareDuplicateKeyError (RowMap K C)
  row_map rows side =
      let (out, total, duplicates) = fill rows [] 0 0 in
      if ltb 0 duplicates
      then raise (record { side = side; duplicates = duplicates; total = total })
      else ok out

-- `row.raw_values or row.values`: an empty tuple is false.
unfoldable pub shown : {K C : Type 0} → CompareRow K C → List C
shown r = elim r.raw_values [
  | none ↦ r.values
  | some raw ↦ elim raw [ [] ↦ r.values | c ∷ cs ↦ c ∷ cs ]
]

module _ {K C : Type 0} (same_values : List C → List C → Bool) where
  abbrev pub rows_equivalent : CompareRow K C → CompareRow K C → Bool
  rows_equivalent s t = same_values s.values t.values

  -- The event for one key, given its rows on either side.
  unfoldable pub key_events :
      K → Option (CompareRow K C) → Option (CompareRow K C) → List (CompareDiffEvent K C)
  key_events pk none none = []
  key_events pk none (some t) =
      record {
        bucket = CompareDiffBucket.only_target;
        pk = pk;
        source_values = none;
        target_values = some (shown t);
      }
      ∷ []
  key_events pk (some s) none =
      record {
        bucket = CompareDiffBucket.only_source;
        pk = pk;
        source_values = some (shown s);
        target_values = none;
      }
      ∷ []
  key_events pk (some s) (some t) =
      record {
        bucket = if rows_equivalent s t then CompareDiffBucket.same else CompareDiffBucket.diff;
        pk = pk;
        source_values = some (shown s);
        target_values = some (shown t);
      }
      ∷ []

module _ {K C : Type 0} (keys : Keys K) (same_values : List C → List C → Bool) where
  -- `source_rows.keys() | target_rows.keys()`.
  unfoldable pub key_union : RowMap K C → RowMap K C → List K
  key_union s t = map (λ e. e.0) s ++ filterb (λ k. not (is_some (get keys k s))) (map (λ e. e.0) t)

  unfoldable pub sorted_compare_keys : List K → List K
  sorted_compare_keys ks = order_by keys.precedes ks

  -- The loop over the sorted keys.
  unfoldable pub diff_events : RowMap K C → RowMap K C → List K → List (CompareDiffEvent K C)
  diff_events s t [] = []
  diff_events s t (k ∷ ks) =
      key_events same_values k (get keys k s) (get keys k t) ++ diff_events s t ks

  unfoldable pub row_level_diff :
      CompareSegmentReader K C
      → CompareSegmentReader K C
      → CompareSegment
      → Result CompareDuplicateKeyError (List (CompareDiffEvent K C))
  row_level_diff source target segment = do
    s ← row_map keys (source.fetch_rows segment) Side.source
    t ← row_map keys (target.fetch_rows segment) Side.target
    ok (diff_events s t (sorted_compare_keys (key_union s t)))
