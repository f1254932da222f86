-- ===== src/Compare/Tests.antt =====
-- Comparisons of small tables with one integer key column.
use data_ops_studio_v.Base.{
  ℕ, ◌≡◌, ◌≢◌, ◌≤◌, ◌<◌, refl, Bool, true, false, not, none, some, List, [], ◌∷◌, ◌&&◌, ◌||◌, ◌==◌,
  if◌then◌else◌, ok, raise, arith, length, Bool-cases, inl, inr, ==_iff, ◌⊎◌, ltb, leb,
}
use data_ops_studio_v.Base.Json.{pos}
use data_ops_studio_v.Base.Int.{◌+ℤ◌, ◌-ℤ◌}
use data_ops_studio_v.Compare.{CompareSegment, CompareRow, RunLimits, Side, HashdiffResult}
use data_ops_studio_v.Keys.{Keys}
use data_ops_studio_v.Compare.Segments.{
  Tiles, split_segment, split_segment-Tiles, split_from, estimated_rows,
}
use data_ops_studio_v.Compare.Rows.{row_map, key_events}
use data_ops_studio_v.Compare.RowDiff.{find_row, at}
use data_ops_studio_v.Compare.Duplicates.{row_map_repeated}
use data_ops_studio_v.Compare.Hashdiff.{
  recursive_hashdiff, fingerprint_eq, visit_all, visit, turn, scanned, should_descend,
  no_hashdiff_progress, out_of_fuel,
}
use data_ops_studio_v.Compare.Progress.{
  IsBalanced, recursive_hashdiff-IsBalanced, recursive_hashdiff-ne-out_of_fuel,
}
use data_ops_studio_v.Compare.Comparable.{Comparable, changes, in_range}
use data_ops_studio_v.Compare.Exact.{recursive_hashdiff_exact}
use data_ops_studio_v.Compare.Static.{
  static_reader, static_reader-Reads, aggregate_hash_of, rows_in,
}

abbrev number_keys : Keys ℕ
number_keys = record { eq = λ a b. a == b; eq_iff = ==_iff; precedes = ltb }

abbrev row : ℕ → ℕ → CompareRow ℕ ℕ
row k v = record { pk = k; values = v ∷ []; row_hash64 = some v; raw_values = none }

abbrev same_numbers : List ℕ → List ℕ → Bool
same_numbers [] [] = true
same_numbers (a ∷ xs) (b ∷ ys) = a == b && same_numbers xs ys
same_numbers _ _ = false

abbrev old_table : List (CompareRow ℕ ℕ)
old_table = row 7 10 ∷ []

abbrev new_table : List (CompareRow ℕ ℕ)
new_table = row 7 11 ∷ []

abbrev no_hash : List ℕ → ℕ
no_hash cells = 0

abbrev whole : CompareSegment
whole = record { key_column = "id"; start = pos 0; end_ = pos 40 }

abbrev limits : RunLimits
limits = record {
  recursive_checksum = true;
  bisection_factor = 8;
  bisection_threshold = 1;
  max_bisection_depth = 2;
}

split_segment-Tiles_example :
    Tiles (pos 0) (split_segment whole 8) (pos 40) × (length (split_segment whole 8) ≤ 8)
split_segment-Tiles_example = split_segment-Tiles whole 8 (omega arith) (omega arith)

-- One row on either side, with different cells: equal fingerprints mean that it is not in the segment.
one_row_fingerprints :
    (s : CompareSegment)
    → fingerprint_eq
        ((static_reader (λ k. some (pos k)) no_hash old_table).segment_fingerprint s)
        ((static_reader (λ k. some (pos k)) no_hash new_table).segment_fingerprint s)
      ≡ true
    → (k : ℕ) → in_range s.start s.end_ (pos k) ≡ true
    → changes (
        key_events same_numbers k
          (find_row number_keys k old_table)
          (find_row number_keys k new_table))
      ≡ []
unfolding static_reader rows_in aggregate_hash_of find_row key_events
one_row_fingerprints s equal k inside = elim (Bool-cases (7 == k)) [
  | inl here ↦
      let e : 7 ≡ k = ground arith in
      let found : in_range s.start s.end_ (pos 7) ≡ true = rw e inside in
      absurd (let clash = (rw found at equal) in ground arith)
  | inr elsewhere ↦ rw elsewhere refl
]

tables-Comparable :
    Comparable number_keys same_numbers
      (λ k. pos k)
      old_table
      new_table
      (static_reader (λ k. some (pos k)) no_hash old_table)
      (static_reader (λ k. some (pos k)) no_hash new_table)
tables-Comparable = record {
  source_distinct = (tt, tt);
  target_distinct = (tt, tt);
  source_reads = static_reader-Reads (λ k. some (pos k)) no_hash (λ k. pos k) (λ k. refl) old_table;
  target_reads = static_reader-Reads (λ k. some (pos k)) no_hash (λ k. pos k) (λ k. refl) new_table;
  fingerprints_tell = one_row_fingerprints;
}

recursive_hashdiff_exact_example :
    (result : HashdiffResult ℕ ℕ) × (recursive_hashdiff number_keys same_numbers
        (static_reader (λ k. some (pos k)) no_hash old_table)
        (static_reader (λ k. some (pos k)) no_hash new_table)
        limits
        3
        whole
      ≡ ok result)
    × ((k : ℕ)
        → changes (at number_keys same_numbers k result.events) ≡ (
            if in_range (pos 0) (pos 40) (pos k)
            then changes (
                key_events same_numbers k
                  (find_row number_keys k old_table)
                  (find_row number_keys k new_table))
            else []))
recursive_hashdiff_exact_example =
    recursive_hashdiff_exact number_keys same_numbers (λ k. pos k) old_table new_table
      (static_reader (λ k. some (pos k)) no_hash old_table)
      (static_reader (λ k. some (pos k)) no_hash new_table) limits tables-Comparable 3 whole
      (omega arith) (omega arith) (omega arith)

abbrev empty_result : HashdiffResult ℕ ℕ
empty_result = record {
  events = [];
  progress = record {
    scanned_segments = 8;
    skipped_segments = 8;
    skipped_rows = 1;
    recursed_segments = 0;
    row_mode_segments = 0;
    max_depth_seen = 0;
  };
}

unchanged :
    recursive_hashdiff number_keys same_numbers
      (static_reader (λ k. some (pos k)) no_hash old_table)
      (static_reader (λ k. some (pos k)) no_hash old_table)
      limits
      7
      whole
    ≡ ok empty_result
unfolding recursive_hashdiff visit_all visit turn scanned should_descend split_segment split_from
    estimated_rows static_reader rows_in aggregate_hash_of ◌+ℤ◌ ◌-ℤ◌
unchanged = refl

recursive_hashdiff-IsBalanced_example :
    ((not true || leb (estimated_rows whole) 1 ≡ true)
      × (empty_result.progress ≡ record no_hashdiff_progress { row_mode_segments = 1 }))
    ⊎ IsBalanced limits empty_result.progress
recursive_hashdiff-IsBalanced_example =
    recursive_hashdiff-IsBalanced number_keys same_numbers
      (static_reader (λ k. some (pos k)) no_hash old_table)
      (static_reader (λ k. some (pos k)) no_hash old_table) limits 7 whole empty_result unchanged

recursive_hashdiff-ne-out_of_fuel_example :
    recursive_hashdiff number_keys same_numbers
      (static_reader (λ k. some (pos k)) no_hash old_table)
      (static_reader (λ k. some (pos k)) no_hash new_table)
      limits
      3
      whole
    ≢ raise out_of_fuel
recursive_hashdiff-ne-out_of_fuel_example =
    recursive_hashdiff-ne-out_of_fuel number_keys same_numbers
      (static_reader (λ k. some (pos k)) no_hash old_table)
      (static_reader (λ k. some (pos k)) no_hash new_table) limits 3 whole (omega arith)

row_map_repeated_example :
    (n : ℕ) × (0 < n)
    × (row_map number_keys (row 7 10 ∷ row 7 11 ∷ []) Side.target
        ≡ raise (record { side = Side.target; duplicates = n; total = 2 }))
row_map_repeated_example =
    row_map_repeated number_keys (row 7 10 ∷ row 7 11 ∷ []) Side.target (λ d. cc (d.0.0))
