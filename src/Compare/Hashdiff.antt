-- ===== src/Compare/Hashdiff.antt =====
-- `recursive_hashdiff` of app/domain/compare.py, with `recursive_hashdiff_stream`, whose events it
-- collects. The stack of the source holds the segments that are still to be visited, the children of
-- a segment in front: the recursion here visits them in that order. It runs on fuel, whose end is an
-- error of its own, and which is an argument: no depth follows from it.
use data_ops_studio_v.Base.{
  ℕ, zero, suc, ◌+◌, max, Bool, not, List, [], ◌∷◌, ◌++◌, ◌&&◌, ◌||◌, if◌then◌else◌, ltb, leb, ◌==◌,
  Result, ok, raise, ◌>>=◌,
}
use data_ops_studio_v.Compare.{
  RunLimits, CompareSegment, SegmentFingerprint, CompareDiffEvent, CompareSegmentReader,
  HashdiffProgress, HashdiffResult, CompareDuplicateKeyError,
}
use data_ops_studio_v.Keys.{Keys}
use data_ops_studio_v.Compare.Rows.{row_level_diff}
use data_ops_studio_v.Compare.Segments.{estimated_rows, split_segment}

-- What ends a comparison: the error of the source, or the end of the fuel.
pub data HashdiffError : Type 0 where
  duplicate_key : CompareDuplicateKeyError → HashdiffError
  out_of_fuel : HashdiffError

-- The comparison of rows, as a part of the whole.
abbrev pub comparing : {A : Type 0} → Result CompareDuplicateKeyError A → Result HashdiffError A
comparing (ok a) = ok a
comparing (raise e) = raise (duplicate_key e)

abbrev pub fingerprint_eq : SegmentFingerprint → SegmentFingerprint → Bool
fingerprint_eq a b = a.row_count == b.row_count && a.aggregate_hash == b.aggregate_hash

abbrev pub no_hashdiff_progress : HashdiffProgress
no_hashdiff_progress = record {
  scanned_segments = 0;
  skipped_segments = 0;
  skipped_rows = 0;
  recursed_segments = 0;
  row_mode_segments = 0;
  max_depth_seen = 0;
}

module _ {K C : Type 0} (keys : Keys K) (same_values : List C → List C → Bool)
    (source target : CompareSegmentReader K C) (limits : RunLimits) where
  abbrev pub Visit : Type 0
  Visit = Result HashdiffError (List (CompareDiffEvent K C) × HashdiffProgress)

  -- The segments of the stack, one after the other.
  unfoldable pub visit_all :
      (CompareSegment → HashdiffProgress → Visit) → List CompareSegment → HashdiffProgress → Visit
  visit_all visit [] p = ok ([], p)
  visit_all visit (s ∷ rest) p = do
    (es, p') ← visit s p
    (fs, p'') ← visit_all visit rest p'
    ok (es ++ fs, p'')

  unfoldable pub should_descend : ℕ → CompareSegment → Bool
  should_descend depth s =
      ltb limits.bisection_threshold
        (max (source.segment_fingerprint s).row_count (target.segment_fingerprint s).row_count)
      && ltb depth limits.max_bisection_depth
      && ltb 1 (estimated_rows s)

  unfoldable pub scanned : ℕ → HashdiffProgress → HashdiffProgress
  scanned depth p = record p {
    max_depth_seen = max p.max_depth_seen depth;
    scanned_segments = p.scanned_segments + 1;
  }

  unfoldable pub row_mode : CompareSegment → HashdiffProgress → Visit
  row_mode s p = do
    es ← comparing (row_level_diff keys same_values source target s)
    ok (es, record p { row_mode_segments = p.row_mode_segments + 1 })

  -- One turn of the loop; `below` visits the children of the segment.
  unfoldable pub turn :
      (List CompareSegment → HashdiffProgress → Visit)
      → ℕ
      → CompareSegment
      → HashdiffProgress
      → Visit
  turn below depth s p =
      let p' = scanned depth p in
      if fingerprint_eq (source.segment_fingerprint s) (target.segment_fingerprint s)
      then ok (
        [],
        record p' {
          skipped_segments = p'.skipped_segments + 1;
          skipped_rows = p'.skipped_rows + (source.segment_fingerprint s).row_count;
        },
      )
      else if should_descend depth s
      then below (split_segment s limits.bisection_factor)
          (record p' { recursed_segments = p'.recursed_segments + 1 })
      else row_mode s p'

  -- A segment at a depth, and what lies below it.
  unfoldable pub visit : (fuel depth : ℕ) → CompareSegment → HashdiffProgress → Visit
  visit zero depth s p = raise out_of_fuel
  visit (suc fuel) depth s p = turn (visit_all (visit fuel (depth + 1))) depth s p

  unfoldable pub recursive_hashdiff :
      (fuel : ℕ) → CompareSegment → Result HashdiffError (HashdiffResult K C)
  recursive_hashdiff fuel root = do
    (events, progress) ←
        if not limits.recursive_checksum || leb (estimated_rows root) limits.bisection_threshold
        then row_mode root no_hashdiff_progress
        else visit_all (visit fuel 0) (split_segment root limits.bisection_factor)
            no_hashdiff_progress
    ok (record { events = events; progress = progress })
