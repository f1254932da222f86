-- ===== src/Compare.antt =====
-- The comparison of two tables, app/domain/compare.py: its records. A key or a cell is a value of
-- any type, so that the types of keys and of cells are parameters.
pub mod Segments
pub mod Rows
pub mod RowDiff
pub mod Duplicates
pub mod Hashdiff
pub mod Comparable
pub mod Exact
pub mod Progress
pub mod Static
mod Tests
use data_ops_studio_v.Base.{ℕ, String, Bool, Option, List}
use data_ops_studio_v.Base.Json.{ℤ}

pub data CompareDiffBucket : Type 0 where
  only_source only_target diff same : CompareDiffBucket

-- The limits that the recursion reads.
pub record RunLimits : Type 0 where
  pub recursive_checksum : Bool
  pub bisection_factor : ℕ
  pub bisection_threshold : ℕ
  pub max_bisection_depth : ℕ

-- The half-open range [start, end_) of a key column.
pub record CompareSegment : Type 0 where
  pub key_column : String
  pub start : ℤ
  pub end_ : ℤ

pub record SegmentFingerprint : Type 0 where
  pub row_count : ℕ
  pub aggregate_hash : ℕ

pub record CompareRow (K C : Type 0) : Type 0 where
  pub pk : K
  pub values : List C
  pub row_hash64 : Option ℕ
  pub raw_values : Option (List C)

pub record CompareDiffEvent (K C : Type 0) : Type 0 where
  pub bucket : CompareDiffBucket
  pub pk : K
  pub source_values : Option (List C)
  pub target_values : Option (List C)

pub record HashdiffProgress : Type 0 where
  pub scanned_segments : ℕ
  pub skipped_segments : ℕ
  pub skipped_rows : ℕ
  pub recursed_segments : ℕ
  pub row_mode_segments : ℕ
  pub max_depth_seen : ℕ

pub record HashdiffResult (K C : Type 0) : Type 0 where
  pub events : List (CompareDiffEvent K C)
  pub progress : HashdiffProgress

-- A side of the comparison, which a database client provides.
pub record CompareSegmentReader (K C : Type 0) : Type 0 where
  pub segment_fingerprint : CompareSegment → SegmentFingerprint
  pub fetch_rows : CompareSegment → List (CompareRow K C)

pub data Side : Type 0 where
  source target : Side

-- `CompareDuplicateKeyError`.
pub record CompareDuplicateKeyError : Type 0 where
  pub side : Side
  pub duplicates : ℕ
  pub total : ℕ
