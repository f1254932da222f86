-- ===== src/Compare/Comparable.antt =====
-- Tables that the comparison of app/domain/compare.py can compare, and their rows in a range.
use data_ops_studio_v.Base.{
  ◌≡◌, refl, ap, Bool, true, false, not, none, List, [], ◌∷◌, ◌++◌, ◌&&◌, if◌then◌else◌, filterb,
  arith, Bool-cases, inl, inr, All,
}
use data_ops_studio_v.Base.Json.{ℤ}
use data_ops_studio_v.Base.Int.{◌≤ℤ◌, leb_ℤ, ltb_ℤ}
use data_ops_studio_v.Compare.{
  CompareSegment, CompareRow, CompareDiffEvent, CompareDiffBucket, CompareSegmentReader,
}
use data_ops_studio_v.Keys.{Keys}
use data_ops_studio_v.Compare.Rows.{key_events}
use data_ops_studio_v.Compare.RowDiff.{find_row, Distinct}
use data_ops_studio_v.Compare.Segments.{Tiles}
use data_ops_studio_v.Compare.Hashdiff.{fingerprint_eq}

abbrev pub is_same : CompareDiffBucket → Bool
is_same CompareDiffBucket.same = true
is_same _ = false

-- The events that report a difference.
abbrev pub changes : {K C : Type 0} → List (CompareDiffEvent K C) → List (CompareDiffEvent K C)
changes es = filterb (λ e. not (is_same e.bucket)) es

pub changes-append :
    {K C : Type 0} (xs ys : List (CompareDiffEvent K C))
    → changes (xs ++ ys) ≡ changes xs ++ changes ys
changes-append [] ys = refl
changes-append (x ∷ xs) ys = elim (Bool-cases (is_same x.bucket)) [
  | inl hit ↦ rw hit (changes-append xs ys)
  | inr miss ↦ rw miss (ap (λ es. x ∷ es) (changes-append xs ys))
]

abbrev pub in_range : ℤ → ℤ → ℤ → Bool
in_range a b x = leb_ℤ a x && ltb_ℤ x b

-- A reader of a table: it fetches the rows whose key lies in the segment.
abbrev pub Reads :
    {K C : Type 0} → (K → ℤ) → List (CompareRow K C) → CompareSegmentReader K C → Type 0
Reads {K} {C} position table reader =
    (s : CompareSegment)
    → reader.fetch_rows s ≡ filterb (λ r. in_range s.start s.end_ (position r.pk)) table

module _ {K C : Type 0} (keys : Keys K) where
  pub find_row-filterb :
      (p : K → Bool) (k : K) (rows : List (CompareRow K C))
      → find_row keys k (filterb (λ r. p r.pk) rows) ≡ (if p k then find_row keys k rows else none)
  unfolding find_row
  find_row-filterb p k [] = ground arith
  find_row-filterb p k (r ∷ rows) = elim (Bool-cases (keys.eq r.pk k)) [
    | inl same ↦
        let e = ap p ((keys.eq_iff r.pk k).0 same) in ground (arith, find_row-filterb p k rows)
    | inr other ↦ ground (arith, find_row-filterb p k rows)
  ]

  All-filterb :
      (q p : CompareRow K C → Bool) (rows : List (CompareRow K C))
      → All (λ s. q s ≡ false) rows
      → All (λ s. q s ≡ false) (filterb p rows)
  All-filterb q p [] h = tt
  All-filterb q p (r ∷ rows) h = elim (Bool-cases (p r)) [
    | inl hit ↦ rw hit (h.0, All-filterb q p rows h.1)
    | inr miss ↦ rw miss (All-filterb q p rows h.1)
  ]

  pub Distinct-filterb :
      (p : CompareRow K C → Bool) (rows : List (CompareRow K C))
      → Distinct keys rows
      → Distinct keys (filterb p rows)
  Distinct-filterb p [] d = tt
  Distinct-filterb p (r ∷ rows) d = elim (Bool-cases (p r)) [
    | inl hit ↦
        rw hit (All-filterb (λ s. keys.eq r.pk s.pk) p rows d.0, Distinct-filterb p rows d.1)
    | inr miss ↦ rw miss (Distinct-filterb p rows d.1)
  ]

pub Tiles-le : (a : ℤ) (segments : List CompareSegment) (b : ℤ) → Tiles a segments b → a ≤ℤ b
Tiles-le a [] b t = rw t (omega arith)
Tiles-le a (s ∷ rest) b t = let later = Tiles-le s.end_ rest b t.2 in let now = t.1 in omega arith

-- What two tables that are compared must be: rows with different keys, readers that fetch them, and
-- fingerprints that are equal only where the two tables agree.
pub record Comparable {K C : Type 0} (keys : Keys K) (same_values : List C → List C → Bool)
    (position : K → ℤ) (source_table target_table : List (CompareRow K C))
    (source target : CompareSegmentReader K C) : Type 0 where
  pub source_distinct : Distinct keys source_table
  pub target_distinct : Distinct keys target_table
  pub source_reads : Reads position source_table source
  pub target_reads : Reads position target_table target
  pub fingerprints_tell :
      (s : CompareSegment)
      → fingerprint_eq (source.segment_fingerprint s) (target.segment_fingerprint s) ≡ true
      → (k : K) → in_range s.start s.end_ (position k) ≡ true
      → changes
          (key_events same_values k (find_row keys k source_table) (find_row keys k target_table))
        ≡ []
