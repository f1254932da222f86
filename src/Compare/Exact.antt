-- ===== src/Compare/Exact.antt =====
-- What the recursive comparison reports of each key, whichever segments it skips.
use mathlib.Core.List.{append-nil}
use data_ops_studio_v.Base.{
  ℕ, zero, suc, ◌+◌, ◌≤◌, ◌<◌, ◌≡◌, refl, sym, ◌∙◌, ap, Bool, true, false, not, none, List, [], ◌∷◌,
  ◌++◌, ◌||◌, if◌then◌else◌, leb, ok, arith, Bool-cases, inl, inr,
}
use data_ops_studio_v.Base.Json.{ℤ}
use data_ops_studio_v.Base.Int.{◌≤ℤ◌, ltb_ℤ}
use data_ops_studio_v.Compare.{
  RunLimits, CompareSegment, CompareRow, CompareDiffEvent, CompareSegmentReader, HashdiffProgress,
  HashdiffResult,
}
use data_ops_studio_v.Keys.{Keys}
use data_ops_studio_v.Compare.Rows.{key_events}
use data_ops_studio_v.Compare.RowDiff.{find_row, Distinct, at, at-append, row_level_diff_exact}
use data_ops_studio_v.Compare.Segments.{Tiles, split_segment, split_segment-Tiles, estimated_rows}
use data_ops_studio_v.Compare.Hashdiff.{
  Visit, fingerprint_eq, visit_all, visit, turn, row_mode, should_descend, recursive_hashdiff,
  no_hashdiff_progress,
}
use data_ops_studio_v.Compare.Comparable.{
  changes, in_range, Comparable, changes-append, Tiles-le, find_row-filterb, Distinct-filterb,
}

module _ {K C : Type 0} (keys : Keys K) (same_values : List C → List C → Bool) (position : K → ℤ)
    (source_table target_table : List (CompareRow K C)) (source target : CompareSegmentReader K C)
    (limits : RunLimits)
    (given : Comparable keys same_values position source_table target_table source target) where
  -- The difference between the tables at a key.
  abbrev pub difference : K → List (CompareDiffEvent K C)
  difference k =
      changes
        (key_events same_values k (find_row keys k source_table) (find_row keys k target_table))

  -- A visit of the range from `a` to `b` returns the differences at its keys, and none elsewhere.
  record Reports (a b : ℤ) (v : Visit keys same_values source target limits) : Type 0 where
    events : List (CompareDiffEvent K C)
    progress : HashdiffProgress
    returns : v ≡ ok (events, progress)
    exact :
        (k : K)
        → changes (at keys same_values k events)
          ≡ (if in_range a b (position k) then difference k else [])

  changes-at-append :
      (k : K) (xs ys : List (CompareDiffEvent K C))
      → changes (at keys same_values k (xs ++ ys))
        ≡ changes (at keys same_values k xs) ++ changes (at keys same_values k ys)
  changes-at-append k xs ys =
      ap changes (at-append keys same_values k xs ys)
      ∙ changes-append (at keys same_values k xs) (at keys same_values k ys)

  cut :
      (b : Bool) (k : K)
      → changes (
          key_events same_values k
            (if b then find_row keys k source_table else none)
            (if b then find_row keys k target_table else none))
        ≡ (if b then difference k else [])
  unfolding key_events
  cut true k = refl
  cut false k = refl

  Reports-row_mode :
      (s : CompareSegment) (p : HashdiffProgress)
      → Reports s.start s.end_ (row_mode keys same_values source target limits s p)
  unfolding row_mode
  Reports-row_mode s p =
      let inside = λ (k : K). in_range s.start s.end_ (position k) in
      let sd : Distinct keys (source.fetch_rows s) =
        rw (given.source_reads s)
          (Distinct-filterb keys (λ r. inside r.pk) source_table given.source_distinct) in
      let td : Distinct keys (target.fetch_rows s) =
        rw (given.target_reads s)
          (Distinct-filterb keys (λ r. inside r.pk) target_table given.target_distinct) in
      let (es, done, told) = row_level_diff_exact keys same_values source target s sd td in
      record {
        events = es;
        progress = record p { row_mode_segments = p.row_mode_segments + 1 };
        returns = rw done refl;
        exact = λ k.
            ap changes (told k)
            ∙ rw
                (
                  given.source_reads s,
                  given.target_reads s,
                  find_row-filterb keys inside k source_table,
                  find_row-filterb keys inside k target_table,
                )
                (cut (inside k) k);
      }

  -- Ranges side by side.
  two_ranges :
      (a b c x : ℤ) (d : List (CompareDiffEvent K C))
      → a ≤ℤ b
      → b ≤ℤ c
      → (if in_range a b x then d else []) ++ (if in_range b c x then d else [])
        ≡ (if in_range a c x then d else [])
  two_ranges a b c x d h l = elim (Bool-cases (ltb_ℤ x b)) [
    | inl left ↦
        let here : in_range a c x ≡ in_range a b x = ground arith in
        let not_there : in_range b c x ≡ false = ground arith in
        rw (not_there, here) (append-nil (if in_range a b x then d else []))
    | inr right ↦
        let not_here : in_range a b x ≡ false = ground arith in
        let there : in_range a c x ≡ in_range b c x = ground arith in rw (not_here, there) refl
  ]

  empty_range : (a b x : ℤ) → a ≡ b → in_range a b x ≡ false
  empty_range a b x e = rw e (ground arith)

  Reports-visit_all :
      (each : CompareSegment → HashdiffProgress → Visit keys same_values source target limits)
      → ((s : CompareSegment) (p : HashdiffProgress)
          → s.start ≤ℤ s.end_
          → Reports s.start s.end_ (each s p))
      → (a b : ℤ) (segments : List CompareSegment) (p : HashdiffProgress) → Tiles a segments b
      → Reports a b (visit_all keys same_values source target limits each segments p)
  unfolding visit_all
  Reports-visit_all each told a b [] p t = record {
    events = [];
    progress = p;
    returns = refl;
    exact = λ k. rw (empty_range a b (position k) t) refl;
  }
  Reports-visit_all each told a b (s ∷ rest) p t =
      let first = told s p (let q = t.1 in rw t.0 (omega arith)) in
      let later = Reports-visit_all each told s.end_ b rest first.progress t.2 in
      record {
        events = first.events ++ later.events;
        progress = later.progress;
        returns = rw (first.returns, later.returns) refl;
        exact = λ k.
            changes-at-append k first.events later.events
            ∙ rw (first.exact k, later.exact k, t.0)
                (two_ranges a s.end_ b (position k) (difference k) (let q = t.1 in omega arith)
                  (Tiles-le s.end_ rest b t.2));
      }

  Reports-turn :
      (below : List CompareSegment → HashdiffProgress → Visit keys same_values source target limits)
      (depth : ℕ) (s : CompareSegment) (p : HashdiffProgress)
      → (should_descend keys same_values source target limits depth s ≡ true
          → (q : HashdiffProgress)
          → Reports s.start s.end_ (below (split_segment s limits.bisection_factor) q))
      → Reports s.start s.end_ (turn keys same_values source target limits below depth s p)
  unfolding turn
  Reports-turn below depth s p descends =
      elim (Bool-cases
        (fingerprint_eq (source.segment_fingerprint s) (target.segment_fingerprint s))) [
          | inl equal ↦
              rw equal
                (record { events = []; progress = _; returns = refl; exact = λ k. skipped equal k })
          | inr unequal ↦
              elim (Bool-cases (should_descend keys same_values source target limits depth s)) [
                | inl down ↦ rw (unequal, down) (descends down _)
                | inr stay ↦ rw (unequal, stay) (Reports-row_mode s _)
              ]
        ]
    where
      skipped :
          fingerprint_eq (source.segment_fingerprint s) (target.segment_fingerprint s) ≡ true
          → (k : K) → [] ≡ (if in_range s.start s.end_ (position k) then difference k else [])
      skipped equal k = elim (Bool-cases (in_range s.start s.end_ (position k))) [
        | inl inside ↦ rw inside (sym (given.fingerprints_tell s equal k inside))
        | inr outside ↦ rw outside refl
      ]

  Reports-visit :
      (fuel depth : ℕ) (s : CompareSegment) (p : HashdiffProgress)
      → 1 ≤ limits.bisection_factor
      → depth ≤ limits.max_bisection_depth
      → limits.max_bisection_depth < depth + fuel
      → s.start ≤ℤ s.end_
      → Reports s.start s.end_ (visit keys same_values source target limits fuel depth s p)
  unfolding visit
  Reports-visit zero depth s p f shallow enough h = absurd (omega arith)
  Reports-visit (suc fuel) depth s p f shallow enough h = Reports-turn _ depth s p (λ down q.
      let deeper : depth < limits.max_bisection_depth = unfold should_descend in ground arith in
      Reports-visit_all _
        (λ child r w. Reports-visit fuel (depth + 1) child r f (omega arith) (omega arith) w)
        s.start s.end_ (split_segment s limits.bisection_factor) q
        (split_segment-Tiles s limits.bisection_factor f h).0)

  Reports-root :
      (fuel : ℕ) (root : CompareSegment)
      → limits.max_bisection_depth < fuel
      → 1 ≤ limits.bisection_factor
      → root.start ≤ℤ root.end_
      → Reports root.start root.end_ (
          if not limits.recursive_checksum || leb (estimated_rows root) limits.bisection_threshold
          then row_mode keys same_values source target limits root no_hashdiff_progress
          else visit_all keys same_values source target limits
              (visit keys same_values source target limits fuel 0)
              (split_segment root limits.bisection_factor)
              no_hashdiff_progress)
  Reports-root fuel root enough f h =
      elim (Bool-cases
        (not limits.recursive_checksum || leb (estimated_rows root) limits.bisection_threshold)) [
          | inl direct ↦ rw direct (Reports-row_mode root no_hashdiff_progress)
          | inr recursive ↦ rw recursive (
              Reports-visit_all _
                (λ s p w. Reports-visit fuel 0 s p f (omega arith) (omega arith) w) root.start
                root.end_ (split_segment root limits.bisection_factor) no_hashdiff_progress
                (split_segment-Tiles root limits.bisection_factor f h).0)
        ]

  -- For tables that can be compared, whichever segments are skipped, split or compared row by row,
  -- and for any fuel beyond the depth limit: the recursive comparison of a range returns, and the
  -- differences that it reports of a key are those between the two rows of the key if the key lies
  -- in the range, and none if not.
  pub recursive_hashdiff_exact :
      (fuel : ℕ) (root : CompareSegment)
      → limits.max_bisection_depth < fuel
      → 1 ≤ limits.bisection_factor
      → root.start ≤ℤ root.end_
      → (result : HashdiffResult K C) × (recursive_hashdiff keys same_values source target limits
            fuel root
          ≡ ok result)
        × ((k : K)
            → changes (at keys same_values k result.events)
              ≡ (if in_range root.start root.end_ (position k) then difference k else []))
  unfolding recursive_hashdiff
  recursive_hashdiff_exact fuel root enough f h =
      let r = Reports-root fuel root enough f h in
      (record { events = r.events; progress = r.progress }, rw r.returns refl, r.exact)
