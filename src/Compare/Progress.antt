-- ===== src/Compare/Progress.antt =====
-- The counters of the recursive comparison.
use data_ops_studio_v.Base.{
  ℕ, zero, suc, ◌+◌, ◌≤◌, ◌<◌, ◌≡◌, ◌≢◌, refl, Bool, true, not, List, [], ◌∷◌, ◌++◌, ◌||◌, ◌⊎◌, leb,
  Result, ok, raise, ◌>>=◌, arith, Bool-cases, inl, inr, sym, ap, subst,
}
use data_ops_studio_v.Compare.{
  RunLimits, CompareSegment, CompareSegmentReader, CompareDiffEvent, HashdiffProgress,
  HashdiffResult, CompareDuplicateKeyError,
}
use data_ops_studio_v.Keys.{Keys}
use data_ops_studio_v.Compare.Rows.{row_level_diff}
use data_ops_studio_v.Compare.Segments.{estimated_rows, split_segment}
use data_ops_studio_v.Compare.Hashdiff.{
  HashdiffError, duplicate_key, out_of_fuel, comparing, Visit, fingerprint_eq, visit_all, visit,
  turn, row_mode, scanned, should_descend, recursive_hashdiff, no_hashdiff_progress,
}

-- Each segment that was scanned was skipped, split or compared row by row, and none lies deeper than
-- the limit.
pub record IsBalanced (limits : RunLimits) (p : HashdiffProgress) : Type 0 where
  pub accounted :
      p.scanned_segments ≡ p.skipped_segments + p.recursed_segments + p.row_mode_segments
  pub shallow : p.max_depth_seen ≤ limits.max_bisection_depth

ok_result :
    {K C : Type 0} (a b : HashdiffResult K C)
    → ◌≡◌ {A = Result HashdiffError (HashdiffResult K C)} (ok a) (ok b)
    → a ≡ b
ok_result a b e = cc

module _ {K C : Type 0} (keys : Keys K) (same_values : List C → List C → Bool)
    (source target : CompareSegmentReader K C) (limits : RunLimits) (given : ℕ) where
  -- What a visit ends with. It runs out of fuel only if no more is given than the depth limit.
  abbrev Outcome : Visit keys same_values source target limits → Type 0
  Outcome (raise (duplicate_key e)) = Unit
  Outcome (raise out_of_fuel) = given ≤ limits.max_bisection_depth
  Outcome (ok (es, p)) = IsBalanced limits p

  -- The last lines of the comparison.
  abbrev finished :
      Visit keys same_values source target limits → Result HashdiffError (HashdiffResult K C)
  finished v = v >>= λ (events, progress). ok (record { events = events; progress = progress })

  Outcome-visit_all :
      (each : CompareSegment → HashdiffProgress → Visit keys same_values source target limits)
      → ((s : CompareSegment) (p : HashdiffProgress) → IsBalanced limits p → Outcome (each s p))
      → (segments : List CompareSegment) (p : HashdiffProgress) → IsBalanced limits p
      → Outcome (visit_all keys same_values source target limits each segments p)
  unfolding visit_all
  Outcome-visit_all each keep [] p b = b
  Outcome-visit_all each keep (s ∷ rest) p b =
      first (each s p) (keep s p b) (λ q c. Outcome-visit_all each keep rest q c)
    where
      then_all :
          (es : List (CompareDiffEvent K C)) (v : Visit keys same_values source target limits)
          → Outcome v
          → Outcome (v >>= λ (fs, p''). ok (es ++ fs, p''))
      then_all es (raise e) h = h
      then_all es (ok (fs, q)) h = h

      first :
          (v : Visit keys same_values source target limits)
          → Outcome v
          → ((q : HashdiffProgress)
              → IsBalanced limits q
              → Outcome (visit_all keys same_values source target limits each rest q))
          → Outcome (
              v >>= λ (es, p').
              visit_all keys same_values source target limits each rest p' >>= λ (fs, p'').
              ok (es ++ fs, p''))
      first (raise e) h later = h
      first (ok (es, q)) h later =
          then_all es (visit_all keys same_values source target limits each rest q) (later q h)

  -- A comparison of rows counts itself.
  Outcome-row_mode :
      (s : CompareSegment) (p : HashdiffProgress)
      → p.scanned_segments ≡ p.skipped_segments + p.recursed_segments + (p.row_mode_segments + 1)
      → p.max_depth_seen ≤ limits.max_bisection_depth
      → Outcome (row_mode keys same_values source target limits s p)
  unfolding row_mode
  Outcome-row_mode s p n d = after (row_level_diff keys same_values source target s)
    where
      after :
          (r : Result CompareDuplicateKeyError (List (CompareDiffEvent K C)))
          → Outcome (
              comparing r >>= λ es.
              ok (es, record p { row_mode_segments = p.row_mode_segments + 1 }))
      after (raise e) = tt
      after (ok es) = record { accounted = n; shallow = d }

  Outcome-turn :
      (below : List CompareSegment → HashdiffProgress → Visit keys same_values source target limits)
      (depth : ℕ) (s : CompareSegment) (p : HashdiffProgress)
      → depth ≤ limits.max_bisection_depth
      → (should_descend keys same_values source target limits depth s ≡ true
          → (segments : List CompareSegment) (q : HashdiffProgress) → IsBalanced limits q
          → Outcome (below segments q))
      → IsBalanced limits p
      → Outcome (turn keys same_values source target limits below depth s p)
  unfolding turn scanned
  Outcome-turn below depth s p d descends b =
      elim (Bool-cases
        (fingerprint_eq (source.segment_fingerprint s) (target.segment_fingerprint s))) [
          | inl equal ↦ rw equal (record { accounted = omega arith; shallow = omega arith })
          | inr unequal ↦
              elim (Bool-cases (should_descend keys same_values source target limits depth s)) [
                | inl down ↦
                    rw (unequal, down)
                      (descends down _ _
                        (record { accounted = omega arith; shallow = omega arith }))
                | inr stay ↦ rw (unequal, stay) (Outcome-row_mode s _ (omega arith) (omega arith))
              ]
        ]

  Outcome-visit :
      (fuel depth : ℕ) (s : CompareSegment) (p : HashdiffProgress)
      → depth ≤ limits.max_bisection_depth
      → depth + fuel ≡ given
      → IsBalanced limits p
      → Outcome (visit keys same_values source target limits fuel depth s p)
  unfolding visit
  Outcome-visit zero depth s p d e b = omega arith
  Outcome-visit (suc fuel) depth s p d e b =
      Outcome-turn _ depth s p d
        (λ down segments q c.
          let deeper : depth < limits.max_bisection_depth = unfold should_descend in ground arith in
          Outcome-visit_all _
            (λ child r w. Outcome-visit fuel (depth + 1) child r (omega arith) (omega arith) w)
            segments q c)
        b

  Outcome-root :
      (root : CompareSegment)
      → Outcome (
          visit_all keys same_values source target limits
            (visit keys same_values source target limits given 0)
            (split_segment root limits.bisection_factor)
            no_hashdiff_progress)
  Outcome-root root =
      Outcome-visit_all _ (λ s p w. Outcome-visit given 0 s p (omega arith) (omega arith) w)
        (split_segment root limits.bisection_factor) no_hashdiff_progress
        (record { accounted = refl; shallow = omega arith })

  -- The comparison ends: with more fuel than the depth limit it does not run out, whatever the two
  -- readers answer.
  pub recursive_hashdiff-ne-out_of_fuel :
      (root : CompareSegment)
      → limits.max_bisection_depth < given
      → recursive_hashdiff keys same_values source target limits given root ≢ raise out_of_fuel
  unfolding recursive_hashdiff row_mode
  recursive_hashdiff-ne-out_of_fuel root enough end =
      elim (Bool-cases
        (not limits.recursive_checksum || leb (estimated_rows root) limits.bisection_threshold)) [
          | inl direct ↦
              alone (row_level_diff keys same_values source target root)
                (rw (direct, row_mode) at end)
          | inr recursive ↦ deep _ (Outcome-root root) (rw recursive at end)
        ]
    where
      alone :
          (r : Result CompareDuplicateKeyError (List (CompareDiffEvent K C)))
          → finished
              (comparing r >>= λ es. ok (es, record no_hashdiff_progress { row_mode_segments = 1 }))
            ≢ raise out_of_fuel
      alone (raise e) h = cc
      alone (ok es) h = cc

      deep :
          (v : Visit keys same_values source target limits)
          → Outcome v
          → finished v ≢ raise out_of_fuel
      deep (raise (duplicate_key e)) b h = cc
      deep (raise out_of_fuel) b h = omega arith
      deep (ok (es, p)) b h = cc

  -- The counters of a comparison that returns, whatever its fuel: either the root alone was compared row by row, because
  -- recursion is switched off or the root is small, or each segment scanned was skipped, split or
  -- compared row by row, and no depth beyond the limit was seen.
  pub recursive_hashdiff-IsBalanced :
      (root : CompareSegment) (result : HashdiffResult K C)
      → recursive_hashdiff keys same_values source target limits given root ≡ ok result
      → ((not limits.recursive_checksum || leb (estimated_rows root) limits.bisection_threshold
            ≡ true)
          × (result.progress ≡ record no_hashdiff_progress { row_mode_segments = 1 }))
        ⊎ IsBalanced limits result.progress
  unfolding recursive_hashdiff row_mode
  recursive_hashdiff-IsBalanced root result done =
      elim (Bool-cases
        (not limits.recursive_checksum || leb (estimated_rows root) limits.bisection_threshold)) [
          | inl direct ↦ inl (
            direct,
            alone (row_level_diff keys same_values source target root)
                (rw (direct, row_mode) at done),
          )
          | inr recursive ↦ inr (balanced _ (Outcome-root root) (rw recursive at done))
        ]
    where
      alone :
          (r : Result CompareDuplicateKeyError (List (CompareDiffEvent K C)))
          → finished
              (comparing r >>= λ es. ok (es, record no_hashdiff_progress { row_mode_segments = 1 }))
            ≡ ok result
          → result.progress ≡ record no_hashdiff_progress { row_mode_segments = 1 }
      alone (raise e) h = cc
      alone (ok es) h = sym (ap (λ x. x.progress) (ok_result _ result h))

      balanced :
          (v : Visit keys same_values source target limits)
          → Outcome v
          → finished v ≡ ok result
          → IsBalanced limits result.progress
      balanced (raise e) b h = cc
      balanced (ok (es, p)) b h = subst (λ x. IsBalanced limits x.progress) (ok_result _ result h) b
