-- ===== src/Compare/RowDiff.antt =====
-- What the row comparison of one segment reports of each key.
use data_ops_studio_v.Base.{
  ℕ, zero, suc, ◌+◌, ◌≡◌, refl, ◌∙◌, Bool, false, not, Option, none, some, List, [], ◌∷◌, ◌++◌, map,
  if◌then◌else◌, is_some, ok, filterb, arith, Bool-cases, inl, inr, All, ap, ◌||◌,
}
use data_ops_studio_v.Compare.{
  CompareRow, CompareDiffEvent, CompareSegment, CompareSegmentReader, Side,
}
use data_ops_studio_v.Keys.{
  Keys, get, put, get-put, occurs, occurs-append, occurs-order_by, occurs-filterb, HoldsOnce,
  HoldsOnce-put,
}
use data_ops_studio_v.Compare.Rows.{
  RowMap, fill, row_map, key_events, key_union, sorted_compare_keys, diff_events, row_level_diff,
}

module _ {K C : Type 0} (keys : Keys K) where
  -- The first row with the key.
  unfoldable pub find_row : K → List (CompareRow K C) → Option (CompareRow K C)
  find_row k [] = none
  find_row k (r ∷ rows) = if keys.eq r.pk k then some r else find_row k rows

  -- The rows have different keys.
  abbrev pub Distinct : List (CompareRow K C) → Type 0
  Distinct [] = Unit
  Distinct (r ∷ rows) = All (λ s. keys.eq r.pk s.pk ≡ false) rows × Distinct rows

  abbrev pub Absent : RowMap K C → List (CompareRow K C) → Type 0
  Absent out rows = All (λ s. get keys s.pk out ≡ none) rows

  Absent-put :
      (r : CompareRow K C) (out : RowMap K C) (rows : List (CompareRow K C))
      → All (λ s. keys.eq r.pk s.pk ≡ false) rows
      → Absent out rows
      → Absent (put keys r.pk r out) rows
  Absent-put r out [] d a = tt
  Absent-put r out (s ∷ rows) d a =
      (rw (get-put keys r.pk s.pk r out, d.0) a.0, Absent-put r out rows d.1 a.1)

  -- Over rows with new and different keys the loop counts no duplicate, and finds each row.
  record Filled (out : RowMap K C) (rows : List (CompareRow K C)) (duplicates : ℕ)
      (result : RowMap K C × ℕ × ℕ) : Type 0 where
    counted : result.2 ≡ duplicates
    found :
        (k : K)
        → get keys k result.0
          ≡ (if is_some (get keys k out) then get keys k out else find_row k rows)
    once : HoldsOnce keys result.0

  found_out : (o : Option (CompareRow K C)) → o ≡ (if is_some o then o else none)
  found_out none = refl
  found_out (some r) = refl

  fill-Filled :
      (rows : List (CompareRow K C)) (out : RowMap K C) (total duplicates : ℕ)
      → Distinct rows
      → Absent out rows
      → HoldsOnce keys out
      → Filled out rows duplicates (fill keys rows out total duplicates)
  unfolding fill find_row
  fill-Filled [] out total duplicates d a h = record {
    counted = refl;
    found = λ k. found_out (get keys k out);
    once = h;
  }
  fill-Filled (r ∷ rows) out total duplicates d a h = rw a.0 (
      let rest =
        fill-Filled rows (put keys r.pk r out) (total + 1) duplicates d.1
          (Absent-put r out rows d.0 a.1) (HoldsOnce-put keys r.pk r out h) in
      record {
        counted = rest.counted;
        found = λ k. ground (
          arith,
          rest.found k,
          get-put keys r.pk k r out,
          keys.eq_iff r.pk k,
          a.0,
          ap (λ x. get keys x out) {x = r.pk} {y = k},
        );
        once = rest.once;
      })

  -- Rows with different keys are taken in, and each is found by its key.
  pub row_map-Distinct :
      (rows : List (CompareRow K C)) (side : Side)
      → Distinct rows
      → (m : RowMap K C) × (row_map keys rows side ≡ ok m)
        × ((k : K) → get keys k m ≡ find_row k rows)
        × HoldsOnce keys m
  unfolding row_map get occurs
  row_map-Distinct rows side d =
      let f = fill-Filled rows [] 0 0 d (none_absent rows) (λ k. refl) in
      ((fill keys rows [] 0 0).0, ground (arith, f.counted), λ k. f.found k, f.once)
    where
      none_absent : (rs : List (CompareRow K C)) → Absent [] rs
      none_absent [] = tt
      none_absent (r ∷ rs) = (refl, none_absent rs)

module _ {K C : Type 0} (keys : Keys K) (same_values : List C → List C → Bool) where
  -- The events of one key.
  abbrev pub at : K → List (CompareDiffEvent K C) → List (CompareDiffEvent K C)
  at k es = filterb (λ e. keys.eq e.pk k) es

  abbrev copies : ℕ → List (CompareDiffEvent K C) → List (CompareDiffEvent K C)
  copies zero es = []
  copies (suc n) es = es ++ copies n es

  pub at-append :
      (k : K) (xs ys : List (CompareDiffEvent K C)) → at k (xs ++ ys) ≡ at k xs ++ at k ys
  at-append k [] ys = refl
  at-append k (x ∷ xs) ys = elim (Bool-cases (keys.eq x.pk k)) [
    | inl hit ↦ rw hit (ap (λ es. x ∷ es) (at-append k xs ys))
    | inr miss ↦ rw miss (at-append k xs ys)
  ]

  at-key_events :
      (k j : K) (s t : Option (CompareRow K C))
      → at k (key_events same_values j s t)
        ≡ (if keys.eq j k then key_events same_values j s t else [])
  unfolding key_events
  at-key_events k j none none = ground arith
  at-key_events k j none (some t) = ground arith
  at-key_events k j (some s) none = ground arith
  at-key_events k j (some s) (some t) = ground arith

  at-diff_events :
      (s t : RowMap K C) (k : K) (ks : List K)
      → at k (diff_events keys same_values s t ks)
        ≡ copies (occurs keys k ks) (key_events same_values k (get keys k s) (get keys k t))
  unfolding diff_events occurs
  at-diff_events s t k [] = refl
  at-diff_events s t k (j ∷ ks) =
      rw
        (
          at-append k (key_events same_values j (get keys j s) (get keys j t))
              (diff_events keys same_values s t ks),
          at-key_events k j (get keys j s) (get keys j t),
          at-diff_events s t k ks,
        )
        (elim (Bool-cases (keys.eq j k)) [
          | inl hit ↦
              let e : j ≡ k = (keys.eq_iff j k).0 hit in
              rw (hit, e)
                (ap (λ n. copies n (key_events same_values k (get keys k s) (get keys k t)))
                  {x = suc (occurs keys k ks)} {y = 1 + occurs keys k ks} (omega arith))
          | inr miss ↦ rw miss (
              ap (λ n. copies n (key_events same_values k (get keys k s) (get keys k t)))
                {x = occurs keys k ks} {y = 0 + occurs keys k ks} (omega arith))
        ])

  occurs-key_union :
      (s t : RowMap K C) (k : K)
      → HoldsOnce keys s
      → HoldsOnce keys t
      → occurs keys k (key_union keys same_values s t)
        ≡ (if is_some (get keys k s) || is_some (get keys k t) then 1 else 0)
  unfolding key_union
  occurs-key_union s t k hs ht = ground (
    arith,
    hs k,
    ht k,
    occurs-append keys k (map (λ e. e.0) s)
        (filterb (λ j. not (is_some (get keys j s))) (map (λ e. e.0) t)),
    occurs-filterb keys (λ j. not (is_some (get keys j s))) k (map (λ e. e.0) t),
  )

  once_or_none :
      (k : K) (s t : Option (CompareRow K C))
      → copies (if is_some s || is_some t then 1 else 0) (key_events same_values k s t)
        ≡ key_events same_values k s t
  unfolding key_events
  once_or_none k none none = refl
  once_or_none k none (some t) = refl
  once_or_none k (some s) none = refl
  once_or_none k (some s) (some t) = refl

  -- Where the rows of a segment have different keys on either side, the row comparison returns, and
  -- reports of each key what its two rows say: one event if there is a row, and else none.
  pub row_level_diff_exact :
      (source target : CompareSegmentReader K C) (segment : CompareSegment)
      → Distinct keys (source.fetch_rows segment)
      → Distinct keys (target.fetch_rows segment)
      → (es : List (CompareDiffEvent K C)) × (row_level_diff keys same_values source target segment
          ≡ ok es)
        × ((k : K)
            → at k es
              ≡ key_events same_values k
                  (find_row keys k (source.fetch_rows segment))
                  (find_row keys k (target.fetch_rows segment)))
  unfolding row_level_diff sorted_compare_keys
  row_level_diff_exact source target segment ds dt =
      let (s, s_ok, s_get, s_once) =
        row_map-Distinct keys (source.fetch_rows segment) Side.source ds in
      let (t, t_ok, t_get, t_once) =
        row_map-Distinct keys (target.fetch_rows segment) Side.target dt in
      let ks = sorted_compare_keys keys same_values (key_union keys same_values s t) in
      (
        diff_events keys same_values s t ks,
        rw (s_ok, t_ok) refl,
        λ k.
            at-diff_events s t k ks
            ∙ ap (λ n. copies n (key_events same_values k (get keys k s) (get keys k t)))
                (occurs-order_by keys k (key_union keys same_values s t)
                  ∙ occurs-key_union s t k s_once t_once)
            ∙ once_or_none k (get keys k s) (get keys k t)
            ∙ rw (s_get k, t_get k) refl,
      )
