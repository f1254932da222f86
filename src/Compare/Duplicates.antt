-- ===== src/Compare/Duplicates.antt =====
-- `_row_map` refuses rows that share a key.
use data_ops_studio_v.Base.{
  ℕ, ◌+◌, ◌≤◌, ◌<◌, ◌≡◌, sym, false, List, [], ◌∷◌, if◌then◌else◌, ltb, is_some, raise, arith,
  Bool-cases, Option-cases, inl, inr, All, length,
}
use data_ops_studio_v.Compare.{CompareRow, Side}
use data_ops_studio_v.Keys.{Keys, get, put, get-put}
use data_ops_studio_v.Compare.Rows.{RowMap, fill, row_map}
use data_ops_studio_v.Compare.RowDiff.{Distinct, Absent}

module _ {K C : Type 0} (keys : Keys K) where
  fill-ge :
      (rows : List (CompareRow K C)) (out : RowMap K C) (total d : ℕ)
      → (d ≤ (fill keys rows out total d).2)
        × ((fill keys rows out total d).1 ≡ total + length rows)
  unfolding fill
  fill-ge [] out total d = (omega arith, omega arith)
  fill-ge (r ∷ rows) out total d =
      let d' = if is_some (get keys r.pk out) then d + 1 else d in
      let rest = fill-ge rows (put keys r.pk r out) (total + 1) d' in
      (ground (arith, rest.0), omega (arith, rest.1))

  new_before :
      (r : CompareRow K C) (out : RowMap K C) (rows : List (CompareRow K C))
      → Absent keys (put keys r.pk r out) rows
      → All (λ s. keys.eq r.pk s.pk ≡ false) rows × Absent keys out rows
  new_before r out [] a = (tt, tt)
  new_before r out (s ∷ rows) a =
      let (d, b) = new_before r out rows a.1 in
      let e = get-put keys r.pk s.pk r out in
      elim (Bool-cases (keys.eq r.pk s.pk)) [
        | inl same ↦ let clash = (rw (same, a.0) at e) in absurd (ground arith)
        | inr other ↦ ((other, d), (sym (rw (other, a.0) at e), b))
      ]

  fill_all_new :
      (rows : List (CompareRow K C)) (out : RowMap K C) (total d : ℕ)
      → (fill keys rows out total d).2 ≡ d
      → Absent keys out rows × Distinct keys rows
  unfolding fill
  fill_all_new [] out total d e = (tt, tt)
  fill_all_new (r ∷ rows) out total d e = elim (Option-cases (get keys r.pk out)) [
    | inr (s, old) ↦ absurd (
        let h = (rw (old, fill) at e) in
        omega (arith, (fill-ge rows (put keys r.pk r out) (total + 1) (d + 1)).0))
    | inl new ↦
        let (a, ds) = fill_all_new rows (put keys r.pk r out) (total + 1) d (rw (new, fill) at e) in
        let (d', b) = new_before r out rows a in ((new, b), (d', ds))
  ]

  -- Rows that do not all have different keys are refused, by an error that counts all of them as its
  -- total and at least one as a duplicate.
  pub row_map_repeated :
      (rows : List (CompareRow K C)) (side : Side)
      → ¬ (Distinct keys rows)
      → (n : ℕ) × (0 < n)
        × (row_map keys rows side
            ≡ raise (record { side = side; duplicates = n; total = length rows }))
  unfolding row_map
  row_map_repeated rows side repeated = elim (Bool-cases (ltb 0 (fill keys rows [] 0 0).2)) [
    | inl hit ↦ ((fill keys rows [] 0 0).2, ground arith, ground (arith, (fill-ge rows [] 0 0).1))
    | inr miss ↦ absurd (repeated (fill_all_new rows [] 0 0 (ground arith)).1)
  ]
