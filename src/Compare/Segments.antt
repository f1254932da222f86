-- ===== src/Compare/Segments.antt =====
-- `_split_segment` of app/domain/compare.py: the pieces tile the segment, and there are not too many.
use native.Mathlib.Nat.{lt-mul-div-succ, suc-mul}
use data_ops_studio_v.Base.{
  ℕ, zero, suc, ◌+◌, ◌-◌, ◌*◌, ◌/◌, ◌≤◌, ◌<◌, ◌≡◌, refl, String, List, [], ◌∷◌, if◌then◌else◌, ◌==◌,
  max, length, arith, Bool-cases, inl, inr,
}
use data_ops_studio_v.Base.Json.{ℤ, pos}
use data_ops_studio_v.Base.Int.{
  pos_part, ◌+ℤ◌, ◌-ℤ◌, ◌≤ℤ◌, ◌<ℤ◌, ltb_ℤ, min_ℤ, at_least_zero, +ℤ_parts, part_zero, eq_of_parts,
}
use data_ops_studio_v.Compare.{CompareSegment}

unfoldable pub estimated_rows : CompareSegment → ℕ
estimated_rows s = at_least_zero (s.end_ -ℤ s.start)

-- The `while` loop, with fuel.
unfoldable pub split_from : ℕ → String → ℕ → ℤ → ℤ → List CompareSegment
split_from zero key chunk start end = []
split_from (suc fuel) key chunk start end =
    let stop = min_ℤ end (start +ℤ pos chunk) in
    let rest =
      record { key_column = key; start = start; end_ = stop }
      ∷ split_from fuel key chunk stop end in
    if ltb_ℤ start end then rest else []

unfoldable pub split_segment : CompareSegment → ℕ → List CompareSegment
split_segment s factor =
    let width = estimated_rows s in
    if width == 0
    then []
    else split_from width s.key_column (max 1 ((width + factor - 1) / factor)) s.start s.end_

-- The pieces stand side by side from `a` to `b`, none of them empty.
abbrev pub Tiles : ℤ → List CompareSegment → ℤ → Type 0
Tiles a [] b = a ≡ b
Tiles a (s ∷ rest) b = (s.start ≡ a) × (a <ℤ s.end_) × Tiles s.end_ rest b

-- A piece ends after its start, and not after the end; what is left is narrower by the chunk, if
-- anything is left.
record Step (chunk : ℕ) (start end stop : ℤ) : Type 0 where
  starts : start <ℤ stop
  ends : stop ≤ℤ end
  narrows : pos_part (end -ℤ stop) < pos_part (end -ℤ start)
  by_chunk : pos_part (end -ℤ stop) ≤ pos_part (end -ℤ start) - chunk

min_ℤ-Step :
    (chunk : ℕ) (start end : ℤ)
    → 1 ≤ chunk
    → start <ℤ end
    → Step chunk start end (min_ℤ end (start +ℤ pos chunk))
min_ℤ-Step chunk start end c h = elim (Bool-cases (ltb_ℤ (start +ℤ pos chunk) end)) [
  | inl inside ↦ rw inside (record {
    starts = ground (arith, +ℤ_parts start (pos chunk));
    ends = ground arith;
    narrows = ground (
      arith,
      +ℤ_parts start (pos chunk),
      part_zero start end,
      part_zero (start +ℤ pos chunk) end,
    );
    by_chunk = ground (
      arith,
      +ℤ_parts start (pos chunk),
      part_zero start end,
      part_zero (start +ℤ pos chunk) end,
    );
  })
  | inr past ↦ rw past (record {
    starts = h;
    ends = omega arith;
    narrows = ground (arith, part_zero start end, part_zero end end);
    by_chunk = ground (arith, part_zero end end);
  })
]

-- As much fuel as the segment is wide is enough.
split_from-Tiles :
    (fuel : ℕ) (key : String) (chunk : ℕ) (start end : ℤ)
    → 1 ≤ chunk
    → start ≤ℤ end
    → pos_part (end -ℤ start) ≤ fuel
    → Tiles start (split_from fuel key chunk start end) end
unfolding split_from
split_from-Tiles zero key chunk start end c h f =
    omega (arith, eq_of_parts start end, part_zero start end)
split_from-Tiles (suc fuel) key chunk start end c h f = elim (Bool-cases (ltb_ℤ start end)) [
  | inr done ↦ rw done (eq_of_parts start end (ground arith))
  | inl more ↦
      let step = min_ℤ-Step chunk start end c (ground arith) in
      rw more (
        refl,
        step.starts,
        split_from-Tiles fuel key chunk (min_ℤ end (start +ℤ pos chunk)) end c step.ends
            (let n = step.narrows in omega arith),
      )
]

split_from-few :
    (fuel : ℕ) (key : String) (chunk : ℕ) (start end : ℤ) (k : ℕ)
    → 1 ≤ chunk
    → start ≤ℤ end
    → pos_part (end -ℤ start) ≤ k * chunk
    → length (split_from fuel key chunk start end) ≤ k
unfolding split_from
split_from-few zero key chunk start end k c h w = omega arith
split_from-few (suc fuel) key chunk start end zero c h w = elim (Bool-cases (ltb_ℤ start end)) [
  | inr done ↦ rw done (omega arith)
  | inl more ↦ absurd (ground (arith, part_zero start end))
]
split_from-few (suc fuel) key chunk start end (suc k) c h w = elim (Bool-cases (ltb_ℤ start end)) [
  | inr done ↦ rw done (omega arith)
  | inl more ↦
      let step = min_ℤ-Step chunk start end c (ground arith) in
      let n = step.by_chunk in
      let left : pos_part (end -ℤ min_ℤ end (start +ℤ pos chunk)) ≤ k * chunk =
        omega (arith, suc-mul k chunk) in
      rw more (
        omega (
          arith,
          split_from-few fuel key chunk (min_ℤ end (start +ℤ pos chunk)) end k c step.ends left,
        ))
]

-- The division rounds up.
chunk_covers :
    (width factor : ℕ) → 1 ≤ factor → width ≤ factor * max 1 ((width + factor - 1) / factor)
chunk_covers width factor f =
    omega (
      arith,
      lt-mul-div-succ (width + factor - 1) f,
      mul_max factor ((width + factor - 1) / factor),
    )
  where
    mul_max : (a b : ℕ) → a * b ≤ a * max 1 b
    mul_max a b = grind arith

-- With a factor of at least one, a segment is split into at most that many pieces, which stand side
-- by side from its start to its end, none of them empty.
pub split_segment-Tiles :
    (s : CompareSegment) (factor : ℕ)
    → 1 ≤ factor
    → s.start ≤ℤ s.end_
    → Tiles s.start (split_segment s factor) s.end_ × (length (split_segment s factor) ≤ factor)
unfolding split_segment estimated_rows
split_segment-Tiles s factor f h = elim (Bool-cases (pos_part (s.end_ -ℤ s.start) == 0)) [
  | inl empty ↦
      rw empty (eq_of_parts s.start s.end_ (ground (arith, part_zero s.start s.end_)), omega arith)
  | inr wide ↦
      let chunk = max 1 ((pos_part (s.end_ -ℤ s.start) + factor - 1) / factor) in
      rw wide (
        split_from-Tiles _ s.key_column chunk s.start s.end_ (omega arith) h (omega arith),
        split_from-few _ s.key_column chunk s.start s.end_ factor (omega arith) h
            (chunk_covers _ factor f),
      )
]
