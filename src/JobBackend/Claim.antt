-- ===== src/JobBackend/Claim.antt =====
-- `claim_next` of app/infrastructure/jobbackend/postgres.py hands out the best job there is.
use data_ops_studio_v.Base.{
  ℕ, ◌≡◌, refl, sym, subst, String, Bool, true, false, none, some, List, [], ◌∷◌, Bool-cases,
  Option-cases, inl, inr, arith, All, Elem, filterb, ◌⊎◌,
}
use data_ops_studio_v.Base.Json.{ℤ, pos, negsuc}
use data_ops_studio_v.Sql.{first}
use data_ops_studio_v.JobBackend.{JobRow, Tables}
use data_ops_studio_v.JobBackend.Queue.{lt_ℤ, before, claimable, claimed_by, claim_next}
use data_ops_studio_v.JobBackend.Rows.{Elem-filterb}
use data_ops_studio_v.JobBackend.Calls.Updates.{Elem-first, some_eq}

lt_ℤ-negtrans : (a b c : ℤ) → lt_ℤ a b ≡ false → lt_ℤ b c ≡ false → lt_ℤ a c ≡ false
lt_ℤ-negtrans (pos a) (pos b) (pos c) p q = ground arith
lt_ℤ-negtrans _ _ _ p q = ground arith

lt_ℤ-asym : (a b : ℤ) → lt_ℤ a b ≡ true → lt_ℤ b a ≡ false
lt_ℤ-asym (pos a) (pos b) p = ground arith
lt_ℤ-asym _ _ p = ground arith

before-negtrans : (r s t : JobRow) → before r s ≡ false → before s t ≡ false → before r t ≡ false
unfolding before
before-negtrans r s t p q = ground (
  arith,
  lt_ℤ-negtrans s.job.priority r.job.priority t.job.priority,
  lt_ℤ-negtrans t.job.priority s.job.priority r.job.priority,
  lt_ℤ-negtrans r.job.priority s.job.priority t.job.priority,
  lt_ℤ-negtrans s.job.priority t.job.priority r.job.priority,
)

before-asym : (r s : JobRow) → before r s ≡ true → before s r ≡ false
unfolding before
before-asym r s p =
    ground (arith, lt_ℤ-asym s.job.priority r.job.priority, lt_ℤ-asym r.job.priority s.job.priority)

lt_ℤ-irrefl : (a : ℤ) → lt_ℤ a a ≡ false
lt_ℤ-irrefl (pos a) = ground arith
lt_ℤ-irrefl (negsuc a) = ground arith

before_irrefl : (r : JobRow) → before r r ≡ false
unfolding before
before_irrefl r = rw (lt_ℤ-irrefl r.job.priority) (ground arith)

first-nil : (rows : List JobRow) → first before rows ≡ none → rows ≡ []
unfolding first
first-nil [] e = refl
first-nil (r ∷ rows) e = elim (Option-cases (first before rows)) [
  | inl alone ↦ let clash = (rw alone at e) in cc
  | inr (s, found) ↦ let clash = (rw found at e) in cc
]

abbrev Unpreceded : List JobRow → JobRow → Type 0
Unpreceded rows r = All (λ x. before x r ≡ false) rows

-- No row precedes `c`, and `c` does not precede `b`: so none precedes `b`.
lift :
    (b c : JobRow) (rows : List JobRow)
    → before c b ≡ false
    → All (λ x. before x c ≡ false) rows
    → All (λ x. before x b ≡ false) rows
lift b c [] h all = tt
lift b c (x ∷ rows) h all = (before-negtrans x c b all.0 h, lift b c rows h all.1)

first-best :
    (rows : List JobRow) (a : JobRow)
    → first before rows ≡ some a
    → All (λ x. before x a ≡ false) rows
unfolding first
first-best [] a e = tt
first-best (b ∷ rows) a e = elim (Option-cases (first before rows)) [
  | inl alone ↦
      let it : b ≡ a = some_eq (rw alone at e) in
      subst (Unpreceded (b ∷ rows)) it
        (before_irrefl b, subst (λ l. Unpreceded l b) (sym (first-nil rows alone)) tt)
  | inr (c, found) ↦ elim (Bool-cases (before c b)) [
    | inl hit ↦
        let it : c ≡ a = some_eq (rw (found, hit) at e) in
        subst (Unpreceded (b ∷ rows)) it (before-asym c b hit, first-best rows c found)
    | inr miss ↦
        let it : b ≡ a = some_eq (rw (found, miss) at e) in
        subst (Unpreceded (b ∷ rows)) it
          (before_irrefl b, lift b c rows miss (first-best rows c found))
  ]
]

-- Either no row is pending, due and unlocked, and nothing changes; or the worker gets the job of such
-- a row, running and leased to it, and no other such row has a higher priority or, at the same
-- priority, an earlier creation.
pub claim_next_best :
    (locked : String → Bool) (w : String) (now : ℕ) (t : Tables)
    → ((filterb (claimable locked now) t.jobs ≡ []) × (claim_next locked w now t ≡ (t, none)))
      ⊎ ((r : JobRow) × Elem r t.jobs
          × (claimable locked now r ≡ true)
          × All (λ s. before s r ≡ false) (filterb (claimable locked now) t.jobs)
          × ((claim_next locked w now t).1 ≡ some (claimed_by w now r.job)))
unfolding claim_next
claim_next_best locked w now t =
    elim (Option-cases (first before (filterb (claimable locked now) t.jobs))) [
      | inl idle ↦ inl (first-nil _ idle, rw (idle, claim_next) refl)
      | inr (r, found) ↦
          let (m, ready) =
            Elem-filterb (claimable locked now) r t.jobs (Elem-first before r _ found) in
          inr (r, m, ready, first-best _ r found, rw (found, claim_next) refl)
    ]
