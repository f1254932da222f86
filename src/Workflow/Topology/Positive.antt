-- ===== src/Workflow/Topology/Positive.antt =====
-- How many ids have a degree above 0: the measure of the loop of Kahn's algorithm.
use data_ops_studio_v.Base.{
  ℕ, ◌+◌, ◌≤◌, ◌≡◌, refl, sym, ◌∙◌, String, Bool, some, List, [], ◌∷◌, map, if◌then◌else◌, str_eq,
  str_eq_refl, ◌==◌, filterb, length, Dict, lookup, insert, insert-IsDict, Fresh, IsDict, ok, ap,
  subst, arith, Bool-cases, Option-cases, inl, inr, is_some, str_eq_flip,
}
use data_ops_studio_v.Keys.{occurs}
use data_ops_studio_v.Workflow.{WorkflowNode, WorkflowEdge}
use data_ops_studio_v.Workflow.Topology.{by_index, count_edges, is_zero, no_degrees}
use data_ops_studio_v.Workflow.Topology.Degrees.{ok_eq}

-- The ids whose degree is above 0.
unfoldable pub positive : Dict ℕ → ℕ
positive [] = 0
positive ((k, n) ∷ d) = (if n == 0 then 0 else 1) + positive d

pub positive-insert :
    (t : String) (n m : ℕ) (d : Dict ℕ)
    → lookup t d ≡ some n
    → positive (insert t m d) + (if n == 0 then 0 else 1) ≡ positive d + (if m == 0 then 0 else 1)
unfolding positive lookup insert
positive-insert t n m [] h = cc
positive-insert t n m ((k, v) ∷ d) h = elim (Bool-cases (str_eq k t)) [
  | inl same ↦
      let e : some v ≡ some n = rw same at h in let e' : v ≡ n = cc in rw (same, e') (omega arith)
  | inr other ↦ let rest = positive-insert t n m d (rw other at h) in rw other (omega (arith, rest))
]

abbrev pub keys : Dict ℕ → List String
keys d = map (λ e. e.0) d

-- The test tells the ids of degree 0.
abbrev pub Tells : (String → Bool) → Dict ℕ → Type 0
Tells p [] = Unit
Tells p ((k, n) ∷ d) = (p k ≡ (n == 0)) × Tells p d

pub positive_or_zero :
    (p : String → Bool) (d : Dict ℕ)
    → Tells p d
    → positive d + length (filterb p (keys d)) ≡ length (keys d)
unfolding positive
positive_or_zero p [] h = omega arith
positive_or_zero p ((k, n) ∷ d) h = ground (arith, h.0, positive_or_zero p d h.1)

Tells-cons :
    (k : String) (n : ℕ) (d tail : Dict ℕ)
    → Fresh k tail
    → Tells (λ j. is_zero (lookup j d)) tail
    → Tells (λ j. is_zero (lookup j ((k, n) ∷ d))) tail
unfolding lookup
Tells-cons k n d [] f h = tt
Tells-cons k n d ((j, m) ∷ tail) f h = (rw (str_eq_flip j k f.0) h.0, Tells-cons k n d tail f.1 h.1)

pub lookup-Tells : (d : Dict ℕ) → IsDict d → Tells (λ j. is_zero (lookup j d)) d
unfolding lookup
lookup-Tells [] h = tt
lookup-Tells ((k, n) ∷ d) h = (rw (str_eq_refl k) refl, Tells-cons k n d d h.0 (lookup-Tells d h.1))

keys-insert :
    (t : String) (n m : ℕ) (d : Dict ℕ) → lookup t d ≡ some n → keys (insert t m d) ≡ keys d
unfolding lookup insert
keys-insert t n m [] h = cc
keys-insert t n m ((k, v) ∷ d) h = elim (Bool-cases (str_eq k t)) [
  | inl same ↦ rw same refl
  | inr other ↦ rw other (ap (λ ks. k ∷ ks) (keys-insert t n m d (rw other at h)))
]

-- Counting the edges keeps the ids, and their being distinct.
pub count_edges-keys :
    (es : List WorkflowEdge) (d d' : Dict ℕ)
    → count_edges es d ≡ ok d'
    → IsDict d
    → (keys d' ≡ keys d) × IsDict d'
unfolding count_edges
count_edges-keys [] d d' e u = let same = ok_eq d d' e in (ap keys (sym same), subst IsDict same u)
count_edges-keys (f ∷ es) d d' e u = elim (Bool-cases (is_some (lookup f.source d))) [
  | inr missing ↦ let clash = (rw (missing, count_edges) at e) in cc
  | inl known ↦ elim (Option-cases (lookup f.target d)) [
    | inl missing ↦ let clash = (rw (known, missing, count_edges) at e) in cc
    | inr (n, here) ↦
        let (k, u') =
          count_edges-keys es (insert f.target (n + 1) d) d' (rw (known, here, count_edges) at e)
            (insert-IsDict f.target (n + 1) d u) in
        (k ∙ keys-insert f.target n (n + 1) d here, u')
  ]
]

no_degrees-Fresh :
    (nodes ns : List WorkflowNode) (k : String)
    → occurs (by_index nodes) k (map (λ (n : WorkflowNode). n.id) ns) ≡ 0
    → Fresh k (no_degrees ns)
unfolding occurs no_degrees
no_degrees-Fresh nodes [] k h = tt
no_degrees-Fresh nodes (n ∷ ns) k h = (ground arith, no_degrees-Fresh nodes ns k (ground arith))

pub no_degrees-IsDict :
    (nodes ns : List WorkflowNode)
    → ((id : String) → occurs (by_index nodes) id (map (λ (n : WorkflowNode). n.id) ns) ≤ 1)
    → IsDict (no_degrees ns)
unfolding occurs no_degrees
no_degrees-IsDict nodes [] h = tt
no_degrees-IsDict nodes (n ∷ ns) h = (
  no_degrees-Fresh nodes ns n.id (ground (arith, h n.id, str_eq_refl n.id)),
  no_degrees-IsDict nodes ns (λ id. ground (arith, h id)),
)

pub keys-no_degrees :
    (ns : List WorkflowNode) → keys (no_degrees ns) ≡ map (λ (n : WorkflowNode). n.id) ns
unfolding no_degrees
keys-no_degrees [] = refl
keys-no_degrees (n ∷ ns) = ap (λ ks. n.id ∷ ks) (keys-no_degrees ns)
