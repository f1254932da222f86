-- ===== src/Base/Dicts.antt =====
-- A Python `dict` with text keys: pairs in insertion order. A write to a key that is there keeps
-- its place, and a new key goes to the end.
use Prim.Native.String.{String}
use mathlib.Core.Path.{◌≡◌, refl}
use mathlib.Core.Logic.{inl, inr}
use mathlib.Core.Bool.{false}
use mathlib.Core.Option.{Option, none, some}
use mathlib.Core.List.{List, [], ◌∷◌, ◌++◌}
use native.Mathlib.Omega.{arith}
use text.Mathlib.Text.{◌==◌ as str_eq}
use text.Mathlib.TextEquality.{eq_iff as str_eq_iff}
use data_ops_studio_v.Base.Tests.{if◌then◌else◌, Bool-cases}

pub str_eq_flip : (a b : String) → str_eq a b ≡ false → str_eq b a ≡ false
str_eq_flip a b h = ground (arith, str_eq_iff a b, str_eq_iff b a)

abbrev pub Dict : Type 0 → Type 0
Dict V = List (String × V)

module _ {V : Type 0} where
  unfoldable pub lookup : String → Dict V → Option V
  lookup k [] = none
  lookup k ((j, v) ∷ d) = if str_eq j k then some v else lookup k d

  unfoldable pub insert : String → V → Dict V → Dict V
  insert k v [] = (k, v) ∷ []
  insert k v ((j, w) ∷ d) = if str_eq j k then (j, v) ∷ d else (j, w) ∷ insert k v d

  abbrev pub values : Dict V → List V
  values [] = []
  values ((k, v) ∷ d) = v ∷ values d

  -- No pair has the key `k`.
  abbrev pub Fresh : String → Dict V → Type 0
  Fresh k [] = Unit
  Fresh k ((j, v) ∷ d) = (str_eq j k ≡ false) × Fresh k d

  -- The keys are distinct, as the keys of a `dict` are.
  abbrev pub IsDict : Dict V → Type 0
  IsDict [] = Unit
  IsDict ((k, v) ∷ d) = Fresh k d × IsDict d

  pub lookup-insert :
      (k j : String) (v : V) (d : Dict V)
      → lookup j (insert k v d) ≡ (if str_eq k j then some v else lookup j d)
  unfolding lookup insert
  lookup-insert k j v [] = refl
  lookup-insert k j v ((i, w) ∷ d) =
      ground (arith, str_eq_iff k j, str_eq_iff i k, str_eq_iff i j, lookup-insert k j v d)

  -- A write to the key behind a prefix that does not have it.
  pub insert-append :
      (k : String) (v w : V) (xs ys : Dict V)
      → Fresh k xs
      → insert k v (xs ++ (k, w) ∷ ys) ≡ xs ++ (k, v) ∷ ys
  unfolding insert
  insert-append k v w [] ys f = ground (arith, str_eq_iff k k)
  insert-append k v w ((j, u) ∷ xs) ys f = ground (arith, insert-append k v w xs ys f.1)

  pub insert-Fresh :
      (k j : String) (v : V) (d : Dict V) → str_eq k j ≡ false → Fresh j d → Fresh j (insert k v d)
  unfolding insert
  insert-Fresh k j v [] h f = (h, tt)
  insert-Fresh k j v ((i, w) ∷ d) h f = ground (arith, insert-Fresh k j v d h f.1)

  pub insert-IsDict : (k : String) (v : V) (d : Dict V) → IsDict d → IsDict (insert k v d)
  unfolding insert
  insert-IsDict k v [] h = (tt, tt)
  insert-IsDict k v ((i, w) ∷ d) h = elim (Bool-cases (str_eq i k)) [
    | inl same ↦ rw same h
    | inr other ↦
        rw other (insert-Fresh k i v d (str_eq_flip i k other) h.0, insert-IsDict k v d h.1)
  ]
