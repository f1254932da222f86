-- ===== src/Base/Results.antt =====
-- Exceptions as values: `raise` carries what the source raises.
use mathlib.Core.Path.{◌≡◌, refl}
use mathlib.Core.Bool.{Bool, true, false}

pub data Result {ℓ κ} (E : Type κ) (A : Type ℓ) : Type (ℓ ⊔ κ) where
  raise : E → Result E A
  ok : A → Result E A

infixl 5 ◌>>=◌ ◌>>◌
-- The first exception ends a sequence.
abbrev pub ◌>>=◌ : {E A B : Type 0} → Result E A → (A → Result E B) → Result E B
m >>= next = elim m [ raise e ↦ raise e | ok a ↦ next a ]

abbrev pub ◌>>◌ : {E B : Type 0} → Result E (Unit {0}) → Result E B → Result E B
m >> next = elim m [ raise e ↦ raise e | ok _ ↦ next ]

-- `if b: raise e`.
abbrev pub raise_if : {E : Type 0} → Bool → E → Result E (Unit {0})
raise_if b e = elim b [ true ↦ raise e | false ↦ ok tt ]

-- A sequence that ends well has gone through a first result.
pub >>=-eq-ok :
    {E A B : Type 0} (m : Result E A) (next : A → Result E B) {b : B}
    → (m >>= next) ≡ ok b
    → (a : A) × (m ≡ ok a) × (next a ≡ ok b)
>>=-eq-ok (raise e) next done = cc
>>=-eq-ok (ok a) next done = (a, refl, done)
