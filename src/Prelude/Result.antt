-- ===== src/Prelude/Result.antt =====
-- Results of fallible code: Go's `(value, error)` pairs, as a value or an error.
use mathlib.Core.Path.{◌≡◌, refl}
use mathlib.Core.Bool.{Bool, true, false}
use herdr_woof.Prelude.Tests.{if◌then◌else◌}

pub data Result {ℓ κ} (E : Type ℓ) (A : Type κ) : Type (ℓ ⊔ κ) where
  ok : A → Result E A
  err : E → Result E A

-- `if bad { return e }`: an early return of an error.
abbrev pub refuse {ℓ} : {E : Type ℓ} → Bool → E → Result E (Unit {0})
refuse bad e = elim bad [ true ↦ err e | false ↦ ok tt ]

-- `if err != nil { return err }` behind a step that gives a value.
infixl 5 ◌>>=◌ ◌>>◌
abbrev pub ◌>>=◌ {ℓ κ μ} :
    {E : Type ℓ} {A : Type κ} {B : Type μ} → Result E A → (A → Result E B) → Result E B
result >>= rest = elim result [ err e ↦ err e | ok a ↦ rest a ]

-- The same behind a check, which gives no value.
abbrev pub ◌>>◌ {ℓ κ} : {E : Type ℓ} {B : Type κ} → Result E (Unit {0}) → Result E B → Result E B
check >> rest = elim check [ err e ↦ err e | ok _ ↦ rest ]

module _ {ℓ κ μ} {E : Type ℓ} {A : Type κ} {B : Type μ} where
  -- Two steps that end well: what the first one gave, and that the rest went well from there.
  pub ok_steps :
      (first : Result E A) (rest : A → Result E B) {b : B}
      → first >>= rest ≡ ok b
      → (a : A) × (first ≡ ok a) × (rest a ≡ ok b)
  ok_steps (err e) rest h = cc
  ok_steps (ok a) rest h = (a, refl, h)

module _ {ℓ κ} {E : Type ℓ} {A : Type κ} where
  -- Behind an early return that is not taken.
  pub refuse_passed :
      (bad : Bool) (e : E) (rest : Result E A) {a : A}
      → refuse bad e >> rest ≡ ok a
      → (bad ≡ false) × (rest ≡ ok a)
  refuse_passed true e rest h = cc
  refuse_passed false e rest h = (refl, h)

  pub ok-inj : {a b : A} → Path (Result E A) (ok a) (ok b) → a ≡ b
  ok-inj h = cc

  -- The branch of a test that the code took.
  pub by_branch {μ} :
      {P : Type μ} (b : Bool) (x y : Result E A) {a : A}
      → (if b then x else y) ≡ ok a
      → (b ≡ true → x ≡ ok a → P)
      → (b ≡ false → y ≡ ok a → P)
      → P
  by_branch true x y h p q = p refl h
  by_branch false x y h p q = q refl h
