-- ===== src/Base/Results.antt =====
-- Code that throws gives an `Outcome`: a value that is returned, or what is thrown instead.
use mathlib.Core.Path.{◌≡◌, refl, Path}
use mathlib.Core.Bool.{Bool, true, false}
use mathlib.Core.Option.{Option, none, some}

pub data Outcome {ℓ κ} (Thrown : Type κ) (A : Type ℓ) : Type (ℓ ⊔ κ) where
  returns : A → Outcome Thrown A
  throws : Thrown → Outcome Thrown A

module _ {κ} {Thrown : Type κ} where
  -- `if (!test) throw problem`.
  abbrev pub ensure : Bool → Thrown → Outcome Thrown (Unit {0})
  ensure test problem = elim test [ true ↦ returns tt | false ↦ throws problem ]

  -- A `parse` that gives nothing throws.
  abbrev pub demand {ℓ} : {A : Type ℓ} → Option A → Thrown → Outcome Thrown A
  demand found problem = elim found [ none ↦ throws problem | some a ↦ returns a ]

  infixl 5 ◌>>=◌ ◌>>◌
  abbrev pub ◌>>=◌ {ℓ ι} :
      {A : Type ℓ} {B : Type ι} → Outcome Thrown A → (A → Outcome Thrown B) → Outcome Thrown B
  first >>= next = elim first [ returns a ↦ next a | throws problem ↦ throws problem ]

  abbrev pub ◌>>◌ {ℓ} :
      {B : Type ℓ} → Outcome Thrown (Unit {0}) → Outcome Thrown B → Outcome Thrown B
  first >> next = first >>= λ _. next

pub returns-injective {κ ℓ} :
    {Thrown : Type κ} {A : Type ℓ} {a b : A}
    → Path (Outcome Thrown A) (returns a) (returns b)
    → a ≡ b
returns-injective e = cc

module _ {κ ℓ ι} {Thrown : Type κ} {A : Type ℓ} {B : Type ι} where
  -- What returns went through its first step.
  pub through :
      (first : Outcome Thrown A) {next : A → Outcome Thrown B} {b : B}
      → (first >>= next) ≡ returns b
      → (a : A) × (first ≡ returns a) × (next a ≡ returns b)
  through (returns a) e = (a, refl, e)
  through (throws problem) e = cc

-- What returns went through its test.
pub passed {κ ℓ} :
    {Thrown : Type κ} {B : Type ℓ} (test : Bool) (problem : Thrown) {next : Outcome Thrown B}
    {b : B}
    → (ensure test problem >> next) ≡ returns b
    → (test ≡ true) × (next ≡ returns b)
passed true problem e = (refl, e)
passed false problem e = cc
