-- ===== src/Core/Verify/Monad.antt =====
-- core/vl_core.c, vl_verify: steps that may fail and that change the world through the platform's
-- callbacks. A step passes a value on, or fails with the status that the code carries to `fail:`.
use vecti_license.Base.{Bool, true, false, ◌≡◌, refl, ap}
use vecti_license.Api.{Status}

pub data Outcome {ℓ} (A : Type ℓ) : Type ℓ where
  pass : A → Outcome A
  fail : Status → Outcome A

abbrev pub Step : Type 0 → Type 0 → Type 0
Step W A = W → Outcome A × W

module _ {W : Type 0} where
  abbrev pub continue : {A B : Type 0} → Outcome A × W → (A → Step W B) → Outcome B × W
  continue (pass a, w) f = f a w
  continue (fail s, w) f = (fail s, w)

  infixl 5 ◌>>=◌
  abbrev pub ◌>>=◌ : {A B : Type 0} → Step W A → (A → Step W B) → Step W B
  ◌>>=◌ m f w = continue (m w) f

  abbrev pub give : {A : Type 0} → Outcome A → Step W A
  give o w = (o, w)

  -- A chain that passes has a first step that passes.
  pub continue-pass :
      {A B : Type 0} (r : Outcome A × W) (f : A → Step W B) {b : B} {w' : W}
      → continue r f ≡ (pass b, w')
      → (a : A) × (v : W) × (r ≡ (pass a, v)) × (f a v ≡ (pass b, w'))
  continue-pass (pass a, v) f h = (a, v, refl, h)
  continue-pass (fail s, v) f {b} {w'} h = absurd (clash (ap (λ r. r.0) h))
    where
      clash : fail s ≡ pass b → ⊥
      clash e = cc

-- `if (!holds) { rc = s; goto fail; }`
abbrev pub require : {A : Type 0} → Bool → Status → A → Outcome A
require true s a = pass a
require false s a = fail s

pub require-pass :
    {A : Type 0} (b : Bool) (s : Status) (a a' : A)
    → require b s a ≡ pass a'
    → (b ≡ true) × (a ≡ a')
require-pass true s a a' h = (refl, cc)
require-pass false s a a' h = cc
