-- ===== src/Core/Verify/Order.antt =====
-- core/vl_core.c: vl_verify calls no platform callback before a trusted key has signed the text.
use vecti_license.Base.{
  ℕ, ◌≡◌, ◌≢◌, ◌⊎◌, inl, inr, ◌∙◌, refl, Bool, true, Option, some, List, Bool-cases, drop,
}
use vecti_license.Api.{Hal, Config, License, PubKey, payload_len, blob_bin_len}
use vecti_license.Base32.{base32_decode}
use vecti_license.Core.Verify.{verify, conclude, arguments_ok}
use vecti_license.Core.Verify.Monad.{Outcome, pass, fail, Step, continue}
use vecti_license.Core.Verify.Steps.{Memory, checks, decode_step, header_step, signature_step}
use vecti_license.Core.Verify.Steps.{signed_message, key_list}
use vecti_license.Core.Verify.Inversion.{decode_step-pass, header_step-pass, signature_step-pass}
use mathlib.Core.List.{Memᴰ}

-- The text decodes to a payload with a signature that verifies under one of the keys.
abbrev pub Signed : (List ℕ → List ℕ → List ℕ → Bool) → List ℕ → Config → Type 0
Signed ed25519_verify text cfg =
    (bin : List ℕ) × (pk : PubKey) × (base32_decode (some text) (some blob_bin_len) blob_bin_len
      ≡ some bin)
    × Memᴰ pk (key_list cfg.keys)
    × (ed25519_verify (drop payload_len bin) (signed_message bin) pk.key ≡ true)

module _ {W : Type 0} (ed25519_verify : List ℕ → List ℕ → List ℕ → Bool) where
  -- A step that calls no callback keeps the world when it fails, and goes on when it passes.
  give-or :
      {A B P : Type 0} (o : Outcome A) (f : A → Step W B) (w : W)
      → ((a : A) → o ≡ pass a → ((f a w).1 ≡ w) ⊎ P)
      → ((continue (o, w) f).1 ≡ w) ⊎ P
  give-or (pass a) f w k = k a refl
  give-or (fail s) f w k = inl refl

  checks-Signed :
      (mem : Memory) (text : List ℕ) (cfg : Config) (hal : Hal W) (w : W)
      → ((checks ed25519_verify mem text cfg hal w).1 ≡ w) ⊎ Signed ed25519_verify text cfg
  unfolding checks
  checks-Signed mem text cfg hal w = give-or (decode_step text) _ w (λ bin e1.
      give-or (header_step cfg bin) _ w (λ found e2.
        give-or (signature_step ed25519_verify bin found) _ w (λ signed e3. inr (
          bin,
          found.1,
          decode_step-pass text bin e1,
          (header_step-pass cfg bin found.0 found.1 e2).3,
          (signature_step-pass ed25519_verify bin found.0 signed found.1 e3).0,
        ))))

  conclude-world : (out : Option License) (r : Outcome License × W) → (conclude out r).2 ≡ r.1
  unfolding conclude
  conclude-world out (pass lic, w) = refl
  conclude-world out (fail s, w) = refl

  -- If vl_verify has called any callback that changed the world, then the text decodes to a payload
  -- and a signature that verifies under the key of one of the configured entries.
  pub verify_calls_after_signature :
      (mem : Memory) (text : List ℕ) (cfg : Config) (hal : Hal W) (out : Option License) (w : W)
      → (verify ed25519_verify mem (some text) (some cfg) (some hal) out w).2 ≢ w
      → Signed ed25519_verify text cfg
  unfolding verify
  verify_calls_after_signature mem text cfg hal out w called =
      elim (Bool-cases (arguments_ok cfg hal)) [
        | inl good ↦ elim (checks-Signed mem text cfg hal w) [
          | inl still ↦ absurd (
              called (
                rw (good, verify)
                  (conclude-world out (checks ed25519_verify mem text cfg hal w) ∙ still)))
          | inr signed ↦ signed
        ]
        | inr bad ↦ absurd (called (rw (bad, verify) refl))
      ]
