-- ===== src/Hal/Nxp/Tests.antt =====
-- hal/nxp/vl_hal_nxp.c: an i.MX RT.
use vecti_license.Base.{ℕ, ◌≡◌, ◌⊎◌, refl, some, [], ◌∷◌, ◌++◌, replicate}
use vecti_license.Sha256.Digest.{digest}
use vecti_license.Api.{ok, platform}
use vecti_license.Core.Fingerprint.{fp_domain, fingerprint_with}
use vecti_license.Core.Fingerprint.Tests.{stack}
use vecti_license.Hal.{reader}
use vecti_license.Base.Words.{be_bytes}
use vecti_license.Base.{length}
use vecti_license.Hal.Single.{IsBlank}
use vecti_license.Hal.Nxp.{Registers, imxrt, nxp_segment, nxp_answer}
use vecti_license.Hal.Nxp.Identity.{nxp_bytes, nxp_fingerprint}

abbrev registers : Registers
registers = record {
  uidh = 0;
  uidmh = 0;
  uidml = 0;
  uidl = 0;
  cfg0 = 0x01020304;
  cfg1 = 0x05060708;
}

reads_imxrt :
    nxp_segment imxrt registers 0 9 (replicate 9 0xcc) 0
    ≡ (ok, 1 ∷ 2 ∷ 3 ∷ 4 ∷ 5 ∷ 6 ∷ 7 ∷ 8 ∷ 0xcc ∷ [], 8)
unfolding nxp_segment nxp_answer be_bytes
reads_imxrt = refl

nxp_fingerprint_example :
    let print =
      fingerprint_with {W = ℕ} stack
        (some (reader (nxp_segment imxrt registers) (replicate 255 0)))
        (some (replicate 32 0xcc))
        0 in
    (IsBlank 8 (nxp_bytes imxrt registers) × (print ≡ (platform, some (replicate 32 0), 0)))
    ⊎ (¬ IsBlank 8 (nxp_bytes imxrt registers)
        × (print ≡ (
          ok,
          some (
              digest
                (fp_domain ++ (length (nxp_bytes imxrt registers) ∷ nxp_bytes imxrt registers))),
          0,
        )))
nxp_fingerprint_example =
    nxp_fingerprint imxrt registers (replicate 255 0) stack (replicate 32 0xcc) 0 refl refl refl
