-- ===== src/Core/Verify/Authentic.antt =====
-- core/vl_core.c: vl_verify with vl_ed25519_verify of core/vl_ed25519.c as its signature check.
mod Tests
use vecti_license.Base.{
  ℕ, ◌-◌, ◌<◌, ◌≡◌, ◌≢◌, ◌!=◌, arith, Bool, true, Option, none, some, List, [], ◌∷◌, ◌++◌,
}
use vecti_license.Base.{length, length-drop, take, drop, All, zero, suc}
use vecti_license.Base.Digits.{Below}
use vecti_license.Hash.{Ctx, Words}
use vecti_license.Sha512.{block_len}
use vecti_license.Sha512.Digest.{digest}
use vecti_license.Base32.{base32_decode}
use vecti_license.Base32.RoundTrip.{base32_decode_canonical}
use vecti_license.Ed25519.{Curve, ed25519_verify, order}
use vecti_license.Ed25519.Scalar.{le_value}
use vecti_license.Ed25519.Key.{IsKeyBytes, PacksBytes, IsStrongKey}
use vecti_license.Ed25519.Verify.{ed25519_verify_sound, All-drop}
use vecti_license.Api.{ok, Hal, Config, License, PubKey, blob_bin_len, payload_len}
use vecti_license.Core.Verify.{verify}
use vecti_license.Core.Verify.Steps.{Memory, key_list, signed_message}
use vecti_license.Core.Verify.Sound.{verify_sound}
use vecti_license.Base.{subst, sym}
use vecti_license.Core.Verify.Order.{Signed}
use mathlib.Core.List.{Memᴰ}
use mathlib.Core.List.Memᴰ.{head, tail}

-- The call in vl_verify; `stack` and `out` are the memory of its hash.
unfoldable pub signature_check :
    (curve : Curve) → Ctx Words → List ℕ → List ℕ → List ℕ → List ℕ → Bool
signature_check curve stack out sig msg key =
    ed25519_verify curve stack out (some sig) (some msg) (some key) != 0

-- The text decodes to 100 bytes, whose last 64 are an Ed25519 signature of the first 36 under `pk`.
pub record IsAuthentic (curve : Curve) (text : List ℕ) (pk : PubKey) : Type 0 where
  pub bin : List ℕ
  pub decodes : base32_decode (some text) (some blob_bin_len) blob_bin_len ≡ some bin
  pub point : curve.Point
  pub strong : IsStrongKey curve pk.key point
  pub reduced : le_value (drop 32 (drop payload_len bin)) 32 < le_value order 32
  pub equation :
      take 32 (drop payload_len bin)
      ≡ curve.pack (
          curve.add_points
            (curve.scalarmult point (
              curve.reduce (
                digest ((take 32 (drop payload_len bin) ++ take 32 pk.key) ++ signed_message bin))))
            (curve.scalarbase (drop 32 (drop payload_len bin))))

All-at : (P : PubKey → Type 0) (keys : List PubKey) (pk : PubKey) → All P keys → Memᴰ pk keys → P pk
All-at P [] pk all m = elim m [ ]
All-at P (k ∷ keys) pk all (head e) = subst P (sym e) all.0
All-at P (k ∷ keys) pk all (tail m) = All-at P keys pk all.1 m

nonzero_test : (n : ℕ) → (n != 0) ≡ true → n ≢ 0
nonzero_test n h = ground arith

Signed-IsAuthentic :
    (curve : Curve) (stack : Ctx Words) (out text : List ℕ) (cfg : Config)
    → PacksBytes curve
    → length stack.buffer ≡ block_len
    → All (λ (pk : PubKey). IsKeyBytes pk.key) (key_list cfg.keys)
    → Signed (signature_check curve stack out) text cfg
    → (pk : PubKey) × Memᴰ pk (key_list cfg.keys) × IsAuthentic curve text pk
unfolding signature_check
Signed-IsAuthentic curve stack out text cfg laws sized keys (bin, pk, decodes, trusted, signed) =
    let (long, bytes, again) =
      base32_decode_canonical text bin blob_bin_len blob_bin_len 161 (omega arith) (omega arith)
        (omega arith) decodes in
    let (reduced, point, strong, equation) =
      ed25519_verify_sound curve stack out (drop payload_len bin) (signed_message bin) pk.key laws
        sized (omega (arith, length-drop payload_len bin))
        (All-drop (Below 256) payload_len bin bytes)
        (All-at (λ (pk : PubKey). IsKeyBytes pk.key) (key_list cfg.keys) pk keys trusted)
        (nonzero_test _ signed) in
    (
      pk,
      trusted,
      record {
        bin = bin;
        decodes = decodes;
        point = point;
        strong = strong;
        reduced = reduced;
        equation = equation;
      },
    )

-- If vl_verify with vl_ed25519_verify as its check returns VL_OK, and all configured keys have 32
-- bytes, then the text decodes to 100 bytes that end in an Ed25519 signature of the payload under
-- one of these keys: the key is the canonical spelling of a point that is not of order 1, 2, 4 or
-- 8, the scalar is below the group's order, and the equation of the curve operations holds.
pub verify-IsAuthentic :
    {W : Type 0} (curve : Curve) (stack : Ctx Words) (out : List ℕ) (mem : Memory) (text : List ℕ)
    (cfg : Config) (hal : Hal W) (old new : Option License) (w w' : W)
    → PacksBytes curve
    → length stack.buffer ≡ block_len
    → All (λ (pk : PubKey). IsKeyBytes pk.key) (key_list cfg.keys)
    → verify (signature_check curve stack out) mem (some text) (some cfg) (some hal) old w
      ≡ (ok, new, w')
    → (pk : PubKey) × Memᴰ pk (key_list cfg.keys) × IsAuthentic curve text pk
verify-IsAuthentic curve stack out mem text cfg hal old new w w' laws sized keys run =
    let (text', cfg', hal', lic, e, f, g, left, v) =
      verify_sound (signature_check curve stack out) mem (some text) (some cfg) (some hal) old new w
        w' run in
    let signed : Signed (signature_check curve stack out) text' cfg' =
      (v.bin, v.pk, v.decodes, v.trusted, v.signed) in
    let same_text : text' ≡ text = cc in
    let same_cfg : cfg' ≡ cfg = cc in
    Signed-IsAuthentic curve stack out text cfg laws sized keys (
      subst (λ c. Signed (signature_check curve stack out) text c) same_cfg
        (subst (λ t. Signed (signature_check curve stack out) t cfg') same_text signed))
