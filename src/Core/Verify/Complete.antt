-- ===== src/Core/Verify/Complete.antt =====
-- core/vl_core.c: vl_verify accepts every licence that meets the specification.
mod Clock
use vecti_license.Base.{
  ℕ, ◌==◌, ◌!=◌, ◌&&◌, ◌≡◌, ◌≢◌, inl, inr, refl, sym, ap, ◌∙◌, Bool, true, false,
}
use vecti_license.Base.{Option, none, some, List, [], ◌∷◌, if◌then◌else◌, ltb, arith, bit_and}
use vecti_license.Base.{Bool-cases, Option-cases, ==_iff}
use vecti_license.Util.{ct_eq}
use vecti_license.Base32.{base32_decode}
use vecti_license.Api.{
  Status, ok, revoked, no_clock, Hal, Config, License, PubKey, blob_bin_len, magic, format_version,
}
use vecti_license.Api.{device_id_len, flag_require_clock, flag_enforce_hwm}
use vecti_license.Api.{checked_signature, checked_device, checked_revocation}
use vecti_license.Core.Fingerprint.{compute_fingerprint}
use vecti_license.Core.Verify.{verify, conclude, arguments_ok, stored}
use vecti_license.Core.Verify.Monad.{Outcome, pass, fail, require}
use vecti_license.Core.Verify.Steps.{
  Memory, byte_at, parse_payload, mark_checked, find_key, key_list, on_list, is_revoked,
}
use vecti_license.Core.Verify.Steps.{
  decode_step, known_key, header_step, revocation_step, signature_step,
}
use vecti_license.Core.Verify.Steps.{
  compare_device, device_step, mark_stored, compare_mark, check_window, clock_step, checks,
}
use vecti_license.Core.Verify.Steps.{has_revocations, load_mark, store_mark}
use vecti_license.Core.Verify.Accepts.{
  NotRevoked, no_list, not_listed, InWindow, MarkAccepts, at_mark, past_mark, ClockAccepts,
}
use vecti_license.Core.Verify.Accepts.{no_reading, window_only, window_and_mark, Verified}
use mathlib.Core.List.{Memᴰ}
use mathlib.Core.List.Memᴰ.{head, tail}
use vecti_license.Core.Verify.Complete.Clock.{same_test, differ_test, clock_step-accepts}

-- No two entries of the table carry the same key id.
abbrev pub HasDistinctIds : List PubKey → Type 0
HasDistinctIds keys = (a b : PubKey) → Memᴰ a keys → Memᴰ b keys → a.key_id ≡ b.key_id → a ≡ b

find_key-mem :
    (keys : List PubKey) (id : ℕ) (pk : PubKey)
    → Memᴰ pk keys
    → pk.key_id ≡ id
    → (k : PubKey) × (find_key keys id ≡ some k) × Memᴰ k keys × (k.key_id ≡ id)
unfolding find_key
find_key-mem [] id pk m e = elim m [ ]
find_key-mem (k ∷ keys) id pk m e = elim (Bool-cases (k.key_id == id)) [
  | inl same ↦ (k, rw same refl, head refl, (==_iff k.key_id id).0 same)
  | inr other ↦
      let (found, is, there, has) = later m other (λ rest. find_key-mem keys id pk rest e) in
      (found, rw other is, tail there, has)
]
  where
    later :
        Memᴰ pk (k ∷ keys)
        → (k.key_id == id) ≡ false
        → (Memᴰ pk keys
            → (k' : PubKey) × (find_key keys id ≡ some k') × Memᴰ k' keys × (k'.key_id ≡ id))
        → (k' : PubKey) × (find_key keys id ≡ some k') × Memᴰ k' keys × (k'.key_id ≡ id)
    later (head same) other ih =
        let hit : (k.key_id == id) ≡ true =
          (==_iff k.key_id id).1 (ap (λ (p : PubKey). p.key_id) (sym same) ∙ e) in
        absurd (clash hit other)
      where
        clash : {b : Bool} → b ≡ true → b ≡ false → ⊥
        clash p q = cc
    later (tail rest) other ih = ih rest

find_key-distinct :
    (keys : List PubKey) (id : ℕ) (pk : PubKey)
    → HasDistinctIds keys
    → Memᴰ pk keys
    → pk.key_id ≡ id
    → find_key keys id ≡ some pk
find_key-distinct keys id pk distinct m e =
    let (k, found, there, has) = find_key-mem keys id pk m e in
    found ∙ ap some (distinct k pk there m (has ∙ sym e))

decode_step-accepts :
    (blob bin : List ℕ)
    → base32_decode (some blob) (some blob_bin_len) blob_bin_len ≡ some bin
    → decode_step blob ≡ pass bin
unfolding decode_step
decode_step-accepts blob bin e = rw e

header_step-accepts :
    (cfg : Config) (bin : List ℕ) (pk : PubKey)
    → byte_at bin 0 ≡ magic
    → byte_at bin 1 ≡ format_version
    → byte_at bin 3 ≡ cfg.family
    → find_key (key_list cfg.keys) (byte_at bin 2) ≡ some pk
    → header_step cfg bin ≡ pass (parse_payload bin, pk)
unfolding header_step parse_payload known_key
header_step-accepts cfg bin pk e0 e1 e2 e3 = rw (
  same_test (byte_at bin 0) magic e0,
  same_test (byte_at bin 1) format_version e1,
  same_test (byte_at bin 3) cfg.family e2,
  e3,
)

on_list-false :
    (serials : List ℕ) (serial : ℕ) → ¬ Memᴰ serial serials → on_list serials serial ≡ false
unfolding on_list
on_list-false [] serial out = refl
on_list-false (s ∷ serials) serial out = elim (Bool-cases (s == serial)) [
  | inl same ↦ absurd (out (head (sym ((==_iff s serial).0 same))))
  | inr other ↦ rw other (on_list-false serials serial (λ m. out (tail m)))
]

revocation_step-accepts :
    (cfg : Config) (lic lic' : License)
    → NotRevoked cfg.revoked_serials lic lic'
    → revocation_step cfg lic ≡ pass lic'
unfolding revocation_step is_revoked
revocation_step-accepts cfg lic lic' h = go cfg.revoked_serials h
  where
    go :
        (o : Option (List ℕ))
        → NotRevoked o lic lic'
        → (if has_revocations o
            then if is_revoked o lic.serial
              then fail revoked
              else pass (mark_checked checked_revocation lic)
            else pass lic)
          ≡ pass lic'
    go none (no_list e same) = ap pass (sym same)
    go none (not_listed ne out same) = absurd (ne refl)
    go (some []) (no_list e same) = ap pass (sym same)
    go (some []) (not_listed ne out same) = absurd (ne refl)
    go (some (s ∷ ss)) (no_list e same) = cc
    go (some (s ∷ ss)) (not_listed ne out same) =
        rw (on_list-false (s ∷ ss) lic.serial out) (ap pass (sym same))

module _ {W : Type 0} where
  device_step-accepts :
      (mem : Memory) (hal : Hal W) (lic : License) (fp : Option (List ℕ)) (w w' : W)
      → compute_fingerprint mem.hash (some hal) (some mem.fingerprint) w ≡ (ok, fp, w')
      → ct_eq fp (some lic.device_id) device_id_len ≢ 0
      → device_step mem hal lic w ≡ (pass (mark_checked checked_device lic), w')
  unfolding device_step compare_device
  device_step-accepts mem hal lic fp w w' e ne =
      rw (e, compare_device, differ_test (ct_eq fp (some lic.device_id) device_id_len) 0 ne) refl

  module _ (ed25519_verify : List ℕ → List ℕ → List ℕ → Bool) (mem : Memory) where
    checks-accepts :
        (blob : List ℕ) (cfg : Config) (hal : Hal W) (lic : License) (w w' : W)
        → HasDistinctIds (key_list cfg.keys)
        → Verified ed25519_verify mem blob cfg hal lic w w'
        → checks ed25519_verify mem blob cfg hal w ≡ (pass lic, w')
    unfolding checks signature_step
    checks-accepts blob cfg hal lic w w' distinct v =
        let signed = mark_checked checked_signature (parse_payload v.bin) in
        let key =
          find_key-distinct (key_list cfg.keys) (byte_at v.bin 2) v.pk distinct v.trusted
            v.is_key in
        rw
          (
            decode_step-accepts blob v.bin v.decodes,
            header_step-accepts cfg v.bin v.pk v.is_magic v.is_version v.is_family key,
            v.signed,
            device_step-accepts mem hal signed v.fingerprint w v.enumerated v.computes v.is_device,
            revocation_step-accepts cfg (mark_checked checked_device signed) v.listed v.not_revoked,
          )
          (clock_step-accepts cfg hal v.listed lic v.enumerated w' v.current)

    -- With no key id twice in the table, and with the callbacks that the flags ask for, vl_verify
    -- returns VL_OK for every text that decodes to a licence for this product, signed by a trusted
    -- key for this device, not revoked and current, and `*out` holds that licence.
    pub verify_complete :
        (blob : List ℕ) (cfg : Config) (hal : Hal W) (out : Option License) (lic : License)
        (w w' : W)
        → arguments_ok cfg hal ≡ true
        → HasDistinctIds (key_list cfg.keys)
        → Verified ed25519_verify mem blob cfg hal lic w w'
        → verify ed25519_verify mem (some blob) (some cfg) (some hal) out w
          ≡ (ok, stored out lic, w')
    unfolding verify conclude
    verify_complete blob cfg hal out lic w w' good distinct v =
        rw (good, verify, checks-accepts blob cfg hal lic w w' distinct v, conclude) refl
