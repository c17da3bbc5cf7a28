-- ===== src/Core/Verify/Inversion.antt =====
-- core/vl_core.c: what each step of vl_verify has established when it passes.
use vecti_license.Base.{
  ℕ, ◌==◌, ◌!=◌, ◌≡◌, inl, inr, refl, sym, ap, ◌∙◌, Bool, true, false, Option, none, some, List, [],
  ◌∷◌,
}
use vecti_license.Base.{Bool-cases, Option-cases, arith, drop, if◌then◌else◌, ==_iff}
use vecti_license.Base32.{base32_decode}
use vecti_license.Api.{
  Status, Config, License, PubKey, blob_bin_len, magic, format_version, payload_len,
}
use vecti_license.Api.{revoked, checked_signature, checked_revocation}
use vecti_license.Core.Verify.Monad.{Outcome, pass, fail, require-pass}
use vecti_license.Core.Verify.Steps.{
  byte_at, parse_payload, mark_checked, find_key, key_list, on_list, is_revoked,
}
use vecti_license.Core.Verify.Steps.{
  decode_step, known_key, header_step, revocation_step, signature_step, signed_message,
}
use vecti_license.Core.Verify.Steps.{has_revocations}
use vecti_license.Core.Verify.Accepts.{NotRevoked, no_list, not_listed}
use mathlib.Core.List.{Memᴰ}
use mathlib.Core.List.Memᴰ.{head, tail}

-- A test in front of a failure has been passed.
guard-pass :
    {A : Type 0} (b : Bool) (s : Status) (o : Outcome A) (a : A)
    → (if b then fail s else o) ≡ pass a
    → (b ≡ false) × (o ≡ pass a)
guard-pass true s o a h = cc
guard-pass false s o a h = (refl, h)

pub guard_world-pass :
    {A W : Type 0} (b : Bool) (s : Status) (w : W) (o : Outcome A × W) (a : A) (w' : W)
    → (if b then (fail s, w) else o) ≡ (pass a, w')
    → (b ≡ false) × (o ≡ (pass a, w'))
guard_world-pass true s w o a w' h = absurd (clash (ap (λ r. r.0) h))
  where
    clash : fail s ≡ pass a → ⊥
    clash e = cc
guard_world-pass false s w o a w' h = (refl, h)

!=-false : (a b : ℕ) → (a != b) ≡ false → a ≡ b
!=-false a b h = ground arith

pub decode_step-pass :
    (blob bin : List ℕ)
    → decode_step blob ≡ pass bin
    → base32_decode (some blob) (some blob_bin_len) blob_bin_len ≡ some bin
unfolding decode_step
decode_step-pass blob bin h =
    elim (Option-cases (base32_decode (some blob) (some blob_bin_len) blob_bin_len)) [
      | inl e ↦ cc
      | inr (b, e) ↦ cc
    ]

pass_injective : {A : Type 0} {a b : A} → pass a ≡ pass b → a ≡ b
pass_injective h = cc

find_key-some :
    (keys : List PubKey) (id : ℕ) (pk : PubKey)
    → find_key keys id ≡ some pk
    → Memᴰ pk keys × (pk.key_id ≡ id)
unfolding find_key
find_key-some [] id pk h = cc
find_key-some (k ∷ keys) id pk h = elim (Bool-cases (k.key_id == id)) [
  | inl same ↦
      let found : some k ≡ some pk = rw same at h in
      let this : k ≡ pk = cc in
      (head (sym this), ap (λ k. k.key_id) (sym this) ∙ (==_iff k.key_id id).0 same)
  | inr other ↦ let (there, e) = find_key-some keys id pk (rw other at h) in (tail there, e)
]

pub on_list-true :
    (serials : List ℕ) (serial : ℕ) → Memᴰ serial serials → on_list serials serial ≡ true
unfolding on_list
on_list-true [] serial h = elim h [ ]
on_list-true (s ∷ serials) serial (head e) = rw ((==_iff s serial).1 (sym e)) refl
on_list-true (s ∷ serials) serial (tail later) =
    rw (on_list-true serials serial later) (ground arith)

known_key-pass :
    (o : Option PubKey) (lic lic' : License) (pk : PubKey)
    → known_key o lic ≡ pass (lic', pk)
    → (o ≡ some pk) × (lic' ≡ lic)
unfolding known_key
known_key-pass none lic lic' pk h = cc
known_key-pass (some k) lic lic' pk h =
    let e = pass_injective h in (ap some (ap (λ p. p.1) e), sym (ap (λ p. p.0) e))

-- The header of a passed payload
pub header_step-pass :
    (cfg : Config) (bin : List ℕ) (lic : License) (pk : PubKey)
    → header_step cfg bin ≡ pass (lic, pk)
    → (byte_at bin 0 ≡ magic)
      × (byte_at bin 1 ≡ format_version)
      × (byte_at bin 3 ≡ cfg.family)
      × Memᴰ pk (key_list cfg.keys)
      × (pk.key_id ≡ byte_at bin 2)
      × (lic ≡ parse_payload bin)
unfolding header_step parse_payload
header_step-pass cfg bin lic pk h =
    let (e0, h0) = guard-pass _ _ _ _ h in
    let (e1, h1) = guard-pass _ _ _ _ h0 in
    let (e2, h2) = guard-pass _ _ _ _ h1 in
    let (found, same) = known_key-pass _ _ _ _ h2 in
    let (there, id) = find_key-some _ _ _ found in
    (!=-false _ _ e0, !=-false _ _ e1, !=-false _ _ e2, there, id, same)

pub signature_step-pass :
    (ed25519_verify : List ℕ → List ℕ → List ℕ → Bool) (bin : List ℕ) (lic lic' : License)
    (pk : PubKey)
    → signature_step ed25519_verify bin (lic, pk) ≡ pass lic'
    → (ed25519_verify (drop payload_len bin) (signed_message bin) pk.key ≡ true)
      × (lic' ≡ mark_checked checked_signature lic)
unfolding signature_step
signature_step-pass ed25519_verify bin lic lic' pk h =
    let (holds, e) = require-pass _ _ _ _ h in (holds, sym e)

pub revocation_step-pass :
    (cfg : Config) (lic lic' : License)
    → revocation_step cfg lic ≡ pass lic'
    → NotRevoked cfg.revoked_serials lic lic'
unfolding revocation_step is_revoked
revocation_step-pass cfg lic lic' h = go cfg.revoked_serials h
  where
    go :
        (o : Option (List ℕ))
        → (if has_revocations o
            then if is_revoked o lic.serial
              then fail revoked
              else pass (mark_checked checked_revocation lic)
            else pass lic)
          ≡ pass lic'
        → NotRevoked o lic lic'
    go none e = no_list refl (sym (pass_injective e))
    go (some []) e = no_list refl (sym (pass_injective e))
    go (some (s ∷ ss)) e =
        let (clear, rest) = guard-pass (on_list (s ∷ ss) lic.serial) revoked _ _ e in
        not_listed (λ p. cc) (λ m. absurd (differ (on_list-true _ _ m) clear))
          (sym (pass_injective rest))
      where
        differ : {b : Bool} → b ≡ true → b ≡ false → ⊥
        differ p q = cc
