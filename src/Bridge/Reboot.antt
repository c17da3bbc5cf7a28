-- ===== src/Bridge/Reboot.antt =====
-- bridge/vl_bridge.h: activate, then begin after the next boot.
use vecti_license.Base.{ℕ, ◌≡◌, refl, sym, ap, ◌∙◌, arith, Bool, true, false, Option, none, some}
use vecti_license.Base.{List, [], ◌∷◌, All, length, drop, set, length-drop}
use vecti_license.Hash.{write_at}
use vecti_license.Base32.{base32_decode}
use vecti_license.Api.{Status, ok, Hal, Config, License, zero_license}
use vecti_license.Core.Verify.{verify}
use vecti_license.Core.Verify.Steps.{Memory, checks, decode_step}
use vecti_license.Core.Verify.Sound.{verify_sound}
use vecti_license.Bridge.{
  LicenseObject, c_string, canonical_loop, text_of, license_of, store_blob, blob_loader, applied,
  apply, activate, loaded, begin_from, begin,
}
use native.Mathlib.Nat.{zero-add}
use vecti_license.Base32.{b32_val}
use vecti_license.Base32.Limits.{IsSignificant, base32_encode_shape, base32_decode_bounds}
use vecti_license.Bridge.Inbox.{IsCharacter, c_string-set}
use vecti_license.Bridge.Invariant.Methods.{persisted_object}
use vecti_license.Bridge.Canonical.{canonical_loop_encodes}

IsSignificant-IsCharacter : (text : List ℕ) → All IsSignificant text → All IsCharacter text
unfolding b32_val
IsSignificant-IsCharacter [] h = tt
IsSignificant-IsCharacter (c ∷ text) h =
    let (v, val, spelled) = h.0 in ((λ z. cc (rw z at val)), IsSignificant-IsCharacter text h.1)

-- The kept text of an accepted blob has no NUL.
canonical_loop-IsCharacter :
    (s bin : List ℕ)
    → base32_decode (some s) (some 100) 100 ≡ some bin
    → All IsCharacter (canonical_loop s [])
canonical_loop-IsCharacter s bin run =
    let (fits, bytes, short, spells) = base32_decode_bounds s 100 100 run in
    let (encodes, size, back) = canonical_loop_encodes s bin run in
    let (count, room, significant) = base32_encode_shape bin 161 bytes encodes in
    IsSignificant-IsCharacter (canonical_loop s []) significant

-- A text of 160 characters in a buffer of 161 bytes is read back.
buffer_text :
    (text stack : List ℕ)
    → All IsCharacter text
    → length text ≡ 160
    → length stack ≡ 161
    → c_string (set (write_at 0 text stack) 160 0) ≡ text
buffer_text text stack cs size room =
    rw (zero-add (length text), ← size)
      (c_string-set text (drop (length text) stack) cs
        (omega (arith, length-drop (length text) stack)))

module _ {W : Type 0} (ed25519_verify : List ℕ → List ℕ → List ℕ → Bool) (mem : Memory) where
  -- vl_verify sees of a text only what it decodes to.
  verify_respelled :
      (cfg : Option Config) (hal : Option (Hal W)) (s t : List ℕ) (out : Option License) (w : W)
      → base32_decode (some s) (some 100) 100 ≡ base32_decode (some t) (some 100) 100
      → verify ed25519_verify mem (some s) cfg hal out w
        ≡ verify ed25519_verify mem (some t) cfg hal out w
  unfolding verify checks decode_step
  verify_respelled none hal s t out w e = refl
  verify_respelled (some cfg) none s t out w e = refl
  verify_respelled (some cfg) (some hal) s t out w e = rw e refl

module _ {W : Type 0} (ed25519_verify : List ℕ → List ℕ → List ℕ → Bool) (mem : Memory)
    (cfg : Option Config) (hal : Option (Hal W)) where
  applied-ok :
      (blob : Option (List ℕ)) (o : LicenseObject W) (r : Status × Option License × W)
      → (applied ed25519_verify mem cfg hal blob true o r).1.status ≡ ok
      → (r.0 ≡ ok)
        × ((applied ed25519_verify mem cfg hal blob true o r).1.blob
            ≡ canonical_loop (text_of blob) [])
  unfolding applied
  applied-ok blob o (ok, lic, w) e = (
    refl,
    ap (λ p. p.blob)
        (persisted_object ed25519_verify mem cfg hal
          (record o { lic = license_of lic; status = ok; blob = canonical_loop (text_of blob) [] })
          (store_blob hal (canonical_loop (text_of blob) []) w)),
  )
  applied-ok blob o (st, lic, w) e = cc

  applied_respelled :
      (s t : List ℕ) (o : LicenseObject W) (r : Status × Option License × W)
      → canonical_loop s [] ≡ canonical_loop t []
      → applied ed25519_verify mem cfg hal (some s) false o r
        ≡ applied ed25519_verify mem cfg hal (some t) false o r
  unfolding applied
  applied_respelled s t o (ok, lic, w) e =
      ap (λ b. (ok, record o { lic = license_of lic; status = ok; blob = b }, w)) e
  applied_respelled s t o (st, lic, w) e = refl

  -- _apply sees of an accepted text only its canonical spelling.
  apply_canonical :
      (s bin : List ℕ) (o : LicenseObject W) (w : W)
      → base32_decode (some s) (some 100) 100 ≡ some bin
      → apply ed25519_verify mem cfg hal (some (canonical_loop s [])) false o w
        ≡ apply ed25519_verify mem cfg hal (some s) false o w
  unfolding apply
  apply_canonical s bin o w run =
      let (encodes, size, back) = canonical_loop_encodes s bin run in
      let (again, size', back') = canonical_loop_encodes (canonical_loop s []) bin back in
      let same : canonical_loop (canonical_loop s []) [] ≡ canonical_loop s [] =
        ap text_of (sym again ∙ encodes) in
      ap (λ r. applied ed25519_verify mem cfg hal (some (canonical_loop s [])) false o r)
        (verify_respelled ed25519_verify mem cfg hal (canonical_loop s []) s (some zero_license) w
          (back ∙ sym run))
      ∙ applied_respelled (canonical_loop s []) s o _ same

  -- A text that activate has put in force decodes, and the object keeps its canonical spelling.
  activated_text :
      (text : List ℕ) (o : LicenseObject W) (w : W)
      → (activate ed25519_verify mem cfg hal (some text) o w).1.status ≡ ok
      → (bin : List ℕ) × (base32_decode (some text) (some 100) 100 ≡ some bin)
        × ((activate ed25519_verify mem cfg hal (some text) o w).1.blob ≡ canonical_loop text [])
  unfolding apply
  activated_text text o w licensed =
      let r = verify ed25519_verify mem (some text) cfg hal (some zero_license) w in
      let (accepted, kept) = applied-ok (some text) o r licensed in
      let (text', c, h, lic, is_text, is_cfg, is_hal, left, d) =
        verify_sound ed25519_verify mem (some text) cfg hal (some zero_license) r.1 w r.2
          (ap (λ st. (st, r.1, r.2)) accepted) in
      (d.bin, rw (ap text_of is_text) d.decodes, kept)

  -- begin with a platform that loads the canonical spelling
  loaded_canonical :
      (text bin stack : List ℕ) (p : LicenseObject W) (v : W)
      → base32_decode (some text) (some 100) 100 ≡ some bin
      → length stack ≡ 161
      → loaded ed25519_verify mem cfg hal stack p (ok, canonical_loop text [], 160, v)
        ≡ apply ed25519_verify mem cfg hal (some text) false p v
  unfolding loaded
  loaded_canonical text bin stack p v run room =
      let (encodes, size, back) = canonical_loop_encodes text bin run in
      ap (λ t. apply ed25519_verify mem cfg hal (some t) false p v)
        (buffer_text (canonical_loop text []) stack (canonical_loop-IsCharacter text bin run) size
          room)
      ∙ apply_canonical text bin p v run

  -- What activate has put in force is what a later boot finds. If activate with a text leaves the
  -- object licensed, and the platform then loads the kept text and its length 160, begin does to any
  -- object exactly what applying the operator's own text again, without storing it, would do.
  pub begin_resumes :
      (text stack : List ℕ) (o p : LicenseObject W) (load : ℕ → W → Status × List ℕ × ℕ × W)
      (w v v' : W)
      → (activate ed25519_verify mem cfg hal (some text) o w).1.status ≡ ok
      → blob_loader hal ≡ some load
      → load 161 v ≡ (ok, (activate ed25519_verify mem cfg hal (some text) o w).1.blob, 160, v')
      → length stack ≡ 161
      → begin ed25519_verify mem cfg hal stack p v
        ≡ apply ed25519_verify mem cfg hal (some text) false p v'
  unfolding begin begin_from
  begin_resumes text stack o p load w v v' licensed loader loads room =
      let (bin, run, kept) = activated_text text o w licensed in
      ap (λ l. begin_from ed25519_verify mem cfg hal l stack p v) loader
      ∙ ap (loaded ed25519_verify mem cfg hal stack p) (loads ∙ ap (λ b. (ok, b, 160, v')) kept)
      ∙ loaded_canonical text bin stack p v' run room
