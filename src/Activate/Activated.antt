-- ===== src/Activate/Activated.antt =====
-- examples/posix/vl_activate.c: what an activation that ends with the exit code 0 has done.
use vecti_license.Base.{ℕ, ◌≡◌, ◌≢◌, ◌⊎◌, ap, ◌∙◌, sym, refl, inl, inr, Bool, false, arith}
use vecti_license.Base.{Option, some, List, [], ◌∷◌, subst}
use vecti_license.Base.Text.{codes}
use vecti_license.Api.{Status, ok, License, Hal}
use vecti_license.Core.Fingerprint.{compute_fingerprint}
use vecti_license.Core.Fingerprint.World.{compute_fingerprint-keeps}
use vecti_license.Core.Query.{posture}
use vecti_license.Core.Verify.{verify}
use vecti_license.Core.Verify.Accepts.{
  Verified, ClockAccepts, no_reading, window_only, window_and_mark,
}
use vecti_license.Core.Verify.Sound.{verify_sound}
use vecti_license.Hal.Posix.Text.{same_text}
use vecti_license.Hal.Posix.{Os, PosixCtx}
use vecti_license.Hal.Posix.Segments.{posix_ctx, posix_hal, with_ctx_mark}
use vecti_license.Hal.Posix.State.{posix_now_epoch, posix_blob_store}
use vecti_license.Hal.Posix.Stored.{Keeps}
use vecti_license.Activate.{
  Format, activate_config, Stack, argument, is_quiet, id_lines, posture_lines, store_lines, kept,
  choose, banner, judged, checked_blob, run, activate_main,
}
use vecti_license.Activate.Persists.{
  start_ctx, IsPlain, KeepsPath, segment-keeps, rechecked, status_finds,
}

ok-cases : (st : Status) → (st ≡ ok) ⊎ (st ≢ ok)
ok-cases ok = inl refl
ok-cases st = inr (λ e. cc)

id_lines-world : {W : Type 0} (r : Status × Option (List ℕ) × W) → (id_lines r).1 ≡ r.2
unfolding id_lines
id_lines-world (ok, fp, w) = refl
id_lines-world (st, fp, w) = refl

some_injective : {A : Type 0} {a b : A} → some a ≡ some b → a ≡ b
some_injective e = cc

module _ {W : Type 0} (fmt : Format) (ed25519_verify : List ℕ → List ℕ → List ℕ → Bool) (os : Os W)
    (segment : List ℕ) (stack : Stack) (name : List ℕ) where
  banner-KeepsPath :
      (v : PosixCtx × W)
      → KeepsPath v
      → KeepsPath (banner fmt ed25519_verify stack name (posix_hal os segment) v).1
  unfolding banner posture_lines posture
  banner-KeepsPath v h =
      let r =
        compute_fingerprint stack.mem.hash (some (posix_hal os segment))
          (some stack.mem.fingerprint) v in
      subst KeepsPath (sym (id_lines-world r)) (
        compute_fingerprint-keeps KeepsPath stack.mem.hash (posix_hal os segment) _
          stack.mem.fingerprint v refl (segment-keeps os segment) h)

  -- What an accepted licence does to the path of the state: nothing
  Verified-KeepsPath :
      (text : List ℕ) (lic : License) (v v' : PosixCtx × W)
      → KeepsPath v
      → Verified ed25519_verify stack.mem text activate_config (posix_hal os segment) lic v v'
      → KeepsPath v'
  Verified-KeepsPath text lic v v' h accepted = timed accepted.current (
      subst KeepsPath
        (ap (λ (r : Status × Option (List ℕ) × (PosixCtx × W)). r.2) accepted.computes)
        (compute_fingerprint-keeps KeepsPath stack.mem.hash (posix_hal os segment) _
          stack.mem.fingerprint v refl (segment-keeps os segment) h))
    where
      timed :
          {lic lic' : License} {w w' : PosixCtx × W}
          → ClockAccepts activate_config (posix_hal os segment) lic lic' w w'
          → KeepsPath w
          → KeepsPath w'
      timed (no_reading absent loose same ends) k = cc
      timed {w = w} (window_only read now there reads window loose same) k =
          let is : with_ctx_mark os (posix_now_epoch os) ≡ read = some_injective there in
          subst KeepsPath (ap (λ (r : Status × ℕ × (PosixCtx × W)). r.2) reads)
            (subst (λ (f : PosixCtx × W → Status × ℕ × (PosixCtx × W)). KeepsPath (f w).2) is k)
      timed (window_and_mark read now v there reads window enforced accepts same) k =
          absurd (enforced refl)

  judged-zero :
      (h : Hal (PosixCtx × W)) (text : List ℕ) (got : Status × Option License × (PosixCtx × W))
      → (judged fmt ed25519_verify stack name h (argument text) got).0 ≡ 0
      → (got.0 ≡ ok)
        × ((judged fmt ed25519_verify stack name h (argument text) got).2
            ≡ (kept h.blob_store text got.2).1)
  unfolding judged
  judged-zero h text (ok, lic, w) e = (refl, refl)
  judged-zero h text (st, lic, w) e = absurd (omega arith)

  kept-world :
      (text : List ℕ) (v : PosixCtx × W)
      → (kept (posix_hal os segment).blob_store text v).1.1 ≡ (posix_blob_store os v.0 text v.1).1
  unfolding kept store_lines
  kept-world text v = go (posix_blob_store os v.0 text v.1)
    where
      go : (r : Status × W) → (store_lines {W = PosixCtx × W} (r.0, (v.0, r.1))).1.1 ≡ r.1
      go (ok, w) = refl
      go (st, w) = refl

-- What an activation of `text` has done: vl_verify has accepted it between `before` and `after`, and
-- then the platform has refused to keep it, or `--status` finds it in every later run.
pub data Kept {W : Type 0} (fmt : Format) (ed25519_verify : List ℕ → List ℕ → List ℕ → Bool)
    (os : Os W) (segment text : List ℕ) (after : PosixCtx × W) (w' : W) : Type 0 where
  refused :
      (st : Status)
      → st ≢ ok
      → posix_blob_store os after.0 text after.1 ≡ (st, w')
      → Kept fmt ed25519_verify os segment text after w'
  found :
      posix_blob_store os after.0 text after.1 ≡ (ok, w')
      → ((stack : Stack) (name : List ℕ)
          → activate_main fmt ed25519_verify stack os segment name (codes "--status" ∷ []) w'
            ≡ rechecked fmt ed25519_verify os segment stack name text w')
      → Kept fmt ed25519_verify os segment text after w'

pub record Activated {W : Type 0} (fmt : Format) (ed25519_verify : List ℕ → List ℕ → List ℕ → Bool)
    (os : Os W) (segment : List ℕ) (stack : Stack) (text : List ℕ) (w' : W) : Type 0 where
  pub before : PosixCtx × W
  pub after : PosixCtx × W
  pub lic : License
  pub accepted :
      Verified ed25519_verify stack.mem text activate_config (posix_hal os segment) lic before after
  pub kept : Kept fmt ed25519_verify os segment text after w'

module _ {W : Type 0} (fmt : Format) (ed25519_verify : List ℕ → List ℕ → List ℕ → Bool) (os : Os W)
    (segment : List ℕ) (stack : Stack) (name : List ℕ) where
  Kept-store :
      (text : List ℕ) (after : PosixCtx × W)
      → Keeps os
      → IsPlain text
      → KeepsPath after
      → Kept fmt ed25519_verify os segment text after (posix_blob_store os after.0 text after.1).1
  Kept-store text after keeps plain path =
      let r = posix_blob_store os after.0 text after.1 in
      elim (ok-cases r.0) [
        | inr bad ↦ refused r.0 bad refl
        | inl good ↦
            let stores : r ≡ (ok, r.1) = ap (λ st. (st, r.1)) good in
            found stores (λ stack' name'.
              status_finds fmt ed25519_verify os segment stack' name' text after.1 r.1 after.0 keeps
                plain path stores)
      ]

  -- main with one argument that is not "--status", on the Linux platform
  activate_argument :
      (text : List ℕ) (w : W)
      → same_text text (codes "--status") ≡ false
      → (let v = (banner fmt ed25519_verify stack name (posix_hal os segment) (start_ctx, w)).1 in
          let r = judged fmt ed25519_verify stack name (posix_hal os segment) (argument text) (
            verify ed25519_verify stack.mem
              (some text)
              (some activate_config)
              (some (posix_hal os segment))
              (some stack.lic)
              v) in
          ((activate_main fmt ed25519_verify stack os segment name (text ∷ []) w).0 ≡ r.0)
          × ((activate_main fmt ed25519_verify stack os segment name (text ∷ []) w).2 ≡ r.2.1))
  unfolding activate_main run posix_ctx is_quiet choose checked_blob
  activate_argument text w other = (rw other refl, rw (other, activate_main) refl)

  accepted_text :
      (text : List ℕ) (v : PosixCtx × W) (got : Status × Option License × (PosixCtx × W))
      → verify ed25519_verify stack.mem
          (some text)
          (some activate_config)
          (some (posix_hal os segment))
          (some stack.lic)
          v
        ≡ got
      → got.0 ≡ ok
      → (lic : License) × Verified ed25519_verify stack.mem text activate_config
          (posix_hal os segment)
          lic
          v
          got.2
  accepted_text text v got run good =
      let (text', cfg', hal', lic, e, f, g, left, checked) =
        verify_sound ed25519_verify stack.mem (some text) (some activate_config)
          (some (posix_hal os segment)) (some stack.lic) got.1 v got.2
          (run ∙ ap (λ st. (st, got.1, got.2)) good) in
      let same_blob : text' ≡ text = some_injective (sym e) in
      let same_cfg : cfg' ≡ activate_config = some_injective (sym f) in
      let same_hal : hal' ≡ posix_hal os segment = some_injective (sym g) in
      (
        lic,
        subst
            (λ t.
              Verified ed25519_verify stack.mem t activate_config (posix_hal os segment) lic v
                got.2)
            same_blob
            (subst
              (λ c. Verified ed25519_verify stack.mem text' c (posix_hal os segment) lic v got.2)
              same_cfg
              (subst (λ h. Verified ed25519_verify stack.mem text' cfg' h lic v got.2) same_hal
                checked)),
      )

  -- On Linux, where a file that has been written whole and closed reads as what was written: if
  -- `vl_activate <text>` ends with the exit code 0, the text having no NUL, no blank at its end and
  -- not being "--status", then vl_verify has accepted the text under CFG; and afterwards either
  -- blob_store has failed, or every later `vl_activate --status` verifies exactly this text and
  -- nothing else.
  pub activation_persists :
      (text : List ℕ) (w : W)
      → Keeps os
      → IsPlain text
      → same_text text (codes "--status") ≡ false
      → (activate_main fmt ed25519_verify stack os segment name (text ∷ []) w).0 ≡ 0
      → Activated fmt ed25519_verify os segment stack text
          (activate_main fmt ed25519_verify stack os segment name (text ∷ []) w).2
  activation_persists text w keeps plain other code =
      let v = (banner fmt ed25519_verify stack name (posix_hal os segment) (start_ctx, w)).1 in
      let got =
        verify ed25519_verify stack.mem (some text) (some activate_config)
          (some (posix_hal os segment)) (some stack.lic) v in
      let (exits, ends) = activate_argument text w other in
      let (good, keeps_last) =
        judged-zero fmt ed25519_verify os segment stack name (posix_hal os segment) text got
          (sym exits ∙ code) in
      let (lic, accepted) = accepted_text text v got refl good in
      let path =
        Verified-KeepsPath fmt ed25519_verify os segment stack name text lic v got.2
          (banner-KeepsPath fmt ed25519_verify os segment stack name (start_ctx, w) refl)
          accepted in
      let last : (posix_blob_store os got.2.0 text got.2.1).1
          ≡ (activate_main fmt ed25519_verify stack os segment name (text ∷ []) w).2 =
        sym (
          ends
          ∙ ap (λ (u : PosixCtx × W). u.1) keeps_last
          ∙ kept-world fmt ed25519_verify os segment stack name text got.2) in
      record {
        before = v;
        after = got.2;
        lic = lic;
        accepted = accepted;
        kept =
            subst (Kept fmt ed25519_verify os segment text got.2) last
              (Kept-store text got.2 keeps plain path);
      }
