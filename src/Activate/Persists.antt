-- ===== src/Activate/Persists.antt =====
-- examples/posix/vl_activate.c: an activation is found again by a later run.
use vecti_license.Base.{
  ℕ, suc, ◌<◌, ◌≡◌, ap, ◌∙◌, sym, refl, arith, inl, inr, Bool, false, Bool-cases,
}
use vecti_license.Base.{zero, Option-cases, List, [], ◌∷◌, ◌++◌, length, get_or, All, ltb, ◌==◌}
use mathlib.Core.List.{append_assoc}
use vecti_license.Base.Text.{codes}
use vecti_license.Hash.{write_at}
use vecti_license.Api.{ok}
use vecti_license.Hal.Posix.{Os, PosixCtx}
use vecti_license.Hal.Posix.Text.{is_trimmed}
use vecti_license.Hal.Posix.Segments.{posix_ctx, posix_hal, posix_segment, chosen_iface}
use vecti_license.Hal.Posix.State.{state_path, posix_blob_store}
use vecti_license.Hal.Posix.Stored.{Keeps, posix_blob_store_loads}
use vecti_license.Bridge.{c_string}
use vecti_license.Activate.{
  Format, Stack, from_store, is_quiet, chosen_from, look_up, choose, checked_blob, run,
  activate_main,
}

-- c_string reads back a text that holds no NUL, whatever stands behind its own.
c_string-terminated :
    (text rest : List ℕ) → All (λ c. 0 < c) text → c_string (text ++ 0 ∷ rest) ≡ text
c_string-terminated [] rest h = refl
c_string-terminated (c ∷ text) rest h =
    let visible : (c == 0) ≡ false = ground (arith, h.0) in
    rw (visible, c_string-terminated text rest h.1) refl

-- The state of vl_hal_posix(NULL, "./vl-state")
abbrev pub start_ctx : PosixCtx
start_ctx = record { iface = []; state = codes "./vl-state" }

-- A text that an operator pastes: no NUL in it, and no blank at its end
pub record IsPlain (text : List ℕ) : Type 0 where
  pub visible : All (λ c. 0 < c) text
  pub last : ℕ
  pub size : length text ≡ suc last
  pub ends : is_trimmed (get_or text last 0) ≡ false

same_store :
    {W : Type 0} (os : Os W) (c d : PosixCtx) (text : List ℕ) (w : W)
    → c.state ≡ d.state
    → posix_blob_store os d text w ≡ posix_blob_store os c text w
unfolding posix_blob_store state_path
same_store os c d text w e =
    ap (λ (s : List ℕ). posix_blob_store os (record { iface = []; state = s }) text w) (sym e)

store_short :
    {W : Type 0} (os : Os W) (c : PosixCtx) (text : List ℕ) (w w' : W)
    → posix_blob_store os c text w ≡ (ok, w')
    → length text < 161
unfolding posix_blob_store
store_short os c text w w' e = elim (Bool-cases (ltb 160 (length text))) [
  | inl long ↦ cc (rw (long, posix_blob_store) at e)
  | inr short ↦ ground arith
]

-- What blob_load leaves in `stored`, as a string
loaded_text :
    (text buffer : List ℕ)
    → All (λ c. 0 < c) text
    → c_string (write_at 0 (text ++ 0 ∷ []) buffer) ≡ text
loaded_text text buffer visible =
    ap c_string (append_assoc text (0 ∷ []) _) ∙ c_string-terminated text _ visible

module _ {W : Type 0} where
  -- The path of the state, which read_id_segment leaves alone
  abbrev pub KeepsPath : PosixCtx × W → Type 0
  KeepsPath v = v.0.state ≡ start_ctx.state

  pub segment-keeps :
      (os : Os W) (segment : List ℕ) (idx cap : ℕ) (v : PosixCtx × W)
      → KeepsPath v
      → KeepsPath (posix_segment os segment idx cap v).1
  unfolding posix_segment
  segment-keeps os segment zero cap (c, w) h = elim (Option-cases (chosen_iface os c.iface w)) [
    | inl none_fits ↦ rw (none_fits, posix_segment) h
    | inr (iface, found) ↦ rw (found, posix_segment) h
  ]
  segment-keeps os segment (suc zero) cap (c, w) h = h
  segment-keeps os segment (suc (suc zero)) cap (c, w) h = h
  segment-keeps os segment (suc (suc (suc idx))) cap (c, w) h = h

module _ {W : Type 0} (fmt : Format) (ed25519_verify : List ℕ → List ℕ → List ℕ → Bool) (os : Os W)
    (segment : List ℕ) where
  -- What `vl_activate --status` does when it finds `text`
  abbrev pub rechecked : Stack → List ℕ → List ℕ → W → ℕ × List ℕ × W
  rechecked stack name text w =
      let (code, said, after) =
        checked_blob fmt ed25519_verify stack name (posix_hal os segment)
          (from_store text, (start_ctx, w)) in
      (code, said, after.1)

  pub status_finds :
      (stack : Stack) (name text : List ℕ) (w w' : W) (c : PosixCtx)
      → Keeps os
      → IsPlain text
      → c.state ≡ start_ctx.state
      → posix_blob_store os c text w ≡ (ok, w')
      → activate_main fmt ed25519_verify stack os segment name (codes "--status" ∷ []) w'
        ≡ rechecked stack name text w'
  unfolding activate_main run posix_ctx is_quiet choose look_up chosen_from
  status_finds stack name text w w' c keeps plain same e =
      let stores : posix_blob_store os start_ctx text w ≡ (ok, w') =
        same_store os c start_ctx text w same ∙ e in
      let full : (length text == 0) ≡ false = ground (arith, plain.size) in
      let reads = rw full at (
        posix_blob_store_loads os start_ctx text 161 w w' keeps
          (inr (plain.last, plain.size, plain.ends)) (omega arith) (store_short os c text w w' e)
          stores) in
      rw reads (rw (loaded_text text stack.stored plain.visible) refl)
