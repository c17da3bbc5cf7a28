-- ===== src/Core/Verify/Current.antt =====
-- core/vl_core.c: what the steps of vl_verify that call the platform have established when they pass.
use vecti_license.Base.{
  ℕ, ◌!=◌, ◌&&◌, ◌≡◌, ◌≢◌, ◌⊎◌, inl, inr, refl, sym, ap, ◌∙◌, Bool, true, false, Option, none, some,
  List,
}
use vecti_license.Base.{ltb, if◌then◌else◌, Option-cases, arith, bit_and}
use vecti_license.Util.{ct_eq}
use vecti_license.Api.{
  ok, Status, Hal, Config, License, device_id_len, device_mismatch, no_clock, platform,
}
use vecti_license.Api.{clock_rollback}
use vecti_license.Api.{checked_device, checked_time, checked_hwm, flag_enforce_hwm}
use vecti_license.Core.Fingerprint.{compute_fingerprint}
use vecti_license.Core.Verify.Monad.{Outcome, pass, fail, require-pass}
use vecti_license.Core.Verify.Steps.{
  Memory, mark_checked, compare_device, device_step, mark_stored, compare_mark,
}
use vecti_license.Core.Verify.Steps.{check_window, clock_step, load_mark, store_mark}
use vecti_license.Core.Verify.Accepts.{InWindow, MarkAccepts, at_mark, past_mark, ClockAccepts}
use vecti_license.Core.Verify.Accepts.{no_reading, window_only, window_and_mark}
use vecti_license.Core.Verify.Inversion.{guard_world-pass}

open_end :
    (lic : License) (now : ℕ)
    → (lic.not_before != 0 && ltb now lic.not_before) ≡ false
    → (lic.not_after != 0 && ltb lic.not_after now) ≡ false
    → InWindow lic now
open_end lic now h h' = (ground arith, ground arith)

if-cases :
    {A : Type 0} (b : Bool) (x y : A) {r : A}
    → (if b then x else y) ≡ r
    → ((b ≡ true) × (x ≡ r)) ⊎ ((b ≡ false) × (y ≡ r))
if-cases true x y h = inl (refl, h)
if-cases false x y h = inr (refl, h)

module _ {W : Type 0} where
  failed-pass :
      {A : Type 0} {s : Status} {a : A} {w w' : W}
      → ◌≡◌ {A = Outcome A × W} (fail s, w) (pass a, w')
      → ⊥
  failed-pass {s = s} {a = a} h = clash (ap (λ r. r.0) h)
    where
      clash : fail s ≡ pass a → ⊥
      clash e = cc

  passed :
      {A : Type 0} {a b : A} {w w' : W}
      → ◌≡◌ {A = Outcome A × W} (pass a, w) (pass b, w')
      → (a ≡ b) × (w ≡ w')
  passed {a = a} {b = b} h = (same (ap (λ r. r.0) h), ap (λ r. r.1) h)
    where
      same : pass a ≡ pass b → a ≡ b
      same e = cc

  compare_device-pass :
      (lic lic' : License) (got : Status × Option (List ℕ) × W) (w' : W)
      → compare_device lic got ≡ (pass lic', w')
      → (fp : Option (List ℕ)) × (got ≡ (ok, fp, w'))
        × (ct_eq fp (some lic.device_id) device_id_len ≢ 0)
        × (lic' ≡ mark_checked checked_device lic)
  unfolding compare_device
  compare_device-pass lic lic' (ok, fp, w) w' h =
      let (equal, same) = require-pass _ device_mismatch _ lic' (ap (λ r. r.0) h) in
      (fp, ap (λ v. (ok, fp, v)) (ap (λ r. r.1) h), ground arith, sym same)
  compare_device-pass lic lic' (st, fp, w) w' h = absurd (failed-pass h)

  pub device_step-pass :
      (mem : Memory) (hal : Hal W) (lic lic' : License) (w w' : W)
      → device_step mem hal lic w ≡ (pass lic', w')
      → (fp : Option (List ℕ)) × (compute_fingerprint mem.hash (some hal) (some mem.fingerprint) w
          ≡ (ok, fp, w'))
        × (ct_eq fp (some lic.device_id) device_id_len ≢ 0)
        × (lic' ≡ mark_checked checked_device lic)
  unfolding device_step
  device_step-pass mem hal lic lic' w w' h = compare_device-pass lic lic' _ w' h

  mark_stored-pass :
      (lic lic' : License) (got : Status × W) (w' : W)
      → mark_stored lic got ≡ (pass lic', w')
      → (got ≡ (ok, w')) × (lic' ≡ lic)
  unfolding mark_stored
  mark_stored-pass lic lic' (ok, w) w' h = let (e, f) = passed h in (ap (λ v. (ok, v)) f, sym e)
  mark_stored-pass lic lic' (st, w) w' h = absurd (failed-pass h)

  load-ok :
      (load : Option (W → Status × ℕ × W)) {w v : W} {n : ℕ}
      → load_mark load w ≡ (ok, n, v)
      → (f : W → Status × ℕ × W) × (load ≡ some f) × (f w ≡ (ok, n, v))
  load-ok none h = let e = ap (λ r. r.0) h in absurd (clash e)
    where
      clash : platform ≡ ok → ⊥
      clash e = cc
  load-ok (some f) h = (f, refl, h)

  store-ok :
      (store : Option (ℕ → W → Status × W)) {now : ℕ} {w v : W}
      → store_mark store now w ≡ (ok, v)
      → (f : ℕ → W → Status × W) × (store ≡ some f) × (f now w ≡ (ok, v))
  store-ok none h = absurd (clash (ap (λ r. r.0) h))
    where
      clash : platform ≡ ok → ⊥
      clash e = cc
  store-ok (some f) h = (f, refl, h)

  compare_mark-pass :
      (hal : Hal W) (now : ℕ) (lic lic' : License) (w w' : W) (got : Status × ℕ × W)
      → load_mark hal.hwm_load w ≡ got
      → compare_mark hal now lic got ≡ (pass lic', w')
      → MarkAccepts hal now w w' × (lic' ≡ lic)
  unfolding compare_mark
  compare_mark-pass hal now lic lic' w w' (ok, mark, v) loaded h =
      let (load, there, reads) = load-ok hal.hwm_load loaded in
      let h1 =
        guard_world-pass (ltb now mark) clock_rollback v
          (if ltb mark now then mark_stored lic (store_mark hal.hwm_store now v) else (pass lic, v))
          lic' w' h in
      let ahead = h1.0 in
      elim (if-cases (ltb mark now) (mark_stored lic (store_mark hal.hwm_store now v)) (pass lic, v)
        h1.1) [
          | inl (past, h2) ↦
              let (store, same) = mark_stored-pass lic lic' _ w' h2 in
              let (f, is, runs) = store-ok hal.hwm_store store in
              (past_mark load f mark v there is reads (ground arith) runs, same)
          | inr (near, h2) ↦
              let (same, ends) = passed h2 in
              let level : mark ≡ now = ground arith in
              (
                at_mark load there
                    (reads ∙ ap (λ n. (ok, n, v)) level ∙ ap (λ v. (ok, now, v)) ends),
                sym same,
              )
        ]
  compare_mark-pass hal now lic lic' w w' (st, mark, v) loaded h = absurd (failed-pass h)

  check_window-pass :
      (cfg : Config) (hal : Hal W) (lic lic' : License) (read : W → Status × ℕ × W) (w w' : W)
      (got : Status × ℕ × W)
      → hal.now_epoch ≡ some read
      → read w ≡ got
      → check_window cfg hal lic got ≡ (pass lic', w')
      → ClockAccepts cfg hal lic lic' w w'
  unfolding check_window
  check_window-pass cfg hal lic lic' read w w' (ok, now, v) there reads h =
      let (begun, h1) = guard_world-pass _ _ _ _ _ _ h in
      let (ended, h2) = guard_world-pass _ _ _ _ _ _ h1 in
      let timed = mark_checked checked_time lic in
      let window = open_end lic now begun ended in
      elim (if-cases (bit_and cfg.flags flag_enforce_hwm != 0)
        (compare_mark hal now (mark_checked checked_hwm timed) (load_mark hal.hwm_load v))
        (pass timed, v) h2) [
          | inl (enforced, h3) ↦
              let (accepts, same) = compare_mark-pass hal now _ lic' v w' _ refl h3 in
              window_and_mark read now v there reads window (ground arith) accepts same
          | inr (loose, h3) ↦
              let (same, ends) = passed h3 in
              window_only read now there (reads ∙ ap (λ v. (ok, now, v)) ends) window (ground arith)
                (sym same)
        ]
  check_window-pass cfg hal lic lic' read w w' (st, now, v) there reads h = absurd (failed-pass h)

  pub clock_step-pass :
      (cfg : Config) (hal : Hal W) (lic lic' : License) (w w' : W)
      → clock_step cfg hal lic w ≡ (pass lic', w')
      → ClockAccepts cfg hal lic lic' w w'
  unfolding clock_step
  clock_step-pass cfg hal lic lic' w w' h = elim (Option-cases hal.now_epoch) [
    | inl missing ↦
        let h' = rw (missing, clock_step) at h in
        let (absent, same) = require-pass _ no_clock lic lic' (ap (λ r. r.0) h') in
        no_reading missing (ground arith) (sym same) (sym (ap (λ r. r.1) h'))
    | inr (read, there) ↦
        check_window-pass cfg hal lic lic' read w w' _ there refl (rw (there, clock_step) at h)
  ]
