-- ===== src/Core/Verify/Complete/Clock.antt =====
-- core/vl_core.c: the clock step of vl_verify accepts what the specification accepts.
use vecti_license.Base.{ℕ, ◌==◌, ◌!=◌, ◌&&◌, ◌≡◌, ◌≢◌, inl, inr, refl, sym, ap, ◌∙◌, true, false}
use vecti_license.Base.{none, some, ltb, arith, bit_and}
use vecti_license.Base.{Option-cases, ==_iff}
use vecti_license.Api.{Status, no_clock, Hal, Config, License}
use vecti_license.Api.{flag_require_clock, flag_enforce_hwm}
use vecti_license.Core.Verify.Monad.{Outcome, pass, require}
use vecti_license.Core.Verify.Steps.{mark_stored, compare_mark, check_window, clock_step}
use vecti_license.Core.Verify.Steps.{load_mark, store_mark}
use vecti_license.Core.Verify.Accepts.{InWindow, MarkAccepts, at_mark, past_mark, ClockAccepts}
use vecti_license.Core.Verify.Accepts.{no_reading, window_only, window_and_mark}

pub same_test : (a b : ℕ) → a ≡ b → (a != b) ≡ false
same_test a b e = ground arith

pub differ_test : (a b : ℕ) → a ≢ b → (a != b) ≡ true
differ_test a b ne = ground arith

begun_test :
    (lic : License) (now : ℕ)
    → InWindow lic now
    → ((lic.not_before != 0 && ltb now lic.not_before) ≡ false)
      × ((lic.not_after != 0 && ltb lic.not_after now) ≡ false)
begun_test lic now h = (ground arith, ground arith)

module _ {W : Type 0} where
  compare_mark-accepts :
      (hal : Hal W) (now : ℕ) (lic : License) (v w' : W)
      → MarkAccepts hal now v w'
      → compare_mark hal now lic (load_mark hal.hwm_load v) ≡ (pass lic, w')
  unfolding compare_mark mark_stored
  compare_mark-accepts hal now lic v w' (at_mark load there reads) =
      let level : ltb now now ≡ false = ground arith in
      rw (there, load_mark, reads, compare_mark, level) refl
  compare_mark-accepts hal now lic v w' (past_mark load store mark u there is reads past stores) =
      let fresh : ltb now mark ≡ false = ground arith in
      let behind : ltb mark now ≡ true = ground arith in
      rw (there, load_mark, reads, compare_mark, fresh, behind, is, store_mark, stores, mark_stored)
        refl

  check_window-accepts :
      (cfg : Config) (hal : Hal W) (lic lic' : License) (read : W → Status × ℕ × W) (w w' : W)
      → hal.now_epoch ≡ some read
      → ClockAccepts cfg hal lic lic' w w'
      → check_window cfg hal lic (read w) ≡ (pass lic', w')
  unfolding check_window
  check_window-accepts cfg hal lic lic' read w w' there (no_reading absent loose same ends) = cc
  check_window-accepts cfg hal lic lic' read w w' there
        (window_only read' now there' reads window loose same) =
      let same_read : read ≡ read' = cc in
      let (begun, ended) = begun_test lic now window in
      rw
        (
          same_read,
          reads,
          check_window,
          begun,
          ended,
          same_test (bit_and cfg.flags flag_enforce_hwm) 0 loose,
          same,
        )
        refl
  check_window-accepts cfg hal lic lic' read w w' there
        (window_and_mark read' now v there' reads window enforced accepts same) =
      let same_read : read ≡ read' = cc in
      let (begun, ended) = begun_test lic now window in
      rw
        (
          same_read,
          reads,
          check_window,
          begun,
          ended,
          differ_test (bit_and cfg.flags flag_enforce_hwm) 0 enforced,
        )
        (compare_mark-accepts hal now _ v w' accepts ∙ ap (λ l. (pass l, w')) (sym same))

  pub clock_step-accepts :
      (cfg : Config) (hal : Hal W) (lic lic' : License) (w w' : W)
      → ClockAccepts cfg hal lic lic' w w'
      → clock_step cfg hal lic w ≡ (pass lic', w')
  unfolding clock_step
  clock_step-accepts cfg hal lic lic' w w' h = elim (Option-cases hal.now_epoch) [
    | inl missing ↦ rw (missing, clock_step) (no_clock-accepts missing h)
    | inr (read, there) ↦
        rw (there, clock_step) (check_window-accepts cfg hal lic lic' read w w' there h)
  ]
    where
      no_clock-accepts :
          hal.now_epoch ≡ none
          → ClockAccepts cfg hal lic lic' w w'
          → ◌≡◌ {A = Outcome License × W}
              (require (bit_and cfg.flags flag_require_clock == 0) no_clock lic, w)
              (pass lic', w')
      no_clock-accepts missing (no_reading absent loose same ends) =
          rw ((==_iff (bit_and cfg.flags flag_require_clock) 0).1 loose, same, ends) refl
      no_clock-accepts missing (window_only read now there reads window loose same) = cc
      no_clock-accepts missing (window_and_mark read now v there reads window hard accepts same) =
          cc
