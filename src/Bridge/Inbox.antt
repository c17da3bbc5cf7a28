-- ===== src/Bridge/Inbox.antt =====
-- bridge/vl_bridge.h: submit and pump, the inbox between two tasks.
use vecti_license.Base.{
  ℕ, ◌<◌, ◌≡◌, ◌≢◌, inl, inr, refl, ap, arith, Bool, true, false, Bool-cases, Option, none, some,
}
use vecti_license.Base.{
  List, [], ◌∷◌, ◌++◌, All, length, take, drop, set, replicate, leb, ◌==◌, ◌||◌, length-drop,
  take_all,
}
use vecti_license.Hash.{write_at}
use vecti_license.Api.{Hal, Config}
use vecti_license.Core.Verify.Steps.{Memory}
use native.Mathlib.Nat.{zero-add}
use vecti_license.Bridge.{
  LicenseObject, c_string, bridge_blob_max, submit, submit_if, activate, pumped, pump_if, pump,
  notify,
}

-- No NUL among the characters of a text
abbrev pub IsCharacter : ℕ → Type 0
IsCharacter c = c ≢ 0

pub c_string-set :
    (text rest : List ℕ)
    → All IsCharacter text
    → 0 < length rest
    → c_string (set (text ++ rest) (length text) 0) ≡ text
c_string-set [] [] cs h = absurd (omega arith)
c_string-set [] (r ∷ rest) cs h = refl
c_string-set (c ∷ text) rest cs h =
    let is_char = cs.0 in
    let keep : (c == 0) ≡ false = ground arith in
    rw keep (ap (λ t. c ∷ t) (c_string-set text rest cs.1 h))

-- The text that is read from the inbox is the one that was copied in.
inbox_text :
    (text pending : List ℕ)
    → All IsCharacter text
    → length text < length pending
    → c_string (set (write_at 0 (take (length text) text) pending) (length text) 0) ≡ text
inbox_text text pending cs h =
    rw (take_all (length text) text (omega arith), zero-add (length text))
      (c_string-set text (drop (length text) pending) cs
        (omega (arith, length-drop (length text) pending)))

module _ {W : Type 0} where
  full :
      (o : LicenseObject W)
      → o.pending_flag ≡ true
      → (other : Option (List ℕ)) (n : ℕ) → submit other n o ≡ (false, o)
  unfolding submit submit_if
  full o busy none n = refl
  full o busy (some blob) n = elim (Bool-cases (n == 0 || leb bridge_blob_max n)) [
    | inl e ↦ rw e refl
    | inr e ↦ rw e (ap (λ b. submit_if b blob n o) busy)
  ]

module _ {W : Type 0} (ed25519_verify : List ℕ → List ℕ → List ℕ → Bool) (mem : Memory)
    (cfg : Option Config) (hal : Option (Hal W)) where
  -- A text of 1 to 223 characters that is submitted to an empty inbox is accepted; until pump has run,
  -- every other submission is refused and changes nothing; and pump activates exactly that text, tells
  -- the callback its result, and leaves the inbox zero and free.
  pub submit_then_pump :
      (text : List ℕ) (o : LicenseObject W) (w : W)
      → All IsCharacter text
      → 0 < length text
      → length text < bridge_blob_max
      → o.pending_flag ≡ false
      → length o.pending ≡ bridge_blob_max
      → (o1 : LicenseObject W) × (submit (some text) (length text) o ≡ (true, o1))
        × ((other : Option (List ℕ)) (n : ℕ) → submit other n o1 ≡ (false, o1))
        × (pump ed25519_verify mem cfg hal o1 w ≡ (
            let (st, o2, w') = activate ed25519_verify mem cfg hal (some text) o1 w in
            (
              true,
              record o2 { pending = replicate bridge_blob_max 0; pending_flag = false },
              notify o2.on_result st w',
            )))
  unfolding submit submit_if pump pump_if pumped
  submit_then_pump text o w cs some_text short free sized =
      let o1 : LicenseObject W = record o {
        pending = set (write_at 0 (take (length text) text) o.pending) (length text) 0;
        pending_flag = true;
      } in
      let sizes : (length text == 0 || leb bridge_blob_max (length text)) ≡ false = ground arith in
      (
        o1,
        rw sizes (ap (λ b. submit_if b text (length text) o) free),
        full o1 refl,
        ap
            (λ t.
              pumped ed25519_verify mem cfg hal (activate ed25519_verify mem cfg hal (some t) o1 w))
            (inbox_text text o.pending cs (omega arith)),
      )
