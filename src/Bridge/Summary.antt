-- ===== src/Bridge/Summary.antt =====
-- bridge/vl_bridge.h: statusText and licenseSummary.
use vecti_license.Base.{
  ℕ, ◌+◌, ◌<◌, ◌≤◌, ◌≡◌, refl, ◌∙◌, arith, inl, inr, Bool, true, false, Bool-cases, ◌&&◌,
  if◌then◌else◌, ltb, List, [], ◌∷◌, ◌++◌, length, length-append,
}
use vecti_license.Base.Text.{codes, copy_text, copy_text-fits, copy_text-whole}
use vecti_license.Api.{Status, ok}
use vecti_license.Core.Messages.{status_str}
use vecti_license.Bridge.{LicenseObject, is_ok}
use mathlib.Core.List.{append_assoc}

-- `*why`: whether the text has a character
abbrev pub is_text : List ℕ → Bool
is_text [] = false
is_text (c ∷ text) = true

-- The copy of `why` in parentheses, after what `out` holds
unfoldable pub append_why : ℕ → List ℕ → List ℕ → List ℕ
append_why cap why out =
    if is_text why && ltb (length out + 3) cap
    then copy_text 2 cap why (out ++ codes " (") ++ codes ")"
    else out

module _ {W : Type 0} where
  -- statusText()
  abbrev pub status_text : LicenseObject W → List ℕ
  status_text o = status_str o.status

  abbrev pub state_text : LicenseObject W → List ℕ
  state_text o = if is_ok o then codes "licensed" else codes "not licensed"

  abbrev pub why_text : LicenseObject W → List ℕ
  why_text o = if is_ok o then [] else status_text o

  -- licenseSummary(lic, out, cap) with an `out` that is not NULL and a `cap` that is not 0: the text
  -- before the NUL that it writes
  unfoldable pub license_summary : LicenseObject W → ℕ → List ℕ
  license_summary o cap = append_why cap (why_text o) (copy_text 1 cap (state_text o) [])

append_why-fits :
    (cap : ℕ) (why out : List ℕ) → length out < cap → length (append_why cap why out) < cap
unfolding append_why
append_why-fits cap why out h = elim (Bool-cases (is_text why && ltb (length out + 3) cap)) [
  | inr e ↦ rw e h
  | inl e ↦
      let room : length out + 3 < cap = and-right (is_text why) e in
      let start = length-append out (codes " (") in
      let copied = copy_text-fits 2 cap why (out ++ codes " (") (omega arith) in
      rw e
        (omega (arith, length-append (copy_text 2 cap why (out ++ codes " (")) (codes ")"), copied))
]
  where
    and-right : (b : Bool) → (b && ltb (length out + 3) cap) ≡ true → length out + 3 < cap
    and-right true f = ground arith
    and-right false f = cc

append_why-whole :
    (cap c : ℕ) (why out : List ℕ)
    → length out + length why + 4 < cap
    → append_why cap (c ∷ why) out ≡ out ++ (codes " (" ++ ((c ∷ why) ++ codes ")"))
unfolding append_why
append_why-whole cap c why out h =
    let room : ltb (length out + 3) cap ≡ true = ground arith in
    let start = length-append out (codes " (") in
    let copied = copy_text-whole 2 cap (c ∷ why) (out ++ codes " (") (omega arith) in
    rw (room, copied)
      (append_assoc (out ++ codes " (") (c ∷ why) (codes ")")
        ∙ append_assoc out (codes " (") ((c ∷ why) ++ codes ")"))

-- Every message is a text of at most 47 characters.
message_lem :
    (st : Status) → (c : ℕ) × (why : List ℕ) × (status_str st ≡ c ∷ why) × (length why ≤ 46)
unfolding status_str
message_lem ok = (_, _, refl, omega arith)
message_lem st = (_, _, refl, omega arith)

licensed_whole :
    (cap : ℕ)
    → 64 ≤ cap
    → append_why cap [] (copy_text 1 cap (codes "licensed") []) ≡ codes "licensed"
unfolding append_why
licensed_whole cap room = copy_text-whole 1 cap (codes "licensed") [] (omega (arith, room))

not_licensed_whole :
    (st : Status) (cap : ℕ)
    → 64 ≤ cap
    → append_why cap (status_str st) (copy_text 1 cap (codes "not licensed") [])
      ≡ codes "not licensed (" ++ (status_str st ++ codes ")")
not_licensed_whole st cap room =
    let (c, why, is, short) = message_lem st in
    let state = copy_text-whole 1 cap (codes "not licensed") [] (omega (arith, room)) in
    rw (state, is) (append_why-whole cap c why (codes "not licensed") (omega (arith, room, short)))

module _ {W : Type 0} where
  -- Into a buffer of `cap` characters, not 0, licenseSummary writes a text shorter than `cap`, so that
  -- its NUL is inside; and one that is long enough holds the whole of it: "licensed", or "not licensed"
  -- with the message of the status in parentheses.
  pub license_summary-fits :
      (o : LicenseObject W) (cap : ℕ)
      → 0 < cap
      → (length (license_summary o cap) < cap)
        × (64 ≤ cap
            → license_summary o cap ≡ (
                if is_ok o
                then codes "licensed"
                else codes "not licensed (" ++ (status_str o.status ++ codes ")")))
  unfolding license_summary
  license_summary-fits o cap h =
      let copied = copy_text-fits 1 cap (state_text o) [] (omega arith) in
      (
        append_why-fits cap (why_text o) (copy_text 1 cap (state_text o) [])
            (omega (arith, copied)),
        λ room. elim (Bool-cases (is_ok o)) [
          | inl e ↦ rw e (licensed_whole cap room)
          | inr e ↦ rw e (not_licensed_whole o.status cap room)
        ],
      )
