-- ===== src/Hal/Posix/Interfaces.antt =====
-- hal/posix/vl_hal_posix.c: the network interface whose address identifies a Linux machine.
use vecti_license.Base.{ℕ, ◌≤◌, ◌<◌, ◌≡◌, refl, ◌∙◌, arith, inl, inr, ◌⊎◌, Bool-cases}
use vecti_license.Base.{Bool, true, false, Option, none, some, List, [], ◌∷◌, ◌++◌}
use vecti_license.Base.{ltb, leb, ◌!=◌, ◌&&◌, ◌||◌, if◌then◌else◌, length, length-take, take}
use mathlib.Core.List.{Memᴰ}
use mathlib.Core.List.Memᴰ.{head, tail, cases_cons}
use vecti_license.Hal.Posix.{Os}
use vecti_license.Base.Text.{codes}
use vecti_license.Hal.Posix.Text.{starts_with, same_text, read_text_file}

-- The loop of mac_is_meaningful
unfoldable pub mac_is_meaningful : List ℕ → Bool
mac_is_meaningful [] = false
mac_is_meaningful (c ∷ s) =
    let rest = mac_is_meaningful s in if c != b'0' && c != b':' then true else rest

-- snprintf(path, 256, "/sys/class/net/%s/address", iface)
abbrev pub mac_path : List ℕ → List ℕ
mac_path iface = codes "/sys/class/net/" ++ (iface ++ codes "/address")

-- The names that pick_iface skips without looking at their addresses
unfoldable pub is_skipped : List ℕ → Bool
is_skipped n =
    starts_with (codes ".") n
    || (same_text n (codes "lo")
        || (starts_with (codes "docker") n
            || (starts_with (codes "br-") n
                || (starts_with (codes "veth") n || starts_with (codes "virbr") n))))

unfoldable pub iface_score : List ℕ → ℕ
iface_score n =
    if starts_with (codes "eth") n
    then 100
    else if starts_with (codes "en") n
    then 90
    else if starts_with (codes "wlan") n
    then 50
    else if starts_with (codes "wlp") n
    then 50
    else 1

-- if (score > best_score) { ... }; `none` is a best_score of -1, and best[64] keeps 63 characters.
unfoldable pub better : ℕ → List ℕ → Option (ℕ × List ℕ) → Option (ℕ × List ℕ)
better score n none = some (score, take 63 n)
better score n (some (best_score, best)) =
    if ltb best_score score then some (score, take 63 n) else some (best_score, best)

module _ {W : Type 0} (os : Os W) where
  -- read_iface_mac, `none` for -1
  unfoldable pub read_iface_mac : List ℕ → ℕ → W → Option (List ℕ)
  read_iface_mac iface cap w =
      if leb 256 (length (mac_path iface)) then none else read_text_file os (mac_path iface) cap w

  unfoldable pub has_mac : Option (List ℕ) → Bool
  has_mac none = false
  has_mac (some mac) = if ltb (length mac) 17 then false else mac_is_meaningful mac

  -- The tests of the loop that `continue`
  unfoldable pub is_eligible : List ℕ → W → Bool
  is_eligible n w = if is_skipped n then false else has_mac (read_iface_mac n 32 w)

  -- The loop of pick_iface over the names that readdir yields
  unfoldable pub pick_loop : List (List ℕ) → Option (ℕ × List ℕ) → W → Option (ℕ × List ℕ)
  pick_loop [] best w = best
  pick_loop (n ∷ names) best w =
      pick_loop names (if is_eligible n w then better (iface_score n) n best else best) w

  unfoldable pub picked : ℕ → Option (ℕ × List ℕ) → Option (List ℕ)
  picked cap none = none
  picked cap (some (best_score, best)) = if leb cap (length best) then none else some best

  -- pick_iface, `none` for -1
  unfoldable pub pick_iface : ℕ → W → Option (List ℕ)
  pick_iface cap w = pick (os.list_dir (codes "/sys/class/net") w)
    where
      pick : Option (List (List ℕ)) → Option (List ℕ)
      pick none = none
      pick (some names) = picked cap (pick_loop names none w)

score_of : Option (ℕ × List ℕ) → ℕ
score_of none = 0
score_of (some (score, best)) = score

better-cases :
    (score : ℕ) (n : List ℕ) (best : Option (ℕ × List ℕ))
    → 0 < score
    → ((better score n best ≡ best) × (score ≤ score_of best))
      ⊎ ((better score n best ≡ some (score, take 63 n)) × (score_of best < score))
unfolding better score_of
better-cases score n none h = inr (refl, h)
better-cases score n (some (best_score, best)) h = elim (Bool-cases (ltb best_score score)) [
  | inl more ↦ inr (rw more refl, ground arith)
  | inr less ↦ inl (rw less refl, ground arith)
]

kept_short : (n : List ℕ) → leb 64 (length (take 63 n)) ≡ false
kept_short n = let size = length-take 63 n in ground arith

iface_score-pos : (n : List ℕ) → 0 < iface_score n
unfolding iface_score
iface_score-pos n = ground arith

iface_score-le : {k n : List ℕ} {s : ℕ} → k ≡ n → iface_score n ≤ s → iface_score k ≤ s
iface_score-le same h = rw same h

module _ {W : Type 0} (os : Os W) where
  -- One round: the best so far only grows, and covers the name if that is eligible.
  round-cases :
      (n : List ℕ) (best : Option (ℕ × List ℕ)) (w : W)
      → let next = if is_eligible os n w then better (iface_score n) n best else best in
        ((next ≡ best) ⊎ ((is_eligible os n w ≡ true) × (next ≡ some (iface_score n, take 63 n))))
        × (score_of best ≤ score_of next)
        × (is_eligible os n w ≡ true → iface_score n ≤ score_of next)
  unfolding score_of
  round-cases n best w = elim (Bool-cases (is_eligible os n w)) [
    | inl e ↦ elim (better-cases (iface_score n) n best (iface_score-pos n)) [
      | inl (same, low) ↦ rw (e, same) (inl refl, omega arith, λ t. low)
      | inr (new, high) ↦ rw (e, new) (inr (refl, refl), omega (arith, high), λ t. omega arith)
    ]
    | inr e ↦ rw e (inl refl, omega arith, λ t. cc)
  ]

  pick_loop_lem :
      (names : List (List ℕ)) (best : Option (ℕ × List ℕ)) (w : W)
      → let result = pick_loop os names best w in
        ((result ≡ best)
          ⊎ ((n : List ℕ) × Memᴰ n names
              × (is_eligible os n w ≡ true)
              × (result ≡ some (iface_score n, take 63 n))))
        × (score_of best ≤ score_of result)
        × ((n : List ℕ)
            → Memᴰ n names
            → is_eligible os n w ≡ true
            → iface_score n ≤ score_of result)
  unfolding pick_loop
  pick_loop_lem [] best w = (inl refl, omega arith, λ n m e. elim m [ ])
  pick_loop_lem (n ∷ names) best w =
      let next = if is_eligible os n w then better (iface_score n) n best else best in
      let (now, grows, covers) = round-cases n best w in
      let (found, more, all) = pick_loop_lem names next w in
      (
        elim found [
          | inr (k, m, e, is) ↦ inr (k, tail m, e, is)
          | inl same ↦ elim now [
            | inl kept ↦ inl (same ∙ kept)
            | inr (e, new) ↦ inr (n, head refl, e, same ∙ new)
          ]
        ],
        omega (arith, grows, more),
        λ k m e. elim (cases_cons m) [
          | inl here ↦
              let low = covers (rw here at e) in iface_score-le here (omega (arith, low, more))
          | inr later ↦ all k later e
        ],
      )

  -- Where /sys/class/net can be listed, pick_iface fails exactly if no name is eligible; otherwise it
  -- takes the first 63 characters of an eligible name whose score no other eligible name exceeds.
  pub pick_iface_best :
      (names : List (List ℕ)) (w : W)
      → os.list_dir (codes "/sys/class/net") w ≡ some names
      → ((pick_iface os 64 w ≡ none) × ((n : List ℕ) → Memᴰ n names → is_eligible os n w ≡ false))
        ⊎ ((n : List ℕ) × Memᴰ n names
            × (is_eligible os n w ≡ true)
            × (pick_iface os 64 w ≡ some (take 63 n))
            × ((m : List ℕ)
                → Memᴰ m names
                → is_eligible os m w ≡ true
                → iface_score m ≤ iface_score n))
  unfolding pick_iface picked score_of
  pick_iface_best names w listed =
      let (found, grows, covers) = pick_loop_lem names none w in
      elim found [
        | inl same ↦ inl (
          rw (listed, same) refl,
          λ n m. elim (Bool-cases (is_eligible os n w)) [
            | inr unfit ↦ unfit
            | inl fit ↦
                let low = rw same at (covers n m fit) in
                absurd (omega (arith, low, iface_score-pos n))
          ],
        )
        | inr (n, m, e, is) ↦
            let short = kept_short n in
            inr (n, m, e, rw (listed, is, short) refl, λ k l ek. rw is at (covers k l ek))
      ]
