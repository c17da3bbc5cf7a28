-- ===== src/Hal/Posix/MacOs/Interfaces.antt =====
-- hal/posix/vl_hal_posix.c on macOS: read_iface_mac takes the first usable interface.
use vecti_license.Base.{
  ℕ, ◌+◌, ◌*◌, ◌≡◌, ◌≢◌, refl, ap, subst, ◌∙◌, sym, arith, inl, inr, ◌⊎◌, Bool-cases, Option-cases,
  Option, some, none, true,
}
use vecti_license.Base.{List, [], ◌∷◌, ◌++◌, All, length, ◌==◌, ◌!=◌}
use vecti_license.Hal.{or_all}
use vecti_license.Hal.Posix.Segments.{id_buf_size}
use vecti_license.Hal.Posix.Reading.{Fits}
use vecti_license.Hal.Posix.MacOs.{
  Interface, MacOs, colons, is_named, link_text, entry_text, interface_loop, found_in,
  interface_mac,
}

-- The entry has the name and a hardware address of six bytes that are not all 0, spelled by `mac`.
pub record Shows (iface : Option (List ℕ)) (p : Interface) (mac : List ℕ) : Type 0 where
  pub named : is_named iface p.name ≡ true
  pub bytes : List ℕ
  pub linked : p.link ≡ some bytes
  pub six : length bytes ≡ 6
  pub nonzero : or_all bytes 0 ≢ 0
  pub spelled : mac ≡ colons bytes

-- The first such entry of a list
pub record First (iface : Option (List ℕ)) (entries : List Interface) (mac : List ℕ) : Type 0 where
  pub front : List Interface
  pub entry : Interface
  pub back : List Interface
  pub split : entries ≡ front ++ (entry ∷ back)
  pub skipped : All (λ (q : Interface). (t : List ℕ) → ¬ Shows iface q t) front
  pub shows : Shows iface entry mac

length-colons : (b : ℕ) (m : List ℕ) → length (colons (b ∷ m)) ≡ 3 * length m + 2
unfolding colons
length-colons b [] = refl
length-colons b (c ∷ m) = omega (arith, length-colons c m)

length-six : (m : List ℕ) → length m ≡ 6 → length (colons m) ≡ 17
length-six [] six = absurd (omega arith)
length-six (b ∷ m) six = omega (arith, length-colons b m)

-- A text stands for what the entry shows, and none for nothing.
link_text-cases :
    (link : Option (List ℕ))
    → ((m : List ℕ) × (link ≡ some m)
        × (length m ≡ 6)
        × (or_all m 0 ≢ 0)
        × (link_text link ≡ some (colons m)))
      ⊎ (((m : List ℕ) → link ≡ some m → length m ≡ 6 → or_all m 0 ≡ 0) × (link_text link ≡ none))
unfolding link_text
link_text-cases none = inr ((λ m e. absurd (cc e)), refl)
link_text-cases (some m) = elim (Bool-cases (length m != 6)) [
  | inl bad ↦ inr (
    (λ m' e six. let same : m ≡ m' = cc e in absurd (ground (arith, ap length same, six, bad))),
    rw bad refl,
  )
  | inr good ↦
      let six : length m ≡ 6 = ground arith in
      elim (Bool-cases (or_all m 0 == 0)) [
        | inl zeros ↦ inr (
          (λ m' e six'.
              let same : m ≡ m' = cc e in
              let none_set : or_all m 0 ≡ 0 = ground arith in
              ap (λ t. or_all t 0) (sym same) ∙ none_set),
          rw (good, zeros) refl,
        )
        | inr some_bit ↦ inl (
          m,
          refl,
          six,
          (λ z. ground arith),
          (let long = length-six m six in rw (good, some_bit, long) refl),
        )
      ]
]

entry_text-cases :
    (iface : Option (List ℕ)) (p : Interface)
    → ((mac : List ℕ) × Shows iface p mac × (entry_text iface p ≡ some mac))
      ⊎ (((mac : List ℕ) → ¬ Shows iface p mac) × (entry_text iface p ≡ none))
unfolding entry_text
entry_text-cases iface p = elim (Bool-cases (is_named iface p.name)) [
  | inr other ↦ inr ((λ mac s. let named = s.named in cc), rw other refl)
  | inl named ↦ elim (link_text-cases p.link) [
    | inl (m, linked, six, nonzero, e) ↦ inl (
      colons m,
      record {
        named = named;
        bytes = m;
        linked = linked;
        six = six;
        nonzero = nonzero;
        spelled = refl;
      },
      rw named e,
    )
    | inr (zeros, e) ↦ inr ((λ mac s. s.nonzero (zeros s.bytes s.linked s.six)), rw named e)
  ]
]

loop_finds :
    (iface : Option (List ℕ)) (entries : List Interface)
    → ((mac : List ℕ) × First iface entries mac × (interface_loop iface entries ≡ some mac))
      ⊎ (All (λ (q : Interface). (t : List ℕ) → ¬ Shows iface q t) entries
          × (interface_loop iface entries ≡ none))
unfolding interface_loop
loop_finds iface [] = inr (tt, refl)
loop_finds iface (p ∷ rest) = elim (entry_text-cases iface p) [
  | inl (mac, shows, e) ↦ inl (
    mac,
    record { front = []; entry = p; back = rest; split = refl; skipped = tt; shows = shows },
    rw (e, interface_loop) refl,
  )
  | inr (hidden, e) ↦ elim (loop_finds iface rest) [
    | inl (mac, first, f) ↦ inl (
      mac,
      record {
        front = p ∷ first.front;
        entry = first.entry;
        back = first.back;
        split = ap (λ r. p ∷ r) first.split;
        skipped = (hidden, first.skipped);
        shows = first.shows;
      },
      rw (e, interface_loop) f,
    )
    | inr (none_shows, f) ↦ inr ((hidden, none_shows), rw (e, interface_loop) f)
  ]
]

-- Whatever the first of a list shows is what the loop finds.
First-found :
    (iface : Option (List ℕ)) (entries : List Interface) (mac : List ℕ)
    → First iface entries mac
    → interface_loop iface entries ≢ none
First-found iface entries mac first e = elim (loop_finds iface entries) [
  | inl (mac', first', f) ↦ cc
  | inr (none_shows, f) ↦ at_entry first.front (subst (All Hidden) first.split none_shows)
]
  where
    Hidden : Interface → Type 0
    Hidden q = (t : List ℕ) → ¬ Shows iface q t

    at_entry : (front : List Interface) → All Hidden (front ++ (first.entry ∷ first.back)) → ⊥
    at_entry [] hidden = hidden.0 mac first.shows
    at_entry (q ∷ front) hidden = at_entry front hidden.1

module _ {W : Type 0} (mac_os : MacOs W) where
  pub interface_mac-cases :
      (iface : Option (List ℕ)) (w : W)
      → ((entries : List Interface) × (mac : List ℕ) × (mac_os.interfaces w ≡ some entries)
          × First iface entries mac
          × Fits (interface_mac mac_os iface id_buf_size w) mac)
        ⊎ (((entries : List Interface) (mac : List ℕ)
              → mac_os.interfaces w ≡ some entries
              → ¬ First iface entries mac)
            × (interface_mac mac_os iface id_buf_size w ≡ none))
  unfolding interface_mac found_in
  interface_mac-cases iface w = elim (Option-cases (mac_os.interfaces w)) [
    | inl e ↦ inr ((λ entries mac f. absurd (cc f)), rw e refl)
    | inr (entries, e) ↦ elim (loop_finds iface entries) [
      | inl (mac, first, f) ↦
          let shown = first.shows in
          let long = length-six shown.bytes shown.six in
          inl (
            entries,
            mac,
            e,
            first,
            (rw (e, found_in, f) refl, omega (arith, long, ap length shown.spelled)),
          )
      | inr (none_shows, f) ↦ inr (
        (λ entries' mac e' first.
            let same : entries' ≡ entries = cc e' in
            First-found iface entries mac (subst (λ es. First iface es mac) same first) f),
        rw (e, found_in, f) refl,
      )
    ]
  ]
