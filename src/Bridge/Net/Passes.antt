-- ===== src/Bridge/Net/Passes.antt =====
-- bridge/vl_bridge_net.h: which of the saved keys the passes of NetLicensePortal::loop hand over.
use vecti_license.Base.{
  ℕ, ◌==◌, ◌≡◌, ◌≢◌, ◌⊎◌, inl, inr, refl, sym, ap, ap₂, ◌∙◌, arith, true, false, Bool-cases, ==_iff,
  some, List, [], ◌∷◌, ◌++◌, length, map,
}
use vecti_license.Base.Text.{codes, same_text}
use vecti_license.Bridge.{LicenseObject, submit}
use vecti_license.Bridge.Net.{Portal, NetLicensePortal, new_portal, portal_seen, portal_loop}

same_text_self : (s : List ℕ) → same_text s s ≡ true
same_text_self [] = refl
same_text_self (c ∷ s) =
    let same : (c == c) ≡ true = ground arith in rw (same, same_text_self s) refl

same_text→eq : (s t : List ℕ) → same_text s t ≡ true → s ≡ t
same_text→eq [] [] e = refl
same_text→eq [] (d ∷ t) e = cc
same_text→eq (c ∷ s) [] e = cc
same_text→eq (c ∷ s) (d ∷ t) e = elim (Bool-cases (c == d)) [
  | inl head ↦ ap₂ ◌∷◌ ((==_iff c d).0 head) (same_text→eq s t (rw head at e))
  | inr other ↦ cc (rw other at e)
]

-- The last text of a history that is not empty, `seen` where there is none
unfoldable pub latest : List ℕ → List (List ℕ) → List ℕ
latest seen [] = seen
latest seen ([] ∷ history) = latest seen history
latest seen ((c ∷ v) ∷ history) = latest (c ∷ v) history

latest_step :
    (seen v : List ℕ) (history : List (List ℕ))
    → latest seen (v ∷ history) ≡ latest (latest seen (v ∷ [])) history
unfolding latest
latest_step seen [] history = refl
latest_step seen (c ∷ v) history = refl

module _ {W : Type 0} (portal : Portal W) where
  -- The text that the portal holds for the key of a prefix
  abbrev pub saved : List ℕ → LicenseObject W × W → List ℕ
  saved prefix pass = portal.param_value (prefix ++ codes "_key") pass.1

  -- Passes of loop, one after the other. Each comes with the object and the world as it finds them,
  -- so that anything may have happened to both since the pass before.
  pub passes : NetLicensePortal → List (LicenseObject W × W) → NetLicensePortal
  passes p [] = p
  passes p ((o, w) ∷ later) = passes (portal_loop portal p o w).1 later

  -- A pass remembers a text that is not empty.
  pass_remembers :
      (prefix last : List ℕ) (o : LicenseObject W) (w : W) (v : List ℕ)
      → saved prefix (o, w) ≡ v
      → (portal_loop portal (record { prefix = prefix; last = last }) o w).1
        ≡ record { prefix = prefix; last = latest last (v ∷ []) }
  unfolding portal_loop portal_seen latest
  pass_remembers prefix last o w [] e = rw e refl
  pass_remembers prefix last o w (c ∷ v) e =
      let full : (length (c ∷ v) == 0) ≡ false = ground arith in
      elim (Bool-cases (same_text (c ∷ v) last)) [
        | inl known ↦
            rw (e, full, known)
              (ap (λ t. record { prefix = prefix; last = t })
                (sym (same_text→eq (c ∷ v) last known)))
        | inr new ↦ rw (e, full, new) refl
      ]

  passes_remember :
      (prefix last : List ℕ) (before : List (LicenseObject W × W))
      → passes (record { prefix = prefix; last = last }) before
        ≡ record { prefix = prefix; last = latest last (map (saved prefix) before) }
  unfolding passes latest
  passes_remember prefix last [] = refl
  passes_remember prefix last ((o, w) ∷ later) =
      let v = saved prefix (o, w) in
      ap (λ p. passes p later) (pass_remembers prefix last o w v refl)
      ∙ passes_remember prefix (latest last (v ∷ [])) later
      ∙ ap (λ t. record { prefix = prefix; last = t })
          (sym (latest_step last v (map (saved prefix) later)))

  next_pass :
      (prefix last : List ℕ) (o : LicenseObject W) (w : W)
      → let p : NetLicensePortal = record { prefix = prefix; last = last } in
        let v = saved prefix (o, w) in
        ((v ≢ [])
          × (v ≢ last)
          × (portal_loop portal p o w ≡ (
            (submit (some v) (length v) o).0,
            record { prefix = prefix; last = v },
            (submit (some v) (length v) o).1,
          )))
        ⊎ (((v ≡ []) ⊎ (v ≡ last)) × (portal_loop portal p o w ≡ (false, p, o)))
  unfolding portal_loop portal_seen
  next_pass prefix last o w = go (saved prefix (o, w))
    where
      go :
          (v : List ℕ)
          → let p : NetLicensePortal = record { prefix = prefix; last = last } in
            ((v ≢ [])
              × (v ≢ last)
              × (portal_seen portal v p o ≡ (
                (submit (some v) (length v) o).0,
                record { prefix = prefix; last = v },
                (submit (some v) (length v) o).1,
              )))
            ⊎ (((v ≡ []) ⊎ (v ≡ last)) × (portal_seen portal v p o ≡ (false, p, o)))
      go [] = inr (inl refl, refl)
      go (c ∷ v) =
          let full : (length (c ∷ v) == 0) ≡ false = ground arith in
          elim (Bool-cases (same_text (c ∷ v) last)) [
            | inl known ↦ inr (inr (same_text→eq (c ∷ v) last known), rw (full, known) refl)
            | inr new ↦ inl (
              (λ e. cc),
              (λ e. let old : same_text (c ∷ v) last ≡ true = rw e (same_text_self last) in cc),
              rw (full, new) refl,
            )
          ]

  -- After the passes that a new portal object has seen so far, whatever happened to the License and
  -- the world between them, the next pass: if the saved text is not empty and is not the last text
  -- that was not empty in those passes, loop hands it to submit, returns what submit returns and
  -- remembers it, also where submit has refused it; otherwise loop returns false and leaves both
  -- objects as they are.
  pub portal_hands_once :
      (prefix : List ℕ) (before : List (LicenseObject W × W)) (o : LicenseObject W) (w : W)
      → let p = passes (new_portal prefix) before in
        let v = saved prefix (o, w) in
        let previous = latest [] (map (saved prefix) before) in
        ((v ≢ [])
          × (v ≢ previous)
          × (portal_loop portal p o w ≡ (
            (submit (some v) (length v) o).0,
            record { prefix = prefix; last = v },
            (submit (some v) (length v) o).1,
          )))
        ⊎ (((v ≡ []) ⊎ (v ≡ previous)) × (portal_loop portal p o w ≡ (false, p, o)))
  portal_hands_once prefix before o w =
      let remembers = passes_remember prefix [] before in
      rw remembers (next_pass prefix (latest [] (map (saved prefix) before)) o w)
