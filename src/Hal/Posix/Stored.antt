-- ===== src/Hal/Posix/Stored.antt =====
-- hal/posix/vl_hal_posix.c: what the stores leave in the files is what the loads find, where reading
-- a file as text does not cut it short.
use vecti_license.Base.{
  ℕ, suc, ◌-◌, ◌^◌, ◌<◌, ◌≤◌, ◌≡◌, refl, ap, ◌∙◌, arith, inl, inr, ◌⊎◌, Bool, true, false,
  Bool-cases, Option, none, some, Option-cases,
}
use vecti_license.Base.{
  List, [], ◌∷◌, ◌++◌, length, get_or, take_all, ltb, ◌==◌, ◌!=◌, if◌then◌else◌,
}
use vecti_license.Base.Words.{byte, le_bytes, le_word_bytes}
use vecti_license.Api.{ok, platform, not_found}
use vecti_license.Hal.Posix.{Os, PosixCtx}
use vecti_license.Base.Text.{codes}
use vecti_license.Hal.Posix.Text.{
  is_trimmed, read_text_file, trimmed, trimmed_whole, trimmed_blank, trimmed_nil,
}
use vecti_license.Hal.Posix.State.{
  state_path, mark_of, mark_read, blob_read, file_written, posix_hwm_load, posix_hwm_store,
  posix_blob_load, posix_blob_store,
}

-- A file that was written whole and closed without an error reads as what was written.
abbrev pub Keeps : {W : Type 0} → Os W → Type 0
Keeps {W = W} os =
    (path bytes : List ℕ) (w w' : W)
    → os.write_file path bytes w ≡ (some (length bytes, true), w')
    → os.read_file path w' ≡ some bytes

file_written-ok :
    {W : Type 0} (len : ℕ) (r : Option (ℕ × Bool) × W) {w' : W}
    → file_written len r ≡ (ok, w')
    → r ≡ (some (len, true), w')
unfolding file_written
file_written-ok len (none, w) e = cc
file_written-ok len (some (n, false), w) e = cc
file_written-ok len (some (n, true), w) {w'} e = elim (Bool-cases (n != len)) [
  | inl other ↦ cc (rw other at e)
  | inr same ↦
      let all : n ≡ len = ground arith in
      let after : w ≡ w' = ap (λ r. r.1) (rw same at e) in rw (all, after) refl
]

module _ {W : Type 0} (os : Os W) (c : PosixCtx) where
  read_text_file-written :
      (path bytes : List ℕ) (cap : ℕ) (w w' : W)
      → Keeps os
      → length bytes ≤ cap
      → os.write_file path bytes w ≡ (some (length bytes, true), w')
      → read_text_file os path cap w' ≡ some (trimmed bytes)
  unfolding read_text_file
  read_text_file-written path bytes cap w w' keeps fits written =
      rw (keeps path bytes w w' written, take_all cap bytes fits) refl

  -- After hwm_store has returned VL_OK for a 32-bit value, hwm_load returns that value if its most
  -- significant byte is not a newline, carriage return, space or tab, and fails with VL_ERR_PLATFORM
  -- if it is one of these.
  pub posix_hwm_store_loads :
      (value : ℕ) (w w' : W)
      → Keeps os
      → value < 2 ^ 32
      → posix_hwm_store os c value w ≡ (ok, w')
      → ((is_trimmed (byte value 24) ≡ false) × (posix_hwm_load os c w' ≡ (ok, value, w')))
        ⊎ ((is_trimmed (byte value 24) ≡ true) × (posix_hwm_load os c w' ≡ (platform, 0, w')))
  unfolding posix_hwm_store posix_hwm_load le_bytes mark_read mark_of
  posix_hwm_store_loads value w w' keeps h e = elim (Option-cases (state_path c (codes ".hwm"))) [
    | inl nowhere ↦ cc (rw (nowhere, posix_hwm_store) at e)
    | inr (path, named) ↦
        let written =
          file_written-ok 4 (os.write_file path (le_bytes value) w)
            (rw (named, posix_hwm_store) at e) in
        let text =
          read_text_file-written path (le_bytes value) 4 w w' keeps (omega arith) written in
        elim (Bool-cases (is_trimmed (byte value 24))) [
          | inr kept ↦
              let whole = trimmed_whole (le_bytes value) 3 refl kept in
              inl (
                kept,
                rw (named, posix_hwm_load, text, whole)
                    (ap (λ v. (ok, v, w')) (le_word_bytes value h)),
              )
          | inl cut ↦
              let short = trimmed_blank (le_bytes value) 3 refl cut in
              let few : (length (trimmed (le_bytes value)) != 4) ≡ true = ground arith in
              inr (cut, rw (named, posix_hwm_load, text, few) refl)
        ]
  ]

  -- A text that no trimming shortens: empty, or not ending in a blank
  blob_read-whole :
      (text : List ℕ)
      → (text ≡ [])
        ⊎ ((last : ℕ) × (length text ≡ suc last) × (is_trimmed (get_or text last 0) ≡ false))
      → blob_read (some (trimmed text))
        ≡ (if length text == 0 then (not_found, [], 0) else (ok, text ++ 0 ∷ [], length text))
  unfolding blob_read
  blob_read-whole text (inl empty) = rw (empty, trimmed_nil) refl
  blob_read-whole text (inr (last, size, kept)) = rw (trimmed_whole text last size kept) refl

  -- After blob_store has returned VL_OK for a text that is empty or does not end in a blank, blob_load
  -- into a buffer of at least 2 characters with room for the text and its NUL returns VL_ERR_NOT_FOUND
  -- or that text.
  pub posix_blob_store_loads :
      (text : List ℕ) (cap : ℕ) (w w' : W)
      → Keeps os
      → (text ≡ [])
        ⊎ ((last : ℕ) × (length text ≡ suc last) × (is_trimmed (get_or text last 0) ≡ false))
      → 2 ≤ cap
      → length text < cap
      → posix_blob_store os c text w ≡ (ok, w')
      → posix_blob_load os c cap w' ≡ (
          if length text == 0
          then (not_found, [], 0, w')
          else (ok, text ++ 0 ∷ [], length text, w'))
  unfolding posix_blob_store posix_blob_load
  posix_blob_store_loads text cap w w' keeps plain room fits e =
      elim (Bool-cases (ltb 160 (length text))) [
        | inl long ↦ cc (rw (long, posix_blob_store) at e)
        | inr short ↦ elim (Option-cases (state_path c (codes ".blob"))) [
          | inl nowhere ↦ cc (rw (short, nowhere, posix_blob_store) at e)
          | inr (path, named) ↦
              let written =
                file_written-ok (length text) (os.write_file path text w)
                  (rw (short, named, posix_blob_store) at e) in
              let read =
                read_text_file-written path text (cap - 1) w w' keeps (omega arith) written in
              let allowed : ltb cap 2 ≡ false = ground (arith, room) in
              rw (named, posix_blob_load, read, allowed)
                (ap (λ r. let (st, t, len) = r in (st, t, len, w')) (blob_read-whole text plain)
                  ∙ elim (Bool-cases (length text == 0)) [
                    | inl empty ↦ rw empty refl
                    | inr full ↦ rw full refl
                  ])
        ]
      ]
