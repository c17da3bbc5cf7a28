-- ===== src/Transport/Chunk/Complete.antt =====
-- transport/vl_chunk.c: what vl_chunk_complete answers from a reassembly of a text.
use vecti_license.Base.{ℕ, ◌+◌, ◌*◌, ◌/◌, ◌<◌, ◌≡◌, inl, inr, ap, ◌∙◌, arith}
use vecti_license.Base.{Bool, true, false, Bool-cases, Option, none, some, List, [], ◌∷◌, ◌++◌}
use vecti_license.Base.{◌==◌, ◌!=◌, ltb, if◌then◌else◌}
use vecti_license.Base.{length, take, length-take}
use vecti_license.Base.Table.{holds_below, holds_below_at}
use vecti_license.Api.{Status, ok, invalid_arg, not_found, buffer_too_small}
use vecti_license.Transport.Chunk.{Chunk, chunk_complete, is_seen}
use vecti_license.Transport.Chunk.Bitmap.{count_below, count_below_all}
use vecti_license.Transport.Chunk.Slices.{eq_of_bytes, get_or-take}
use vecti_license.Transport.Chunk.Holds.{Holds, expected}
use native.Mathlib.Nat.{div-mul-le_self}

-- Once every chunk is there, the buffer begins with the text.
whole_text :
    (cs : ℕ) (text : List ℕ) (c : Chunk)
    → Holds cs text c
    → holds_below (is_seen c) c.expect ≡ true
    → take c.total_len c.buf ≡ text
whole_text cs text c h all =
    let len : length (take c.total_len c.buf) ≡ length text =
      omega (arith, length-take c.total_len c.buf, h.laid.buffer, h.laid.fits, h.total) in
    eq_of_bytes (take c.total_len c.buf) text len (λ k l.
      let inside : k < length text = omega arith in
      let starts : k / cs * cs < length text = omega (arith, div-mul-le_self k cs) in
      get_or-take c.total_len c.buf k (omega (arith, h.total))
      ∙ h.placed k inside
          (holds_below_at (is_seen c) c.expect all (k / cs) (expected c cs text (k / cs) h starts)))

abbrev finished : Chunk → ℕ → Status × Option (List ℕ) × Option ℕ
finished c cap =
    if ltb cap (c.total_len + 1)
    then (buffer_too_small, none, some 0)
    else (ok, some (take c.total_len c.buf ++ 0 ∷ []), some c.total_len)

complete_if : Bool → Bool → Chunk → ℕ → Status × Option (List ℕ) × Option ℕ
complete_if armed differ c cap =
    if armed
    then if differ then (not_found, none, some 0) else finished c cap
    else (invalid_arg, none, some 0)

chunk_complete_lem :
    (c : Chunk) (cap : ℕ) {a b : Bool}
    → c.armed ≡ a
    → (c.have != c.expect) ≡ b
    → chunk_complete (some c) (some cap) true ≡ complete_if a b c cap
unfolding chunk_complete complete_if
chunk_complete_lem c cap e f = λ i. complete_if (e i) (f i) c cap

pub complete_lem :
    (cs : ℕ) (text : List ℕ) (c : Chunk) (cap : ℕ)
    → Holds cs text c
    → chunk_complete (some c) (some cap) true ≡ (
        if holds_below (is_seen c) c.expect
        then if ltb cap (length text + 1)
          then (buffer_too_small, none, some 0)
          else (ok, some (text ++ 0 ∷ []), some (length text))
        else (not_found, none, some 0))
unfolding complete_if
complete_lem cs text c cap h = elim (Bool-cases (holds_below (is_seen c) c.expect)) [
  | inl all ↦
      let same : (c.have != c.expect) ≡ false = counted all in
      rw all (chunk_complete_lem c cap h.laid.armed same ∙ rest all)
  | inr some_left ↦
      let differ : (c.have != c.expect) ≡ true = missing some_left in
      rw some_left (chunk_complete_lem c cap h.laid.armed differ)
]
  where
    tally : (count_below (is_seen c) c.expect == c.expect) ≡ holds_below (is_seen c) c.expect
    tally = count_below_all (is_seen c) c.expect

    counted : holds_below (is_seen c) c.expect ≡ true → (c.have != c.expect) ≡ false
    counted all =
        let e : (count_below (is_seen c) c.expect == c.expect) ≡ true = tally ∙ all in
        ground (arith, h.count)

    missing : holds_below (is_seen c) c.expect ≡ false → (c.have != c.expect) ≡ true
    missing left =
        let e : (count_below (is_seen c) c.expect == c.expect) ≡ false = tally ∙ left in
        ground (arith, h.count)

    rest :
        holds_below (is_seen c) c.expect ≡ true
        → finished c cap ≡ (
            if ltb cap (length text + 1)
            then (buffer_too_small, none, some 0)
            else (ok, some (text ++ 0 ∷ []), some (length text)))
    rest all =
        ap
          (λ (p : List ℕ × ℕ).
            if ltb cap (p.1 + 1)
            then (buffer_too_small, none, some 0)
            else (ok, some (p.0 ++ 0 ∷ []), some p.1))
          (λ i. (whole_text cs text c h all i, h.total i))
