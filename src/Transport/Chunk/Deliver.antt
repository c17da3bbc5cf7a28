-- ===== src/Transport/Chunk/Deliver.antt =====
-- transport/vl_chunk.c: a text that is sent in chunks, in any order and with repetitions.
use vecti_license.Base.{
  ℕ, zero, suc, ◌+◌, ◌-◌, ◌*◌, ◌/◌, ◌^◌, ◌<◌, ◌≤◌, ◌≡◌, refl, sym, ap, ◌∙◌, arith,
}
use vecti_license.Base.{Bool, true, false, Option, none, some, List, [], ◌∷◌, ◌++◌}
use vecti_license.Base.{◌==◌, ◌!=◌, ◌||◌, ltb, if◌then◌else◌, All, subst}
use vecti_license.Base.{length, get_or, replicate}
use vecti_license.Base.Table.{holds_below}
use vecti_license.Api.{Status, ok, not_found, buffer_too_small}
use vecti_license.Transport.Chunk.{Chunk, chunk_reset, chunk_feed, chunk_complete, is_seen}
use vecti_license.Transport.Chunk.{chunk_bitmap_len, mask}
use vecti_license.Base.{bit_and}
use vecti_license.Base.Bits.{bit_and-le}
use vecti_license.Transport.Chunk.Reset.{IsLaid, Resets, refused, lays_out, chunk_reset_lays_out}
use vecti_license.Transport.Chunk.Bitmap.{count_below_none}
use vecti_license.Transport.Chunk.Slices.{piece}
use vecti_license.Transport.Chunk.Holds.{Holds}
use vecti_license.Transport.Chunk.Stored.{feed_piece}
use vecti_license.Transport.Chunk.Complete.{complete_lem}
use native.Mathlib.Nat.{div-eq_of_lt-le}

-- The sender: the chunks with these numbers are fed one after the other; the statuses, and the state.
unfoldable pub deliver : ℕ → List ℕ → List ℕ → Option Chunk → List Status × Option Chunk
deliver cs text [] c = ([], c)
deliver cs text (seq ∷ seqs) c =
    let (st, c') = chunk_feed c seq (some (piece cs text seq)) (length (piece cs text seq)) in
    let (sts, c'') = deliver cs text seqs c' in (st ∷ sts, c'')

unfoldable pub among : List ℕ → ℕ → Bool
among [] q = false
among (s ∷ seqs) q = s == q || among seqs q

-- The number of chunks of a text that is not empty
abbrev pub pieces : ℕ → List ℕ → ℕ
pieces cs text = (length text - 1) / cs + 1

-- What vl_chunk_complete must answer once the chunks `seqs` have come
abbrev pub completed : ℕ → List ℕ → List ℕ → ℕ → Status × Option (List ℕ) × Option ℕ
completed cs text seqs cap =
    if holds_below (among seqs) (pieces cs text)
    then if ltb cap (length text + 1)
      then (buffer_too_small, none, some 0)
      else (ok, some (text ++ 0 ∷ []), some (length text))
    else (not_found, none, some 0)

or-swap : (a b s : Bool) → (a || (b || s)) ≡ ((b || a) || s)
or-swap true true s = refl
or-swap true false s = refl
or-swap false true s = refl
or-swap false false s = refl

deliver_lem :
    (cs : ℕ) (text seqs : List ℕ) (c : Chunk)
    → Holds cs text c
    → All (λ q. q * cs < length text) seqs
    → (c' : Chunk) × (deliver cs text seqs (some c) ≡ (replicate (length seqs) ok, some c'))
      × Holds cs text c'
      × (c'.expect ≡ c.expect)
      × ((q : ℕ) → q < c.expect → is_seen c' q ≡ (among seqs q || is_seen c q))
unfolding deliver among
deliver_lem cs text [] c h inside = (c, refl, h, refl, λ q k. refl)
deliver_lem cs text (seq ∷ seqs) c h inside =
    let (c1, fed, h1, e1, seen1) = feed_piece c cs text seq h inside.0 in
    let (c2, rest, h2, e2, seen2) = deliver_lem cs text seqs c1 h1 inside.1 in
    (
      c2,
      rw (fed, rest) refl,
      h2,
      e2 ∙ e1,
      λ q k.
          seen2 q (subst (λ n. q < n) (sym e1) k)
          ∙ ap (λ s. among seqs q || s) (seen1 q k)
          ∙ or-swap (among seqs q) (seq == q) (is_seen c q),
    )

all_below_same :
    (p q : ℕ → Bool) (n : ℕ) → ((i : ℕ) → i < n → p i ≡ q i) → holds_below p n ≡ holds_below q n
unfolding holds_below
all_below_same p q zero h = refl
all_below_same p q (suc n) h =
    rw (h n (omega arith), all_below_same p q n (λ i k. h i (omega arith))) refl

expect_lem : (cs : ℕ) (text : List ℕ) (c : Chunk) → Holds cs text c → c.expect ≡ pieces cs text
expect_lem cs text c h =
    let starts = subst (λ n. (c.expect - 1) * n < c.total_len) h.size h.laid.last_starts in
    let covers = subst (λ n. c.total_len ≤ c.expect * n) h.size h.laid.covers in
    let again : c.expect - 1 + 1 ≡ c.expect = omega (arith, h.laid.some_chunks) in
    let high : length text - 1 < (c.expect - 1 + 1) * cs =
      rw again (omega (arith, covers, h.total, h.laid.filled)) in
    let e =
      div-eq_of_lt-le {k = c.expect - 1} cs {m = length text - 1} (omega (arith, starts, h.total))
        high in
    omega (arith, e, h.laid.some_chunks)

get_or_zeros : (n k : ℕ) → get_or {A = ℕ} (replicate n 0) k 0 ≡ 0
get_or_zeros zero k = refl
get_or_zeros (suc n) zero = refl
get_or_zeros (suc n) (suc k) = get_or_zeros n k

unseen : (c : Chunk) → c.seen ≡ replicate chunk_bitmap_len 0 → (q : ℕ) → is_seen c q ≡ false
unseen c e q =
    let byte_zero : get_or c.seen (q / 2 ^ 3) 0 ≡ 0 =
      ap (λ s. get_or s (q / 2 ^ 3) 0) e ∙ get_or_zeros 24 (q / 2 ^ 3) in
    let none_set : bit_and 0 (mask q) ≡ 0 = omega (arith, bit_and-le 8 0 (mask q)) in
    ap (λ b. bit_and b (mask q) != 0) byte_zero ∙ ap (λ b. b != 0) none_set

fresh-Holds :
    (cs : ℕ) (text : List ℕ) (c : Chunk)
    → IsLaid c
    → c.chunk_size ≡ cs
    → c.total_len ≡ length text
    → c.have ≡ 0
    → c.seen ≡ replicate chunk_bitmap_len 0
    → Holds cs text c
fresh-Holds cs text c laid size total none_yet clear = record {
  laid = laid;
  size = size;
  total = total;
  bytes = λ k. subst (λ s. get_or s k 0 < 256) (sym clear) (omega (arith, get_or_zeros 24 k));
  count = none_yet ∙ sym (count_below_none (is_seen c) c.expect (unseen c clear));
  placed = λ i k seen. clash seen (unseen c clear (i / cs));
}
  where
    clash : {b : Bool} {x y : ℕ} → b ≡ true → b ≡ false → x ≡ y
    clash p q = cc

delivered :
    (cs : ℕ) (text seqs : List ℕ) (c : Chunk) (cap : ℕ)
    → Holds cs text c
    → ((q : ℕ) → is_seen c q ≡ false)
    → All (λ q. q * cs < length text) seqs
    → ((deliver cs text seqs (some c)).0 ≡ replicate (length seqs) ok)
      × (chunk_complete (deliver cs text seqs (some c)).1 (some cap) true
          ≡ completed cs text seqs cap)
delivered cs text seqs c cap h clear inside =
    let (c', run, h', same, seen) = deliver_lem cs text seqs c h inside in
    let all : holds_below (is_seen c') c'.expect ≡ holds_below (among seqs) (pieces cs text) =
      ap (holds_below (is_seen c')) (same ∙ expect_lem cs text c h)
      ∙ all_below_same (is_seen c') (among seqs) (pieces cs text) (λ q k.
        seen q (subst (λ n. q < n) (sym (expect_lem cs text c h)) k)
        ∙ rw (clear q) (or-false (among seqs q))) in
    rw run (refl, complete_lem cs text c' cap h' ∙ rw all)
  where
    or-false : (b : Bool) → (b || false) ≡ b
    or-false true = refl
    or-false false = refl

-- A text of 1 to 192 bytes is reassembled from its chunks. After a reset for its length, with a
-- chunk size from 1 to 2^32 - 1, any of its chunks may be fed in any order and any number of times:
-- every call returns VL_OK; and vl_chunk_complete into a buffer of `cap` characters answers
-- VL_ERR_NOT_FOUND as long as a chunk is missing, and then the text, its NUL and its length, or
-- VL_ERR_BUFFER_TOO_SMALL if they do not fit.
pub chunks_reassemble :
    (c : Chunk) (cs : ℕ) (text seqs : List ℕ) (cap : ℕ)
    → 0 < cs
    → cs < 2 ^ 32
    → 0 < length text
    → length text ≤ 192
    → All (λ q. q * cs < length text) seqs
    → ((deliver cs text seqs (chunk_reset (some c) cs (length text)).1).0
        ≡ replicate (length seqs) ok)
      × (chunk_complete
            (deliver cs text seqs (chunk_reset (some c) cs (length text)).1).1
            (some cap)
            true
          ≡ completed cs text seqs cap)
chunks_reassemble c cs text seqs cap pos few filled short inside =
    go (chunk_reset_lays_out c cs (length text))
  where
    go :
        {got : Status × Option Chunk}
        → Resets cs (length text) got
        → ((deliver cs text seqs got.1).0 ≡ replicate (length seqs) ok)
          × (chunk_complete (deliver cs text seqs got.1).1 (some cap) true
              ≡ completed cs text seqs cap)
    go (refused bad e) = absurd (bad (pos, few, filled, short))
    go {got} (lays_out c' e laid size total none_yet clear) =
        subst
          (λ (g : Status × Option Chunk).
            ((deliver cs text seqs g.1).0 ≡ replicate (length seqs) ok)
            × (chunk_complete (deliver cs text seqs g.1).1 (some cap) true
                ≡ completed cs text seqs cap))
          (sym e)
          (delivered cs text seqs c' cap (fresh-Holds cs text c' laid size total none_yet clear)
            (unseen c' clear) inside)
