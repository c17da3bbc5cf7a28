-- ===== src/Transport/Chunk/Holds.antt =====
-- transport/vl_chunk.c: what a reassembly holds of the text.
use vecti_license.Base.{
  ℕ, ◌+◌, ◌-◌, ◌*◌, ◌/◌, ◌<◌, ◌≤◌, ◌≡◌, ◌⊎◌, inl, inr, sym, ap, ◌∙◌, arith, min,
}
use vecti_license.Base.{true, false, Bool-cases, List}
use vecti_license.Base.{leb, subst}
use vecti_license.Base.{length, get_or, drop, length-drop}
use vecti_license.Transport.Chunk.{Chunk, wanted, offset, is_seen}
use vecti_license.Transport.Chunk.{same_bytes}
use vecti_license.Transport.Chunk.Reset.{IsLaid}
use vecti_license.Transport.Chunk.Feed.{wanted_lem}
use vecti_license.Transport.Chunk.Bitmap.{HasBytes, count_below}
use vecti_license.Transport.Chunk.Slices.{get_or-drop}
use vecti_license.Transport.Chunk.Slices.{same_bytes-true, piece, length-piece, get_or-piece}
use native.Mathlib.Nat.{mul-le-mul_right, div-eq_of_lt-le, div-mul-le_self, lt-div-mul-add}

-- The state of a reassembly of `text`: the bytes of every received chunk are the text's.
pub record Holds (cs : ℕ) (text : List ℕ) (c : Chunk) : Type 0 where
  pub laid : IsLaid c
  pub size : c.chunk_size ≡ cs
  pub total : c.total_len ≡ length text
  pub bytes : HasBytes c
  pub count : c.have ≡ count_below (is_seen c) c.expect
  pub placed :
      (i : ℕ) → i < length text → is_seen c (i / cs) ≡ true → get_or c.buf i 0 ≡ get_or text i 0

pub expected :
    (c : Chunk) (cs : ℕ) (text : List ℕ) (seq : ℕ)
    → Holds cs text c
    → seq * cs < length text
    → seq < c.expect
expected c cs text seq h inside = go (Bool-cases (leb c.expect seq))
  where
    go : (leb c.expect seq ≡ true) ⊎ (leb c.expect seq ≡ false) → seq < c.expect
    go (inl late) =
        let le : c.expect ≤ seq = ground arith in
        let covers = rw (h.size, h.total) at h.laid.covers in
        absurd (omega (arith, mul-le-mul_right cs le, covers))
    go (inr early) = ground arith

-- The bytes of one chunk are those whose index has its number as the quotient.
pub index_of :
    (cs seq i total : ℕ)
    → 0 < cs
    → seq * cs ≤ i
    → i < seq * cs + min cs (total - seq * cs)
    → i / cs ≡ seq
index_of cs seq i total pos h k =
    let next : (seq + 1) * cs ≡ seq * cs + cs = omega arith in div-eq_of_lt-le cs h (omega arith)

pub in_chunk :
    (cs seq i total : ℕ)
    → 0 < cs
    → i < total
    → i / cs ≡ seq
    → (seq * cs ≤ i) × (i < seq * cs + min cs (total - seq * cs))
in_chunk cs seq i total pos h e =
    let low : seq * cs ≤ i = subst (λ q. q * cs ≤ i) e (div-mul-le_self i cs) in
    let high : i < seq * cs + cs = subst (λ q. i < q * cs + cs) e (lt-div-mul-add pos) in
    (low, omega arith)

module _ (c : Chunk) (cs : ℕ) (text : List ℕ) (seq : ℕ) (h : Holds cs text c)
    (inside : seq * cs < length text) where
  pub off_lem : offset c seq ≡ seq * cs
  off_lem = (wanted_lem c seq h.laid (expected c cs text seq h inside)).0 ∙ ap (λ n. seq * n) h.size

  pub want_lem : length (piece cs text seq) ≡ wanted c (offset c seq)
  want_lem =
      let want = (wanted_lem c seq h.laid (expected c cs text seq h inside)).1 in
      length-piece cs text seq
      ∙ sym (
          want
          ∙ ap (λ n. min n (c.total_len - seq * n)) h.size
          ∙ ap (λ n. min cs (n - seq * cs)) h.total)

  pub cs_pos : 0 < cs
  cs_pos = subst (λ n. 0 < n) h.size h.laid.sized

  pub small : (length text ≤ 192) × (length c.buf ≡ 193)
  small = (subst (λ n. n ≤ 192) h.total h.laid.fits, h.laid.buffer)

  -- A chunk that is there already is the same.
  pub same_piece :
      is_seen c seq ≡ true
      → same_bytes (drop (offset c seq) c.buf) (piece cs text seq) (length (piece cs text seq))
        ≡ true
  same_piece old =
      let len = length-piece cs text seq in
      let fits = small in
      rw off_lem (
        same_bytes-true (drop (seq * cs) c.buf) (piece cs text seq) (length (piece cs text seq))
          (omega (arith, len, length-drop (seq * cs) c.buf, fits.0, fits.1, inside)) (omega arith)
          (λ k l.
            let i : ℕ = seq * cs + k in
            let at_seq : i / cs ≡ seq =
              index_of cs seq i (length text) cs_pos (omega arith) (omega (arith, len)) in
            get_or-drop (seq * cs) c.buf k
            ∙ h.placed i (omega (arith, len, inside)) (ap (is_seen c) at_seq ∙ old)
            ∙ sym (get_or-piece cs text seq k (omega (arith, len)))))
