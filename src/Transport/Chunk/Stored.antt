-- ===== src/Transport/Chunk/Stored.antt =====
-- transport/vl_chunk.c: what feeding a chunk of the text adds to a reassembly.
use vecti_license.Base.{
  ℕ, ◌+◌, ◌-◌, ◌*◌, ◌/◌, ◌%◌, ◌^◌, ◌<◌, ◌≤◌, ◌≡◌, ◌⊎◌, inl, inr, refl, sym, ap, ◌∙◌, arith, min,
}
use vecti_license.Base.{Bool, true, false, Bool-cases, some, List}
use vecti_license.Base.{◌==◌, ◌!=◌, ◌||◌, leb, ltb, ==_iff}
use vecti_license.Base.{length, get_or, take_all}
use vecti_license.Hash.{write_at}
use vecti_license.Api.{Status, ok}
use vecti_license.Transport.Chunk.{Chunk, chunk_feed, feed_at, wanted, offset, store_chunk, is_seen}
use vecti_license.Transport.Chunk.Feed.{store_chunk-IsLaid}
use vecti_license.Transport.Chunk.Bitmap.{
  store_chunk-HasBytes, is_seen-store_chunk, count_below, count_below_more, count_below-le,
}
use vecti_license.Transport.Chunk.Slices.{
  get_or-write_at_before, get_or-write_at_inside, get_or-write_at_behind,
}
use vecti_license.Transport.Chunk.Slices.{piece, length-piece, get_or-piece}
use native.Mathlib.Nat.{div-mul-le_self}
use vecti_license.Transport.Chunk.Holds.{
  Holds, expected, index_of, in_chunk, off_lem, want_lem, cs_pos, small, same_piece,
}

armed_feed :
    (c : Chunk) (seq : ℕ) (data' : List ℕ) (len : ℕ) {st : Status} {c' : Chunk}
    → c.armed ≡ true
    → feed_at c seq data' len ≡ (st, c')
    → chunk_feed (some c) seq (some data') len ≡ (st, some c')
unfolding chunk_feed
armed_feed c seq data' len armed e = rw (e, armed) refl

module _ (c : Chunk) (cs : ℕ) (text : List ℕ) (seq : ℕ) (h : Holds cs text c)
    (inside : seq * cs < length text) where
  stored_chunk : Chunk
  stored_chunk = store_chunk c seq (piece cs text seq)

  ends : seq * cs + length (piece cs text seq) ≤ length text
  ends = omega (arith, length-piece cs text seq, inside)

  fits : offset c seq + length (piece cs text seq) ≤ c.total_len
  fits = omega (arith, (off_lem c cs text seq h inside), ends, h.total)

  stored_buf : stored_chunk.buf ≡ write_at (seq * cs) (piece cs text seq) c.buf
  unfolding stored_chunk store_chunk
  stored_buf = ap (λ o. write_at o (piece cs text seq) c.buf) (off_lem c cs text seq h inside)

  seen_after : (q : ℕ) → q < c.expect → is_seen stored_chunk q ≡ (seq == q || is_seen c q)
  unfolding stored_chunk
  seen_after q k =
      is_seen-store_chunk c seq q (piece cs text seq) h.laid.bitmap h.bytes
        (omega (arith, expected c cs text seq h inside, h.laid.few)) (omega (arith, h.laid.few))

  beyond :
      (i : ℕ) → (seq == i / cs) ≡ false → seq * cs ≤ i → seq * cs + length (piece cs text seq) ≤ i
  beyond i other low = go (Bool-cases (ltb i (seq * cs + length (piece cs text seq))))
    where
      go :
          (ltb i (seq * cs + length (piece cs text seq)) ≡ true)
            ⊎ (ltb i (seq * cs + length (piece cs text seq)) ≡ false)
          → seq * cs + length (piece cs text seq) ≤ i
      go (inl within) =
          let k : i < seq * cs + length (piece cs text seq) = ground arith in
          let e =
            index_of cs seq i (length text) (cs_pos c cs text seq h inside) low
              (omega (arith, length-piece cs text seq)) in
          let hit : (seq == i / cs) ≡ true = (==_iff seq (i / cs)).1 (sym e) in
          absurd (clash hit other)
        where
          clash : {b : Bool} → b ≡ true → b ≡ false → ⊥
          clash p q = cc
      go (inr past) = ground arith

  stored_byte :
      (i : ℕ)
      → i < length text
      → is_seen stored_chunk (i / cs) ≡ true
      → get_or stored_chunk.buf i 0 ≡ get_or text i 0
  stored_byte i k seen = ap (λ b. get_or b i 0) stored_buf ∙ go (Bool-cases (seq == i / cs))
    where
      len : length (piece cs text seq) ≡ min cs (length text - seq * cs)
      len = length-piece cs text seq

      copied : ℕ → ℕ
      copied j = get_or (write_at (seq * cs) (piece cs text seq) c.buf) j 0

      room : seq * cs ≤ length c.buf
      room =
          omega (arith, (small c cs text seq h inside).0, (small c cs text seq h inside).1, inside)

      earlier : (seq == i / cs) ≡ false → get_or c.buf i 0 ≡ get_or text i 0
      earlier other = h.placed i k (
          rw
            (
              seen_after (i / cs)
                  (expected c cs text (i / cs) h (omega (arith, div-mul-le_self i cs, k))),
              other,
            )
            at seen)

      go :
          ((seq == i / cs) ≡ true) ⊎ ((seq == i / cs) ≡ false)
          → get_or (write_at (seq * cs) (piece cs text seq) c.buf) i 0 ≡ get_or text i 0
      go (inl same) =
          let (low, high) =
            in_chunk cs seq i (length text) (cs_pos c cs text seq h inside) k
              (sym ((==_iff seq (i / cs)).0 same)) in
          let e : seq * cs + (i - seq * cs) ≡ i = omega arith in
          ap copied (sym e)
          ∙ get_or-write_at_inside (seq * cs) (piece cs text seq) c.buf (i - seq * cs) room
              (omega (arith, len))
          ∙ get_or-piece cs text seq (i - seq * cs) (omega arith)
          ∙ ap (λ j. get_or text j 0) e
      go (inr other) = elim (Bool-cases (ltb i (seq * cs))) [
        | inl before ↦
            get_or-write_at_before (seq * cs) (piece cs text seq) c.buf i room (ground arith)
            ∙ earlier other
        | inr after ↦
            get_or-write_at_behind (seq * cs) (piece cs text seq) c.buf i room
              (beyond i other (ground arith))
            ∙ earlier other
      ]

  counted :
      is_seen c seq ≡ false → (c.have + 1) % 2 ^ 32 ≡ count_below (is_seen stored_chunk) c.expect
  counted fresh = omega (
    arith,
    count_below_more (is_seen c) (is_seen stored_chunk) c.expect seq
        (expected c cs text seq h inside) fresh seen_after,
    count_below-le (is_seen c) c.expect,
    h.count,
    h.laid.few,
  )

  stored-Holds : is_seen c seq ≡ false → Holds cs text stored_chunk
  unfolding stored_chunk store_chunk
  stored-Holds fresh = record {
    laid = store_chunk-IsLaid c seq (piece cs text seq) h.laid fits;
    size = h.size;
    total = h.total;
    bytes = store_chunk-HasBytes c seq (piece cs text seq) h.bytes;
    count = counted fresh;
    placed = stored_byte;
  }

  -- What vl_chunk_feed does with this chunk
  pub feed_piece :
      (c' : Chunk) × (chunk_feed
          (some c)
          seq
          (some (piece cs text seq))
          (length (piece cs text seq))
        ≡ (ok, some c'))
      × Holds cs text c'
      × (c'.expect ≡ c.expect)
      × ((q : ℕ) → q < c.expect → is_seen c' q ≡ (seq == q || is_seen c q))
  unfolding feed_at
  feed_piece =
      let early : leb c.expect seq ≡ false =
        let k = expected c cs text seq h inside in ground arith in
      let exact : (length (piece cs text seq) != wanted c (offset c seq)) ≡ false =
        let e = (want_lem c cs text seq h inside) in ground arith in
      elim (Bool-cases (is_seen c seq)) [
        | inl old ↦ (
          c,
          armed_feed c seq _ _ h.laid.armed
              (rw (early, exact, old, (same_piece c cs text seq h inside old)) refl),
          h,
          refl,
          λ q k. again old q,
        )
        | inr fresh ↦ (
          stored_chunk,
          armed_feed c seq _ _ h.laid.armed (
              rw
                (
                  early,
                  exact,
                  fresh,
                  take_all (length (piece cs text seq)) (piece cs text seq) (omega arith),
                )
                (unfold stored_chunk in refl)),
          stored-Holds fresh,
          unfold stored_chunk store_chunk in refl,
          seen_after,
        )
      ]
    where
      again : is_seen c seq ≡ true → (q : ℕ) → is_seen c q ≡ (seq == q || is_seen c q)
      again old q = elim (Bool-cases (seq == q)) [
        | inl same ↦ ap (is_seen c) (sym ((==_iff seq q).0 same)) ∙ old ∙ rw same
        | inr other ↦ rw other
      ]
