-- ===== src/Hash/Stream.antt =====
-- The buffered update holds the message so far, however the message is cut into pieces.
pub mod Buffer
use vecti_license.Base.{
  ℕ, zero, suc, ◌+◌, ◌-◌, ◌*◌, ◌<◌, ◌≤◌, List, [], ◌∷◌, ◌++◌, ◌≡◌, refl, sym, ap, ◌∙◌,
}
use vecti_license.Base.{
  length, length-append, take, drop, length-take, length-drop, arith, min, subst, ap₂, ◌≢◌,
}
use vecti_license.Base.{
  take-append-drop, ltb, Bool-cases, ltb→lt, ltb-false→le, inl, inr, ◌==◌, if◌then◌else◌,
}
use vecti_license.Base.{==_iff, take-append_exact, take_all, drop_all, length-eq-zero}
use vecti_license.Hash.{Ctx, write_at, fill, whole_blocks, keep_rest, absorb}
use vecti_license.Hash.Blocks.{compress_blocks, compress_blocks-append, Splits, whole_blocks-Splits}
use mathlib.Core.List.{append_assoc, append-nil}
use Buffer.{length-write_at, take-write_at}

module _ {S : Type 0} (block_len : ℕ) (compress : S → List ℕ → S) (init : S) where
  -- The context has compressed the whole blocks of `msg` and buffers the rest.
  pub record Holds (msg : List ℕ) (c : Ctx S) : Type 0 where
    pub whole : List ℕ
    pub blocks : ℕ
    pub sized : length whole ≡ blocks * block_len
    pub split : msg ≡ whole ++ take c.buffer_len c.buffer
    pub compressed : c.state ≡ compress_blocks block_len compress blocks init whole
    pub partial : c.buffer_len < block_len
    pub buffered : length c.buffer ≡ block_len

  -- From an empty buffer: whole blocks, then the rest is kept.
  after_fill :
      (msg p : List ℕ) (c : Ctx S)
      → Holds msg c
      → c.buffer_len ≡ 0
      → (st : S) (rest : List ℕ) → Splits block_len compress c.state p (st, rest)
      → Holds (msg ++ p) (keep_rest block_len compress (record c { state = st }) rest)
  unfolding keep_rest
  after_fill msg p c h empty st rest s = elim (Bool-cases (ltb 0 (length rest))) [
    | inl some_left ↦ rw some_left (record {
      whole = h.whole ++ s.whole;
      blocks = h.blocks + s.blocks;
      sized = sizes;
      split =
          joined
          ∙ ap (λ t. (h.whole ++ s.whole) ++ t) (sym (take-append_exact (length rest) rest _ refl));
      compressed = states;
      partial = s.rest_short;
      buffered =
          length-write_at 0 rest c.buffer (omega (arith, s.rest_short, h.buffered)) ∙ h.buffered;
    })
    | inr none_left ↦ rw none_left (record {
      whole = h.whole ++ s.whole;
      blocks = h.blocks + s.blocks;
      sized = sizes;
      split =
          joined
          ∙ ap (λ t. (h.whole ++ s.whole) ++ t)
              (length-eq-zero rest (omega (arith, ltb-false→le 0 (length rest) none_left))
                ∙ sym (ap (λ n. take n c.buffer) empty));
      compressed = states;
      partial = h.partial;
      buffered = h.buffered;
    })
  ]
    where
      sizes : length (h.whole ++ s.whole) ≡ (h.blocks + s.blocks) * block_len
      sizes = omega (arith, length-append h.whole s.whole, h.sized, s.sized)

      at_start : msg ≡ h.whole
      at_start = h.split ∙ ap (λ n. h.whole ++ take n c.buffer) empty ∙ append-nil h.whole

      joined : msg ++ p ≡ (h.whole ++ s.whole) ++ rest
      joined = ap₂ ◌++◌ at_start s.split ∙ sym (append_assoc h.whole s.whole rest)

      states :
          st ≡ compress_blocks block_len compress (h.blocks + s.blocks) init (h.whole ++ s.whole)
      states =
          s.compressed
          ∙ ap (λ x. compress_blocks block_len compress s.blocks x s.whole) h.compressed
          ∙ sym (
              compress_blocks-append block_len compress h.blocks s.blocks init h.whole s.whole
                h.sized)

  from_empty :
      (msg p : List ℕ) (c : Ctx S)
      → Holds msg c
      → c.buffer_len ≡ 0
      → let (st, rest) = whole_blocks block_len compress (length p) c.state p in
        Holds (msg ++ p) (keep_rest block_len compress (record c { state = st }) rest)
  from_empty msg p c h empty = after_fill msg p c h empty _ _ (
      whole_blocks-Splits block_len compress (length p) c.state p (omega (arith, h.partial))
        (omega arith))

  -- The buffer is completed by the front of `p`, and compressed.
  completed :
      (msg p : List ℕ) (c : Ctx S) (n : ℕ)
      → Holds msg c
      → n ≤ length p
      → c.buffer_len + n ≡ block_len
      → Holds (msg ++ take n p) (record c {
        state = compress c.state (write_at c.buffer_len (take n p) c.buffer);
        buffer = write_at c.buffer_len (take n p) c.buffer;
        buffer_len = 0;
      })
  unfolding compress_blocks
  completed msg p c n h avail full = record {
    whole = h.whole ++ block;
    blocks = h.blocks + 1;
    sized = omega (arith, length-append h.whole block, block_sized, h.sized);
    split =
        ap (λ m. m ++ take n p) h.split
        ∙ append_assoc h.whole (take c.buffer_len c.buffer) (take n p)
        ∙ ap (λ b. h.whole ++ b) (sym block_bytes)
        ∙ sym (append-nil (h.whole ++ block));
    compressed =
        ap₂ compress h.compressed (sym (take_all block_len block (omega (arith, block_sized))))
        ∙ sym (compress_blocks-append block_len compress h.blocks 1 init h.whole block h.sized);
    partial = omega (arith, h.partial);
    buffered = block_sized;
  }
    where
      block : List ℕ
      block = write_at c.buffer_len (take n p) c.buffer

      taken : length (take n p) ≡ n
      taken = omega (arith, length-take n p)

      fits : c.buffer_len + length (take n p) ≤ length c.buffer
      fits = omega (arith, taken, h.buffered)

      block_sized : length block ≡ block_len
      block_sized = length-write_at c.buffer_len (take n p) c.buffer fits ∙ h.buffered

      block_bytes : block ≡ take c.buffer_len c.buffer ++ take n p
      block_bytes =
          sym
            (take_all (c.buffer_len + length (take n p)) block (omega (arith, taken, block_sized)))
          ∙ take-write_at c.buffer_len (take n p) c.buffer fits

  -- The buffer takes all of `p` and is not complete.
  extended :
      (msg p : List ℕ) (c : Ctx S)
      → Holds msg c
      → c.buffer_len + length p < block_len
      → Holds (msg ++ p) (record c {
        buffer = write_at c.buffer_len p c.buffer;
        buffer_len = c.buffer_len + length p;
      })
  extended msg p c h room = record {
    whole = h.whole;
    blocks = h.blocks;
    sized = h.sized;
    split =
        ap (λ m. m ++ p) h.split
        ∙ append_assoc h.whole (take c.buffer_len c.buffer) p
        ∙ ap (λ b. h.whole ++ b)
            (sym (take-write_at c.buffer_len p c.buffer (omega (arith, h.buffered))));
    compressed = h.compressed;
    partial = room;
    buffered = length-write_at c.buffer_len p c.buffer (omega (arith, h.buffered)) ∙ h.buffered;
  }

  -- Absorbing bytes into a context that holds a message leaves it holding the two joined.
  pub absorb-Holds :
      (msg p : List ℕ) (c : Ctx S) → Holds msg c → Holds (msg ++ p) (absorb block_len compress c p)
  unfolding absorb
  absorb-Holds msg p c h = elim (Bool-cases (ltb 0 c.buffer_len)) [
    | inr empty ↦ rw empty (from_empty msg p c h (omega (arith, ltb-false→le 0 c.buffer_len empty)))
    | inl begun ↦
        elim (Bool-cases (c.buffer_len + min (block_len - c.buffer_len) (length p) == block_len)) [
          | inl full ↦
              rw (begun, full, ← rejoined (min (block_len - c.buffer_len) (length p)))
                (from_empty (msg ++ take (min (block_len - c.buffer_len) (length p)) p)
                  (drop (min (block_len - c.buffer_len) (length p)) p) _
                  (completed msg p c (min (block_len - c.buffer_len) (length p)) h (omega arith)
                    (ground arith))
                  refl)
          | inr room ↦
              rw
                (
                  begun,
                  room,
                  all_taken (ground arith),
                  take_all (length p) p (omega arith),
                  drop_all (length p) p (omega arith),
                )
                (extended msg p c h (omega (arith, h.partial, not_full (ground arith))))
        ]
  ]
    where
      rejoined : (n : ℕ) → (msg ++ take n p) ++ drop n p ≡ msg ++ p
      rejoined n =
          append_assoc msg (take n p) (drop n p) ∙ ap (λ t. msg ++ t) (take-append-drop n p)

      not_full :
          c.buffer_len + min (block_len - c.buffer_len) (length p) ≢ block_len
          → c.buffer_len + length p < block_len
      not_full ne = omega (arith, h.partial)

      all_taken :
          c.buffer_len + min (block_len - c.buffer_len) (length p) ≢ block_len
          → min (block_len - c.buffer_len) (length p) ≡ length p
      all_taken ne = omega (arith, h.partial)

  -- A context with nothing in its buffer holds the empty message.
  pub Holds-start :
      (c : Ctx S)
      → 0 < block_len
      → c.state ≡ init
      → c.buffer_len ≡ 0
      → length c.buffer ≡ block_len
      → Holds [] c
  unfolding compress_blocks
  Holds-start c pos fresh empty buffered = record {
    whole = [];
    blocks = 0;
    sized = omega arith;
    split = sym (ap (λ n. take n c.buffer) empty);
    compressed = fresh;
    partial = omega arith;
    buffered = buffered;
  }

  -- The message held does not depend on the count.
  pub Holds-count :
      (msg : List ℕ) (c : Ctx S) (n : ℕ) → Holds msg c → Holds msg (record c { count = n })
  Holds-count msg c n h = record {
    whole = h.whole;
    blocks = h.blocks;
    sized = h.sized;
    split = h.split;
    compressed = h.compressed;
    partial = h.partial;
    buffered = h.buffered;
  }

  count-fill : (c : Ctx S) (p : List ℕ) → (fill block_len compress c p).0.count ≡ c.count
  unfolding fill
  count-fill c p = elim (Bool-cases (ltb 0 c.buffer_len)) [
    | inr empty ↦ rw empty
    | inl begun ↦
        elim (Bool-cases (c.buffer_len + min (block_len - c.buffer_len) (length p) == block_len)) [
          | inl full ↦ rw (begun, full)
          | inr room ↦ rw (begun, room)
        ]
  ]

  count-keep_rest : (c : Ctx S) (p : List ℕ) → (keep_rest block_len compress c p).count ≡ c.count
  unfolding keep_rest
  count-keep_rest c p = elim (Bool-cases (ltb 0 (length p))) [
    | inl more ↦ rw more
    | inr done ↦ rw done
  ]

  pub count-absorb : (c : Ctx S) (p : List ℕ) → (absorb block_len compress c p).count ≡ c.count
  count-absorb c p = unfold absorb in (count-keep_rest _ _ ∙ count-fill c p)
