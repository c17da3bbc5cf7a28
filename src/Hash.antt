-- ===== src/Hash.antt =====
-- The block buffering that core/vl_sha256.c and core/vl_sha512.c share line for line, over the block
-- length and the compression function: 64 bytes and `sha256_compress` in the one, 128 bytes and
-- `sha512_compress` in the other. `count` is `bit_count` in the one and `byte_count` in the other.
pub mod Blocks
pub mod Stream
pub mod Padding
pub mod Fields
use vecti_license.Base.{ℕ, zero, suc, ◌+◌, ◌-◌, ◌*◌, ◌/◌, ◌%◌, ◌^◌, min, List, [], ◌∷◌, ◌++◌}
use vecti_license.Base.{
  length, take, drop, replicate, set, ltb, leb, ◌==◌, bit_and, bit_or, if◌then◌else◌,
}

-- vl_sha256_ctx_t, vl_sha512_ctx_t
pub record Ctx (S : Type 0) : Type 0 where
  pub state : S
  pub count : ℕ
  pub buffer : List ℕ
  pub buffer_len : ℕ

-- memcpy(buffer + at, bytes, ...)
abbrev pub write_at : ℕ → List ℕ → List ℕ → List ℕ
write_at at bytes buffer = take at buffer ++ (bytes ++ drop (at + length bytes) buffer)

module _ {S : Type 0} (block_len : ℕ) (compress : S → List ℕ → S) where
  -- `if (ctx->buffer_len > 0u) { ... }`, with what is left of the data
  unfoldable pub fill : Ctx S → List ℕ → Ctx S × List ℕ
  fill c p =
      if ltb 0 c.buffer_len
      then (let n = min (block_len - c.buffer_len) (length p) in
          let buffer' = write_at c.buffer_len (take n p) c.buffer in
          if c.buffer_len + n == block_len
          then (
            record c { state = compress c.state buffer'; buffer = buffer'; buffer_len = 0 },
            drop n p,
          )
          else (record c { buffer = buffer'; buffer_len = c.buffer_len + n }, drop n p))
      else (c, p)

  -- `while (len >= BLOCK_LEN)`; every round takes a block, so `length p` rounds are enough
  unfoldable pub whole_blocks : ℕ → S → List ℕ → S × List ℕ
  whole_blocks zero st p = (st, p)
  whole_blocks (suc fuel) st p =
      let next = whole_blocks fuel (compress st (take block_len p)) (drop block_len p) in
      if leb block_len (length p) then next else (st, p)

  -- `if (len > 0u) { ... }`
  unfoldable pub keep_rest : Ctx S → List ℕ → Ctx S
  keep_rest c p =
      if ltb 0 (length p)
      then record c { buffer = write_at 0 p c.buffer; buffer_len = length p }
      else c

  -- The update after its guards and its count
  unfoldable pub absorb : Ctx S → List ℕ → Ctx S
  unfolding fill whole_blocks keep_rest
  absorb c data' =
      let (c', p) = fill c data' in
      let (st, rest) = whole_blocks (length p) c'.state p in
      keep_rest (record c' { state = st }) rest

  -- The final block or two: 0x80, zeros up to `limit`, then the length field that the caller gives.
  unfoldable pub close : ℕ → List ℕ → Ctx S → S
  close limit field c =
      let marked = set c.buffer c.buffer_len 0x80 in
      let n = c.buffer_len + 1 in
      if ltb limit n
      then (let full = write_at n (replicate (block_len - n) 0) marked in
          compress (compress c.state full)
            (write_at limit field (write_at 0 (replicate limit 0) full)))
      else compress c.state (write_at limit field (write_at n (replicate (limit - n) 0) marked))

-- The eight words of a hash state, `state[0]` to `state[7]`, and the working variables a to h
pub record Words : Type 0 where
  pub a : ℕ
  pub b : ℕ
  pub c : ℕ
  pub d : ℕ
  pub e : ℕ
  pub f : ℕ
  pub g : ℕ
  pub h : ℕ

abbrev pub words_list : Words → List ℕ
words_list v = v.a ∷ v.b ∷ v.c ∷ v.d ∷ v.e ∷ v.f ∷ v.g ∷ v.h ∷ []

-- A big-endian word of the next `n` bytes, and the next `left` words of `n` bytes each
load_word : ℕ → ℕ → List ℕ → ℕ
load_word zero acc bytes = acc
load_word (suc n) acc [] = acc
load_word (suc n) acc (x ∷ bytes) = load_word n (bit_or (acc * 2 ^ 8) x) bytes

unfoldable pub load_words : ℕ → ℕ → List ℕ → List ℕ
unfolding load_word
load_words n zero bytes = []
load_words n (suc left) bytes = load_word n 0 bytes ∷ load_words n left (drop n bytes)

-- `n` bytes, the last one first: `b[n - 1] = v & 0xff; v >>= 8; ...`
unfoldable pub length_field : ℕ → ℕ → List ℕ
length_field zero v = []
length_field (suc n) v = length_field n (v / 2 ^ 8) ++ bit_and v 0xff ∷ []

-- The digest: every word as `n` big-endian bytes, `(uint8_t)(state[i] >> ...)`
store_word : ℕ → ℕ → List ℕ
store_word zero x = []
store_word (suc n) x = (x / 2 ^ (8 * n) % 2 ^ 8) ∷ store_word n x

store_all : ℕ → List ℕ → List ℕ
store_all n [] = []
store_all n (x ∷ xs) = store_word n x ++ store_all n xs

unfoldable pub store_words : ℕ → Words → List ℕ
unfolding store_word store_all
store_words n v = store_all n (words_list v)
