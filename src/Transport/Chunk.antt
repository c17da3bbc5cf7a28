-- ===== src/Transport/Chunk.antt =====
-- transport/vl_chunk.c: the reassembly of a text from chunks of one size.
pub mod Reset
pub mod Feed
pub mod Bitmap
pub mod Slices
pub mod Holds
mod Stored
mod Complete
pub mod Deliver
mod Tests
use vecti_license.Base.{
  ℕ, ◌+◌, ◌-◌, ◌*◌, ◌/◌, ◌%◌, ◌^◌, ◌==◌, ◌!=◌, leb, ltb, ◌&&◌, ◌||◌, if◌then◌else◌,
}
use vecti_license.Base.{Bool, true, false, Option, none, some, bit_and, bit_or}
use vecti_license.Base.{List, [], ◌∷◌, ◌++◌, set, get_or, take, drop, replicate}
use vecti_license.Hash.{write_at}
use vecti_license.Api.{Status, ok, invalid_arg, not_found, bad_format, buffer_too_small}

-- VL_CHUNK_MAX_LEN, VL_CHUNK_BITMAP_LEN
abbrev pub chunk_max_len : ℕ
chunk_max_len = 192

abbrev pub chunk_bitmap_len : ℕ
chunk_bitmap_len = 24

-- vl_chunk_t; `armed` is a uint8_t member that holds 0 or 1.
pub record Chunk : Type 0 where
  pub buf : List ℕ
  pub seen : List ℕ
  pub chunk_size : ℕ
  pub total_len : ℕ
  pub expect : ℕ
  pub have : ℕ
  pub armed : Bool

-- memset(c, 0, sizeof *c)
abbrev pub zero_chunk : Chunk
zero_chunk = record {
  buf = replicate 193 0;
  seen = replicate chunk_bitmap_len 0;
  chunk_size = 0;
  total_len = 0;
  expect = 0;
  have = 0;
  armed = false;
}

-- vl_chunk_reset, with a size_t of any width that holds the arguments
unfoldable pub chunk_reset : Option Chunk → ℕ → ℕ → Status × Option Chunk
chunk_reset none chunk_size total_len = (invalid_arg, none)
chunk_reset (some c) chunk_size total_len =
    let cs = chunk_size % 2 ^ 32 in
    if cs == 0 || cs != chunk_size
    then (invalid_arg, some zero_chunk)
    else if total_len == 0 || ltb chunk_max_len total_len
    then (invalid_arg, some zero_chunk)
    else (
      ok,
      some (record zero_chunk {
        chunk_size = cs;
        total_len = total_len % 2 ^ 32;
        expect = ((total_len - 1) / cs + 1) % 2 ^ 32;
        armed = true;
      }),
    )

abbrev pub is_null : Option (List ℕ) → Bool
is_null none = true
is_null (some data') = false

abbrev pub bytes_of : Option (List ℕ) → List ℕ
bytes_of none = []
bytes_of (some data') = data'

-- seq * c->chunk_size
abbrev pub offset : Chunk → ℕ → ℕ
offset c seq = seq * c.chunk_size % 2 ^ 32

-- `want`, the length that the chunk at `off` must have
pub wanted : Chunk → ℕ → ℕ
wanted c off =
    let want = (c.total_len + 2 ^ 32 - off) % 2 ^ 32 in
    if ltb c.chunk_size want then c.chunk_size else want

abbrev pub mask : ℕ → ℕ
mask seq = 2 ^ bit_and seq 7 % 2 ^ 8

abbrev pub is_seen : Chunk → ℕ → Bool
is_seen c seq = bit_and (get_or c.seen (seq / 2 ^ 3) 0) (mask seq) != 0

-- memcmp(c->buf + off, data, len) == 0
pub same_bytes : List ℕ → List ℕ → ℕ → Bool
same_bytes (x ∷ xs) (y ∷ ys) len =
    let rest = same_bytes xs ys (len - 1) in
    if len == 0 then true else if x == y then rest else false
same_bytes xs ys len = len == 0

-- memcpy, the bit of the chunk, and the count
pub store_chunk : Chunk → ℕ → List ℕ → Chunk
store_chunk c seq data' = record c {
  buf = write_at (offset c seq) data' c.buf;
  seen = set c.seen (seq / 2 ^ 3) (bit_or (get_or c.seen (seq / 2 ^ 3) 0) (mask seq) % 2 ^ 8);
  have = (c.have + 1) % 2 ^ 32;
}

-- From the check of `seq` on
pub feed_at : Chunk → ℕ → List ℕ → ℕ → Status × Chunk
feed_at c seq data' len =
    if leb c.expect seq
    then (bad_format, c)
    else if len != wanted c (offset c seq)
    then (bad_format, c)
    else if is_seen c seq
    then (if same_bytes (drop (offset c seq) c.buf) data' len then ok else bad_format, c)
    else (ok, store_chunk c seq (take len data'))

-- vl_chunk_feed: `len` is the caller's count of the bytes at `data`.
unfoldable pub chunk_feed : Option Chunk → ℕ → Option (List ℕ) → ℕ → Status × Option Chunk
chunk_feed none seq data' len = (invalid_arg, none)
chunk_feed (some c) seq data' len =
    let (st, c') = feed_at c seq (bytes_of data') len in
    if c.armed
    then if is_null data' && len != 0 then (invalid_arg, some c) else (st, some c')
    else (invalid_arg, some c)

-- vl_chunk_complete: the status, what is written at `out`, and *out_len. The output is given by its
-- capacity, and `false` stands for a NULL out_len.
unfoldable pub chunk_complete : Option Chunk → Option ℕ → Bool → Status × Option (List ℕ) × Option ℕ
chunk_complete none cap counts = (invalid_arg, none, none)
chunk_complete (some c) none counts = (invalid_arg, none, none)
chunk_complete (some c) (some cap) false = (invalid_arg, none, none)
chunk_complete (some c) (some cap) true =
    if c.armed
    then if c.have != c.expect
      then (not_found, none, some 0)
      else if ltb cap (c.total_len + 1)
      then (buffer_too_small, none, some 0)
      else (ok, some (take c.total_len c.buf ++ 0 ∷ []), some c.total_len)
    else (invalid_arg, none, some 0)
