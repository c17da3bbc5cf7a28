-- ===== src/Transport/Chunk/Reset.antt =====
-- transport/vl_chunk.c: a reset lays the chunks out over the text.
use vecti_license.Base.{ℕ, ◌+◌, ◌-◌, ◌*◌, ◌/◌, ◌%◌, ◌^◌, ◌<◌, ◌≤◌, ◌≡◌, inl, inr, refl, arith}
use vecti_license.Base.{
  true, false, Bool-cases, Option, some, length, ◌==◌, ◌!=◌, ltb, ◌||◌, subst, replicate,
}
use vecti_license.Api.{Status, ok, invalid_arg}
use vecti_license.Transport.Chunk.{Chunk, chunk_reset, chunk_max_len, chunk_bitmap_len, zero_chunk}
use native.Mathlib.Nat.{div-add-mod', div-mul-le_self, mod-lt, div-le_self}

-- An armed state: the chunks tile a text that fits the buffer.
pub record IsLaid (c : Chunk) : Type 0 where
  pub armed : c.armed ≡ true
  pub sized : 0 < c.chunk_size
  pub filled : 0 < c.total_len
  pub fits : c.total_len ≤ chunk_max_len
  pub last_starts : (c.expect - 1) * c.chunk_size < c.total_len
  pub covers : c.total_len ≤ c.expect * c.chunk_size
  pub some_chunks : 0 < c.expect
  pub few : c.expect ≤ chunk_max_len
  pub buffer : length c.buf ≡ 193
  pub bitmap : length c.seen ≡ chunk_bitmap_len

tiles :
    (cs total : ℕ)
    → 0 < cs
    → 0 < total
    → ((total - 1) / cs * cs < total)
      × (total ≤ ((total - 1) / cs + 1) * cs)
      × ((total - 1) / cs < total)
tiles cs total h k = (
  omega (arith, div-mul-le_self (total - 1) cs),
  omega (arith, div-add-mod' (total - 1) cs, mod-lt (total - 1) h, one_more ((total - 1) / cs) cs),
  omega (arith, div-le_self (total - 1) cs),
)
  where
    one_more : (q cs : ℕ) → (q + 1) * cs ≡ q * cs + cs
    one_more q cs = omega arith

-- What a reset makes of a chunk size and a length
pub data Resets (chunk_size total_len : ℕ) (got : Status × Option Chunk) : Type 0 where
  refused :
      ¬ ((0 < chunk_size) × (chunk_size < 2 ^ 32) × (0 < total_len) × (total_len ≤ chunk_max_len))
      → got ≡ (invalid_arg, some zero_chunk)
      → Resets chunk_size total_len got
  lays_out :
      (c : Chunk)
      → got ≡ (ok, some c)
      → IsLaid c
      → c.chunk_size ≡ chunk_size
      → c.total_len ≡ total_len
      → c.have ≡ 0
      → c.seen ≡ replicate chunk_bitmap_len 0
      → Resets chunk_size total_len got

-- A reset of a chunk state refuses a chunk size or a length that is 0 or too large, and leaves the
-- state disarmed; or it succeeds, and then the sizes are
-- those given, no chunk has been received, and the chunks tile the text, which fits the buffer.
pub chunk_reset_lays_out :
    (c : Chunk) (chunk_size total_len : ℕ)
    → Resets chunk_size total_len (chunk_reset (some c) chunk_size total_len)
unfolding chunk_reset
chunk_reset_lays_out c chunk_size total_len =
    let cs = chunk_size % 2 ^ 32 in
    elim (Bool-cases (cs == 0 || cs != chunk_size)) [
      | inl bad ↦ refused (λ p. wrong_size chunk_size p.0 p.1 bad) (rw bad refl)
      | inr good ↦ elim (Bool-cases (total_len == 0 || ltb chunk_max_len total_len)) [
        | inl bad ↦ refused (λ p. wrong_length total_len p.2 p.3 bad) (rw (good, bad) refl)
        | inr fine ↦
            let same : cs ≡ chunk_size = ground arith in
            let some_size : 0 < cs = ground arith in
            let (few, short) = lengths total_len fine in
            let (starts, covers, count) = tiles cs total_len some_size few in
            let total_same : total_len % 2 ^ 32 ≡ total_len = omega (arith, short) in
            let expect_same : ((total_len - 1) / cs + 1) % 2 ^ 32 ≡ (total_len - 1) / cs + 1 =
              omega (arith, short, count) in
            let c' : Chunk = record zero_chunk {
              chunk_size = cs;
              total_len = total_len;
              expect = (total_len - 1) / cs + 1;
              armed = true;
            } in
            lays_out c' (rw (good, fine, total_same, expect_same) refl)
              (record {
                armed = refl;
                sized = some_size;
                filled = few;
                fits = short;
                last_starts = subst (λ n. n * cs < total_len) (omega arith) starts;
                covers = covers;
                some_chunks = omega arith;
                few = omega (arith, count, short);
                buffer = refl;
                bitmap = refl;
              })
              same refl refl refl
      ]
    ]
  where
    lengths : (n : ℕ) → (n == 0 || ltb chunk_max_len n) ≡ false → (0 < n) × (n ≤ chunk_max_len)
    lengths n h = (ground arith, ground arith)

    wrong_size : (n : ℕ) → 0 < n → n < 2 ^ 32 → (n % 2 ^ 32 == 0 || n % 2 ^ 32 != n) ≡ true → ⊥
    wrong_size n h k e = let same : n % 2 ^ 32 ≡ n = omega arith in ground arith

    wrong_length : (n : ℕ) → 0 < n → n ≤ chunk_max_len → (n == 0 || ltb chunk_max_len n) ≡ true → ⊥
    wrong_length n h k e = ground arith
