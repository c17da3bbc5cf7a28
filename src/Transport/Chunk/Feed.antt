-- ===== src/Transport/Chunk/Feed.antt =====
-- transport/vl_chunk.c: an accepted chunk is written inside the buffer, at its own place.
use vecti_license.Base.{
  ℕ, ◌+◌, ◌-◌, ◌*◌, ◌/◌, ◌%◌, ◌^◌, ◌<◌, ◌≤◌, ◌≡◌, ◌≢◌, ◌⊎◌, inl, inr, refl, ap, ◌∙◌, arith, min,
}
use vecti_license.Base.{
  true, false, Bool-cases, Option, some, List, ◌++◌, if◌then◌else◌, length, take, drop, ◌!=◌, leb,
  ltb, length-set, length-take, length-append, length-drop, leb-false→lt, take_all, leb→le,
}
use vecti_license.Hash.{write_at}
use vecti_license.Api.{Status, ok, bad_format}
use vecti_license.Transport.Chunk.{
  Chunk, chunk_feed, feed_at, wanted, offset, store_chunk, is_seen, same_bytes, chunk_max_len,
}
use native.Mathlib.Nat.{mul-le-mul_right}
use vecti_license.Transport.Chunk.Reset.{IsLaid}

in_place : (c : Chunk) (seq : ℕ) → IsLaid c → seq < c.expect → seq * c.chunk_size < c.total_len
in_place c seq laid h =
    omega (arith, laid.last_starts, mul-le-mul_right c.chunk_size (below seq c.expect h))
  where
    below : (a b : ℕ) → a < b → a ≤ b - 1
    below a b h = omega arith

pub wanted_lem :
    (c : Chunk) (seq : ℕ)
    → IsLaid c
    → seq < c.expect
    → (offset c seq ≡ seq * c.chunk_size)
      × (wanted c (offset c seq) ≡ min c.chunk_size (c.total_len - seq * c.chunk_size))
unfolding wanted
wanted_lem c seq laid h =
    let start = in_place c seq laid h in
    let plain : offset c seq ≡ seq * c.chunk_size = omega (arith, start, laid.fits) in
    (plain, rw plain (clip (seq * c.chunk_size) c.total_len c.chunk_size start laid.fits))
  where
    clip :
        (off total cs : ℕ)
        → off < total
        → total ≤ chunk_max_len
        → (if ltb cs ((total + 2 ^ 32 - off) % 2 ^ 32) then cs else (total + 2 ^ 32 - off) % 2 ^ 32)
          ≡ min cs (total - off)
    clip off total cs h k =
        let want : (total + 2 ^ 32 - off) % 2 ^ 32 ≡ total - off = omega arith in
        rw want (ground arith)

pub store_chunk-IsLaid :
    (c : Chunk) (seq : ℕ) (data' : List ℕ)
    → IsLaid c
    → offset c seq + length data' ≤ c.total_len
    → IsLaid (store_chunk c seq data')
unfolding store_chunk
store_chunk-IsLaid c seq data' laid inside = record {
  armed = laid.armed;
  sized = laid.sized;
  filled = laid.filled;
  fits = laid.fits;
  last_starts = laid.last_starts;
  covers = laid.covers;
  some_chunks = laid.some_chunks;
  few = laid.few;
  buffer = omega (
    arith,
    length-append (take (offset c seq) c.buf) (data' ++ drop (offset c seq + length data') c.buf),
    length-append data' (drop (offset c seq + length data') c.buf),
    length-take (offset c seq) c.buf,
    length-drop (offset c seq + length data') c.buf,
    laid.buffer,
    laid.fits,
    inside,
  );
  bitmap = length-set c.seen (seq / 2 ^ 3) _ ∙ laid.bitmap;
}

placed :
    (c : Chunk) (seq : ℕ) (data' : List ℕ)
    → offset c seq ≡ seq * c.chunk_size
    → (store_chunk c seq data').buf ≡ write_at (seq * c.chunk_size) data' c.buf
unfolding store_chunk
placed c seq data' e = ap (λ o. write_at o data' c.buf) e

-- What a chunk with `len` bytes at `data` does to an armed state
pub data Feeds (c : Chunk) (seq : ℕ) (data' : List ℕ) (got : Status × Option Chunk) : Type 0 where
  rejected :
      (c.expect ≤ seq)
        ⊎ ((length data' ≢ min c.chunk_size (c.total_len - seq * c.chunk_size))
            ⊎ ((is_seen c seq ≡ true)
                × (same_bytes (drop (seq * c.chunk_size) c.buf) data' (length data') ≡ false)))
      → got ≡ (bad_format, some c)
      → Feeds c seq data' got
  repeated :
      is_seen c seq ≡ true
      → same_bytes (drop (seq * c.chunk_size) c.buf) data' (length data') ≡ true
      → got ≡ (ok, some c)
      → Feeds c seq data' got
  stored :
      (c' : Chunk)
      → got ≡ (ok, some c')
      → seq < c.expect
      → is_seen c seq ≡ false
      → length data' ≡ min c.chunk_size (c.total_len - seq * c.chunk_size)
      → c'.buf ≡ write_at (seq * c.chunk_size) data' c.buf
      → seq * c.chunk_size + length data' ≤ c.total_len
      → IsLaid c'
      → Feeds c seq data' got

-- A chunk that is fed to an armed state with all its bytes is rejected with VL_ERR_BAD_FORMAT if its
-- number or its length is wrong or if it differs from what has been received there, and changes
-- nothing; or it is one that has been received, and changes nothing; or it has the length of its
-- position, and is stored there, inside the text, in a state that is as well laid out.
pub chunk_feed_in_place :
    (c : Chunk) (seq : ℕ) (data' : List ℕ)
    → IsLaid c
    → Feeds c seq data' (chunk_feed (some c) seq (some data') (length data'))
unfolding chunk_feed feed_at wanted
chunk_feed_in_place c seq data' laid = elim (Bool-cases (leb c.expect seq)) [
  | inl late ↦ rejected (inl (leb→le _ _ late)) (rw (laid.armed, chunk_feed, feed_at, late) refl)
  | inr early ↦
      let h = leb-false→lt c.expect seq early in
      let (plain, want) = wanted_lem c seq laid h in
      elim (Bool-cases (length data' != wanted c (offset c seq))) [
        | inl wrong ↦
            rejected (inr (inl (differs _ _ want wrong)))
              (rw (laid.armed, chunk_feed, feed_at, early, wrong) refl)
        | inr right ↦ elim (Bool-cases (is_seen c seq)) [
          | inl old ↦
              elim (Bool-cases (same_bytes (drop (offset c seq) c.buf) data' (length data'))) [
                | inl same ↦
                    repeated old (rw plain at same)
                      (rw (laid.armed, chunk_feed, feed_at, early, right, old, same) refl)
                | inr other ↦
                    rejected (inr (inr (old, rw plain at other)))
                      (rw (laid.armed, chunk_feed, feed_at, early, right, old, other) refl)
              ]
          | inr new ↦
              let exact = equals _ _ want right in
              let start = in_place c seq laid h in
              let inside : seq * c.chunk_size + length data' ≤ c.total_len =
                omega (arith, exact, start) in
              stored (store_chunk c seq data')
                (rw
                  (
                    laid.armed,
                    chunk_feed,
                    feed_at,
                    early,
                    right,
                    new,
                    take_all (length data') data' (omega arith),
                  )
                  refl)
                h new exact (placed c seq data' plain) inside
                (store_chunk-IsLaid c seq data' laid (omega (arith, plain, inside)))
        ]
      ]
]
  where
    differs : (n m : ℕ) {k : ℕ} → m ≡ k → (n != m) ≡ true → n ≢ k
    differs n m e w = ground arith

    equals : (n m : ℕ) {k : ℕ} → m ≡ k → (n != m) ≡ false → n ≡ k
    equals n m e w = ground arith
