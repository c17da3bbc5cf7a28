-- ===== src/Transport/Chunk/Tests.antt =====
-- transport/vl_chunk.c: concrete runs, and the theorems at concrete inputs.
use vecti_license.Base.{ℕ, ◌≡◌, refl, arith, true, none, some, List, [], ◌∷◌, ◌++◌, replicate}
use vecti_license.Base.Table.{holds_below}
use vecti_license.Api.{ok, invalid_arg, not_found}
use vecti_license.Transport.Chunk.{
  Chunk, chunk_reset, chunk_feed, chunk_complete, feed_at, wanted, same_bytes, store_chunk,
  zero_chunk,
}
use vecti_license.Transport.Chunk.Reset.{Resets, IsLaid, chunk_reset_lays_out}
use vecti_license.Transport.Chunk.Feed.{Feeds, chunk_feed_in_place}
use vecti_license.Transport.Chunk.Deliver.{deliver, among, completed, chunks_reassemble}

abbrev seven : List ℕ
seven = b'A' ∷ b'B' ∷ b'C' ∷ b'D' ∷ b'E' ∷ b'F' ∷ b'G' ∷ []

-- Seven bytes in chunks of three
abbrev empty_chunks : Chunk
empty_chunks = record zero_chunk { chunk_size = 3; total_len = 7; expect = 3; armed = true }

reset_run : chunk_reset (some zero_chunk) 3 7 ≡ (ok, some empty_chunks)
unfolding chunk_reset
reset_run = refl

-- The last chunk first, then the others, with a repetition
reassembled :
    let c1 = (chunk_feed (some empty_chunks) 2 (some (b'G' ∷ [])) 1).1 in
    let c2 = (chunk_feed c1 0 (some (b'A' ∷ b'B' ∷ b'C' ∷ [])) 3).1 in
    let c3 = (chunk_feed c2 2 (some (b'G' ∷ [])) 1).1 in
    let c4 = (chunk_feed c3 1 (some (b'D' ∷ b'E' ∷ b'F' ∷ [])) 3).1 in
    chunk_complete c4 (some 8) true
    ≡ (ok, some (b'A' ∷ b'B' ∷ b'C' ∷ b'D' ∷ b'E' ∷ b'F' ∷ b'G' ∷ 0 ∷ []), some 7)
unfolding chunk_feed chunk_complete feed_at wanted same_bytes store_chunk
reassembled = refl

unarmed : chunk_feed (some zero_chunk) 0 (some (b'A' ∷ [])) 1 ≡ (invalid_arg, some zero_chunk)
unfolding chunk_feed
unarmed = refl

empty_chunks-IsLaid : IsLaid empty_chunks
empty_chunks-IsLaid = record {
  armed = refl;
  sized = omega arith;
  filled = omega arith;
  fits = omega arith;
  last_starts = omega arith;
  covers = omega arith;
  some_chunks = omega arith;
  few = omega arith;
  buffer = refl;
  bitmap = refl;
}

chunk_reset_lays_out_example : Resets 3 7 (chunk_reset (some zero_chunk) 3 7)
chunk_reset_lays_out_example = chunk_reset_lays_out zero_chunk 3 7

chunk_feed_in_place_example :
    Feeds empty_chunks 2 (b'G' ∷ []) (chunk_feed (some empty_chunks) 2 (some (b'G' ∷ [])) 1)
chunk_feed_in_place_example = chunk_feed_in_place empty_chunks 2 (b'G' ∷ []) empty_chunks-IsLaid

-- Seven bytes in chunks of three: the last one first, one of them twice
chunks_reassemble_example :
    ((deliver 3 seven (2 ∷ 0 ∷ 2 ∷ 1 ∷ []) (chunk_reset (some zero_chunk) 3 7).1).0
      ≡ replicate 4 ok)
    × (chunk_complete
          (deliver 3 seven (2 ∷ 0 ∷ 2 ∷ 1 ∷ []) (chunk_reset (some zero_chunk) 3 7).1).1
          (some 8)
          true
        ≡ completed 3 seven (2 ∷ 0 ∷ 2 ∷ 1 ∷ []) 8)
chunks_reassemble_example =
    chunks_reassemble zero_chunk 3 seven (2 ∷ 0 ∷ 2 ∷ 1 ∷ []) 8 (omega arith) (omega arith)
      (omega arith) (omega arith) (omega arith)

all_arrived : completed 3 seven (2 ∷ 0 ∷ 2 ∷ 1 ∷ []) 8 ≡ (ok, some (seven ++ 0 ∷ []), some 7)
unfolding holds_below among
all_arrived = refl

one_missing : completed 3 seven (2 ∷ 0 ∷ 2 ∷ []) 8 ≡ (not_found, none, some 0)
unfolding holds_below among
one_missing = refl
