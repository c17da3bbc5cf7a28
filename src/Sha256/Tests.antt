-- ===== src/Sha256/Tests.antt =====
-- core/vl_sha256.c: the known answers of FIPS 180-4.
use vecti_license.Base.{ℕ, List, [], ◌∷◌, ◌≡◌, refl, some, replicate}
use vecti_license.Hash.{Ctx, Words, absorb, close, load_words, store_words, length_field}
use vecti_license.Sha256.{
  sha256, sha256_init, sha256_update, sha256_final, compress, initial, wiped,
}
use vecti_license.Sha256.Digest.{digest, updates, sha256_streams}
use mathlib.Core.List.{flatten}

abbrev stack : Ctx Words
stack = record { state = initial; count = 7; buffer = replicate 64 0xaa; buffer_len = 3 }

sha256_abc :
    sha256 stack (some (b'a' ∷ b'b' ∷ b'c' ∷ [])) (some [])
    ≡ some (
        0xba ∷ 0x78 ∷ 0x16 ∷ 0xbf ∷ 0x8f ∷ 0x01 ∷ 0xcf ∷ 0xea ∷ 0x41 ∷ 0x41 ∷ 0x40 ∷ 0xde ∷ 0x5d
        ∷ 0xae ∷ 0x22 ∷ 0x23 ∷ 0xb0 ∷ 0x03 ∷ 0x61 ∷ 0xa3 ∷ 0x96 ∷ 0x17 ∷ 0x7a ∷ 0x9c ∷ 0xb4 ∷ 0x10
        ∷ 0xff ∷ 0x61 ∷ 0xf2 ∷ 0x00 ∷ 0x15 ∷ 0xad ∷ [])
unfolding sha256 sha256_init sha256_update sha256_final compress absorb close load_words store_words
    length_field
sha256_abc = refl

abbrev pieces : List (List ℕ)
pieces = (b'a' ∷ []) ∷ [] ∷ (b'b' ∷ b'c' ∷ []) ∷ []

sha256_streams_example :
    sha256_final (updates (sha256_init (some stack)) pieces) (some (0 ∷ []))
    ≡ (some (digest (b'a' ∷ b'b' ∷ b'c' ∷ [])), some wiped)
unfolding flatten
sha256_streams_example = sha256_streams stack pieces (0 ∷ []) refl
