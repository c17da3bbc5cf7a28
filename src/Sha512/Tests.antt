-- ===== src/Sha512/Tests.antt =====
-- core/vl_sha512.c: the known answers of FIPS 180-4.
use vecti_license.Base.{ℕ, List, [], ◌∷◌, ◌≡◌, refl, some, replicate}
use vecti_license.Hash.{Ctx, Words, absorb, close, load_words, store_words, length_field}
use vecti_license.Sha512.{
  sha512, sha512_init, sha512_update, sha512_final, compress, initial, wiped,
}
use vecti_license.Sha512.Digest.{digest, updates, sha512_streams}
use mathlib.Core.List.{flatten}

abbrev stack : Ctx Words
stack = record { state = initial; count = 7; buffer = replicate 128 0xaa; buffer_len = 3 }

sha512_abc :
    sha512 stack (some (b'a' ∷ b'b' ∷ b'c' ∷ [])) (some [])
    ≡ some (
        0xdd ∷ 0xaf ∷ 0x35 ∷ 0xa1 ∷ 0x93 ∷ 0x61 ∷ 0x7a ∷ 0xba ∷ 0xcc ∷ 0x41 ∷ 0x73 ∷ 0x49 ∷ 0xae
        ∷ 0x20 ∷ 0x41 ∷ 0x31 ∷ 0x12 ∷ 0xe6 ∷ 0xfa ∷ 0x4e ∷ 0x89 ∷ 0xa9 ∷ 0x7e ∷ 0xa2 ∷ 0x0a ∷ 0x9e
        ∷ 0xee ∷ 0xe6 ∷ 0x4b ∷ 0x55 ∷ 0xd3 ∷ 0x9a ∷ 0x21 ∷ 0x92 ∷ 0x99 ∷ 0x2a ∷ 0x27 ∷ 0x4f ∷ 0xc1
        ∷ 0xa8 ∷ 0x36 ∷ 0xba ∷ 0x3c ∷ 0x23 ∷ 0xa3 ∷ 0xfe ∷ 0xeb ∷ 0xbd ∷ 0x45 ∷ 0x4d ∷ 0x44 ∷ 0x23
        ∷ 0x64 ∷ 0x3c ∷ 0xe8 ∷ 0x0e ∷ 0x2a ∷ 0x9a ∷ 0xc9 ∷ 0x4f ∷ 0xa5 ∷ 0x4c ∷ 0xa4 ∷ 0x9f ∷ [])
unfolding sha512 sha512_init sha512_update sha512_final compress absorb close load_words store_words
    length_field
sha512_abc = refl

abbrev pieces : List (List ℕ)
pieces = (b'a' ∷ []) ∷ [] ∷ (b'b' ∷ b'c' ∷ []) ∷ []

sha512_streams_example :
    sha512_final (updates (sha512_init (some stack)) pieces) (some (0 ∷ []))
    ≡ (some (digest (b'a' ∷ b'b' ∷ b'c' ∷ [])), some wiped)
unfolding flatten
sha512_streams_example = sha512_streams stack pieces (0 ∷ []) refl
