-- ===== src/Sha512/Digest.antt =====
-- core/vl_sha512.c: however a message is cut into updates, the result is the digest of the whole,
-- as FIPS 180-4 defines it by padding and a run over blocks.
use vecti_license.Base.{ℕ, ◌+◌, ◌*◌, ◌/◌, ◌%◌, ◌^◌, List, [], ◌∷◌, ◌++◌, ◌≡◌, refl, sym, ap, ◌∙◌}
use vecti_license.Base.{length, length-append, Option, some, arith, subst}
use vecti_license.Hash.{Ctx, Words, length_field, store_words, absorb}
use vecti_license.Hash.Stream.{Holds, absorb-Holds, Holds-start, Holds-count, count-absorb}
use vecti_license.Hash.Fields.{length-length_field}
use vecti_license.Hash.Padding.{digest_state, close-digest}
use vecti_license.Sha512.{
  block_len, limit, compress, initial, sha512_init, sha512_update, sha512_final, wiped,
}
use mathlib.Core.List.{flatten, append_assoc, append-nil}

-- The length field of a byte count, as the code splits it into two 64-bit halves
abbrev count_field : ℕ → List ℕ
count_field count = length_field 8 (count / 2 ^ 61) ++ length_field 8 (count * 2 ^ 3 % 2 ^ 64)

-- The digest of a message: pad it, compress its blocks, write the words out.
unfoldable pub digest : List ℕ → List ℕ
digest msg =
    store_words 8
      (digest_state block_len compress initial limit (count_field (length msg % 2 ^ 64)) msg)

-- A context that has absorbed `msg`.
pub record Absorbed (msg : List ℕ) (ctx : Ctx Words) : Type 0 where
  pub holds : Holds block_len compress initial msg ctx
  pub counted : ctx.count ≡ length msg % 2 ^ 64

-- An update with every piece in turn
abbrev pub updates : Option (Ctx Words) → List (List ℕ) → Option (Ctx Words)
updates ctx [] = ctx
updates ctx (p ∷ ps) = updates (sha512_update ctx (some p)) ps

pub sha512_init-Absorbed :
    (stack : Ctx Words)
    → length stack.buffer ≡ block_len
    → (ctx : Ctx Words) × (sha512_init (some stack) ≡ some ctx) × Absorbed [] ctx
unfolding sha512_init
sha512_init-Absorbed stack h =
    let ctx : Ctx Words = record stack { state = initial; count = 0; buffer_len = 0 } in
    (
      ctx,
      refl,
      record {
        holds = Holds-start block_len compress initial ctx (omega arith) refl refl h;
        counted = refl;
      },
    )

pub sha512_update-Absorbed :
    (msg p : List ℕ) (ctx : Ctx Words)
    → Absorbed msg ctx
    → (ctx' : Ctx Words) × (sha512_update (some ctx) (some p) ≡ some ctx')
      × Absorbed (msg ++ p) ctx'
unfolding sha512_update
sha512_update-Absorbed msg [] ctx h =
    (ctx, refl, subst (λ m. Absorbed m ctx) (sym (append-nil msg)) h)
sha512_update-Absorbed msg (x ∷ xs) ctx h =
    let n = (ctx.count + length (x ∷ xs)) % 2 ^ 64 in
    (
      absorb block_len compress (record ctx { count = n }) (x ∷ xs),
      refl,
      record {
        holds =
            absorb-Holds block_len compress initial msg (x ∷ xs) (record ctx { count = n })
              (Holds-count block_len compress initial msg ctx n h.holds);
        counted =
            count-absorb block_len compress initial (record ctx { count = n }) (x ∷ xs)
            ∙ omega (arith, h.counted, length-append msg (x ∷ xs));
      },
    )

pub sha512_final-digest :
    (msg : List ℕ) (ctx : Ctx Words) (out : List ℕ)
    → Absorbed msg ctx
    → sha512_final (some ctx) (some out) ≡ (some (digest msg), some wiped)
unfolding sha512_final digest
sha512_final-digest msg ctx out h =
    ap (λ st. (some (store_words 8 st), some wiped))
      (close-digest block_len compress initial limit (count_field ctx.count) msg ctx h.holds
        (sized ctx.count))
    ∙ ap
        (λ n. (
          some (store_words 8 (digest_state block_len compress initial limit (count_field n) msg)),
          some wiped,
        ))
        h.counted
  where
    sized : (n : ℕ) → limit + length (count_field n) ≡ block_len
    sized n = omega (
      arith,
      length-append (length_field 8 (n / 2 ^ 61)) (length_field 8 (n * 2 ^ 3 % 2 ^ 64)),
      length-length_field 8 (n / 2 ^ 61),
      length-length_field 8 (n * 2 ^ 3 % 2 ^ 64),
    )

updates-Absorbed :
    (msg : List ℕ) (pieces : List (List ℕ)) (ctx : Ctx Words)
    → Absorbed msg ctx
    → (ctx' : Ctx Words) × (updates (some ctx) pieces ≡ some ctx')
      × Absorbed (msg ++ flatten pieces) ctx'
unfolding flatten
updates-Absorbed msg [] ctx h = (ctx, refl, subst (λ m. Absorbed m ctx) (sym (append-nil msg)) h)
updates-Absorbed msg (p ∷ ps) ctx h =
    let (next, step, held) = sha512_update-Absorbed msg p ctx h in
    let (last, rest, done) = updates-Absorbed (msg ++ p) ps next held in
    (last, rw step rest, subst (λ m. Absorbed m last) (append_assoc msg p (flatten ps)) done)

-- Whatever the context's memory held before, and however a message is cut into updates, the final
-- step yields the SHA-512 digest of the whole message and leaves the context zeroed.
pub sha512_streams :
    (stack : Ctx Words) (pieces : List (List ℕ)) (out : List ℕ)
    → length stack.buffer ≡ block_len
    → sha512_final (updates (sha512_init (some stack)) pieces) (some out)
      ≡ (some (digest (flatten pieces)), some wiped)
sha512_streams stack pieces out h =
    let (ctx, begun, empty) = sha512_init-Absorbed stack h in
    let (last, run, done) = updates-Absorbed [] pieces ctx empty in
    rw (begun, run) (sha512_final-digest (flatten pieces) last out done)
