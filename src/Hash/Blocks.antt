-- ===== src/Hash/Blocks.antt =====
-- A run of whole blocks, as the reference that the buffered code is held to.
use vecti_license.Base.{
  ℕ, zero, suc, ◌+◌, ◌*◌, ◌<◌, ◌≤◌, List, [], ◌∷◌, ◌++◌, ◌≡◌, refl, sym, ap, ◌∙◌,
}
use vecti_license.Base.{length, length-append, take, drop, length-take, length-drop, arith}
use vecti_license.Base.{take-append-drop, leb, Bool-cases, leb→le, leb-false→lt, inl, inr}
use vecti_license.Base.{take-append_exact, drop-append_exact}
use vecti_license.Hash.{whole_blocks}
use vecti_license.Base.{take-append_le, drop-append_le}
use native.Mathlib.Nat.{zero-add}
use mathlib.Core.List.{append_assoc}

module _ {S : Type 0} (block_len : ℕ) (compress : S → List ℕ → S) where
  unfoldable pub compress_blocks : ℕ → S → List ℕ → S
  compress_blocks zero st bytes = st
  compress_blocks (suc k) st bytes =
      compress_blocks k (compress st (take block_len bytes)) (drop block_len bytes)

  -- Blocks compressed in two runs are blocks compressed in one.
  pub compress_blocks-append :
      (k n : ℕ) (st : S) (xs ys : List ℕ)
      → length xs ≡ k * block_len
      → compress_blocks (k + n) st (xs ++ ys) ≡ compress_blocks n (compress_blocks k st xs) ys
  unfolding compress_blocks
  compress_blocks-append zero n st [] ys e = rw zero-add
  compress_blocks-append zero n st (x ∷ xs) ys e = absurd (omega arith)
  compress_blocks-append (suc k) n st xs ys e =
      let long : block_len ≤ length xs = omega arith in
      let rest : length (drop block_len xs) ≡ k * block_len =
        omega (arith, length-drop block_len xs) in
      let split : suc k + n ≡ suc (k + n) = omega arith in
      rw
        (
          split,
          compress_blocks,
          take-append_le block_len xs ys long,
          drop-append_le block_len xs ys long,
        )
        (compress_blocks-append k n (compress st (take block_len xs)) (drop block_len xs) ys rest)

  -- `p` ends in less than a block, and the blocks before that have been compressed.
  pub record Splits (st : S) (p : List ℕ) (result : S × List ℕ) : Type 0 where
    pub whole : List ℕ
    pub blocks : ℕ
    pub sized : length whole ≡ blocks * block_len
    pub split : p ≡ whole ++ result.1
    pub compressed : result.0 ≡ compress_blocks blocks st whole
    pub rest_short : length result.1 < block_len

  pub whole_blocks-Splits :
      (fuel : ℕ) (st : S) (p : List ℕ)
      → 0 < block_len
      → length p ≤ fuel
      → Splits st p (whole_blocks block_len compress fuel st p)
  unfolding whole_blocks compress_blocks
  whole_blocks-Splits zero st p pos h = record {
    whole = [];
    blocks = 0;
    sized = omega arith;
    split = refl;
    compressed = refl;
    rest_short = omega arith;
  }
  whole_blocks-Splits (suc fuel) st p pos h = elim (Bool-cases (leb block_len (length p))) [
    | inl more ↦
        let enough = leb→le block_len (length p) more in
        let first : length (take block_len p) ≡ block_len =
          omega (arith, length-take block_len p) in
        let r =
          whole_blocks-Splits fuel (compress st (take block_len p)) (drop block_len p) pos
            (omega (arith, length-drop block_len p)) in
        rw more (record {
          whole = take block_len p ++ r.whole;
          blocks = suc r.blocks;
          sized = omega (arith, length-append (take block_len p) r.whole, first, r.sized);
          split =
              sym (take-append-drop block_len p)
              ∙ ap (λ t. take block_len p ++ t) r.split
              ∙ sym (append_assoc (take block_len p) r.whole _);
          compressed =
              rw
                (
                  take-append_exact block_len (take block_len p) r.whole first,
                  drop-append_exact block_len (take block_len p) r.whole first,
                )
                r.compressed;
          rest_short = r.rest_short;
        })
    | inr done ↦ rw done (record {
      whole = [];
      blocks = 0;
      sized = omega arith;
      split = refl;
      compressed = refl;
      rest_short = leb-false→lt block_len (length p) done;
    })
  ]
