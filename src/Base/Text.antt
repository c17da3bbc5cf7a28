-- ===== src/Base/Text.antt =====
-- Texts: a C string literal as its characters, and the copy of a string into a buffer.
use Prim.Native.String.{String}
use Prim.Native.Char.{code}
use Prim.Native.Nat.{ℕ, ◌+◌, ◌≤◌}
use mathlib.Core.Path.{◌≡◌, sym, ◌∙◌}
use mathlib.Core.List.{List, [], ◌∷◌, ◌++◌, append_assoc, append-nil}
use mathlib.Core.Bool.{Bool, true, false, ◌&&◌}
use mathlib.Core.Logic.{inl, inr}
use native.Mathlib.Omega.{arith}
use vecti_license.Base.Lists.{length, length-append}
use vecti_license.Base.Tests.{ltb, ◌==◌, if◌then◌else◌, Bool-cases}

abbrev pub codes : String → List ℕ
codes String.[] = []
codes (String.◌∷◌ c s) = code c ∷ codes s

-- for (s = text; *s && n + margin < cap; ++s) out[n++] = *s;
unfoldable pub copy_text : ℕ → ℕ → List ℕ → List ℕ → List ℕ
copy_text margin cap [] out = out
copy_text margin cap (c ∷ text) out =
    let done = copy_text margin cap text (out ++ c ∷ []) in
    if ltb (length out + margin) cap then done else out

-- The copy keeps the margin free.
pub copy_text-fits :
    (margin cap : ℕ) (text out : List ℕ)
    → length out + margin ≤ cap
    → length (copy_text margin cap text out) + margin ≤ cap
unfolding copy_text
copy_text-fits margin cap [] out h = h
copy_text-fits margin cap (c ∷ text) out h = elim (Bool-cases (ltb (length out + margin) cap)) [
  | inl more ↦
      let longer = length-append out (c ∷ []) in
      rw more (copy_text-fits margin cap text (out ++ c ∷ []) (ground arith))
  | inr full ↦ rw full h
]

-- A text for which there is room is copied whole.
pub copy_text-whole :
    (margin cap : ℕ) (text out : List ℕ)
    → length out + length text + margin ≤ cap
    → copy_text margin cap text out ≡ out ++ text
unfolding copy_text
copy_text-whole margin cap [] out h = sym (append-nil out)
copy_text-whole margin cap (c ∷ text) out h =
    let room : ltb (length out + margin) cap ≡ true = ground arith in
    rw room (
      copy_text-whole margin cap text (out ++ c ∷ []) (omega (arith, length-append out (c ∷ [])))
      ∙ append_assoc out (c ∷ []) text)

-- What printf makes of a number: %u, %08x and %02x
pub record Format : Type 0 where
  pub decimal : ℕ → List ℕ
  pub hex8 : ℕ → List ℕ
  pub hex2 : ℕ → List ℕ

-- The pieces of a printf, one after the other
abbrev pub joined : List (List ℕ) → List ℕ
joined [] = []
joined (text ∷ texts) = text ++ joined texts

-- strcmp(s, t) == 0
abbrev pub same_text : List ℕ → List ℕ → Bool
same_text [] [] = true
same_text [] (d ∷ t) = false
same_text (c ∷ s) [] = false
same_text (c ∷ s) (d ∷ t) = let rest = same_text s t in c == d && rest

-- strncmp(s, prefix, strlen(prefix)) == 0
abbrev pub starts_with : List ℕ → List ℕ → Bool
starts_with [] s = true
starts_with (p ∷ prefix) [] = false
starts_with (p ∷ prefix) (c ∷ s) = let rest = starts_with prefix s in c == p && rest

-- The bytes of "—" in the sources' UTF-8
abbrev pub em_dash : List ℕ
em_dash = 0xe2 ∷ 0x80 ∷ 0x94 ∷ []
