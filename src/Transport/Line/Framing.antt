-- ===== src/Transport/Line/Framing.antt =====
-- transport/vl_line.c: every line of a stream is handed up without its blanks, or reported once.
use vecti_license.Base.{
  ℕ, zero, suc, ◌+◌, ◌<◌, ◌≤◌, ◌≡◌, ◌≢◌, refl, sym, ap, ◌∙◌, arith, ◌⊎◌, inl, inr, true, false,
  Option, some, if◌then◌else◌,
}
use vecti_license.Base.{
  List, [], ◌∷◌, ◌++◌, set, take, get_or, length, length-append, length-set, replicate, All, leb,
  ◌==◌, Bool-cases, get_or-set_self, leb-false→lt, leb→le, subst,
}
use mathlib.Core.List.{append_assoc, append-nil}
use vecti_license.Api.{Status, ok, not_found, bad_format}
use vecti_license.Transport.Line.{Line, line_max_len, is_line_end, is_blank, drop_ready, end_line}
use vecti_license.Transport.Line.{store_char, push_char, line_push}

-- The characters of a line that count
unfoldable pub kept : List ℕ → List ℕ
kept [] = []
kept (c ∷ text) = if is_blank c then kept text else c ∷ kept text

-- What the end of a line with these characters reports
unfoldable pub line_status : List ℕ → Status
line_status [] = not_found
line_status (c ∷ cs) = if leb (length (c ∷ cs)) line_max_len then ok else bad_format

-- The bytes of a stream, with the statuses in order
unfoldable pub pushes : Option Line → List ℕ → List Status × Option Line
pushes l [] = ([], l)
pushes l (c ∷ text) =
    let (st, l') = line_push l c in let (sts, l'') = pushes l' text in (st ∷ sts, l'')

-- Between two lines
abbrev pub IsIdle : Line → Type 0
IsIdle l =
    (length l.buf ≡ line_max_len + 1) × (l.overflow ≡ false) × ((l.ready ≡ true) ⊎ (l.len ≡ 0))

-- What the buffer holds when a line has been reported as good: a C string of its characters
abbrev pub Delivers : List ℕ → Line → Type 0
Delivers xs l =
    (l.ready ≡ true) × (l.len ≡ length xs) × (take l.len l.buf ≡ xs) × (get_or l.buf l.len 1 ≡ 0)

-- Inside a line whose characters so far are `xs`
data Inside (xs : List ℕ) (l : Line) : Type 0 where
  collecting :
      length l.buf ≡ line_max_len + 1
      → l.ready ≡ false
      → l.overflow ≡ false
      → l.len ≡ length xs
      → length xs ≤ line_max_len
      → take l.len l.buf ≡ xs
      → Inside xs l
  discarding :
      length l.buf ≡ line_max_len + 1
      → l.ready ≡ false
      → l.overflow ≡ true
      → l.len ≡ 0
      → line_max_len < length xs
      → Inside xs l

take-set_self :
    (xs : List ℕ) (n v : ℕ) → n < length xs → take (suc n) (set xs n v) ≡ take n xs ++ v ∷ []
take-set_self [] n v h = absurd (omega arith)
take-set_self (x ∷ xs) zero v h = refl
take-set_self (x ∷ xs) (suc n) v h = ap (λ r. x ∷ r) (take-set_self xs n v (omega arith))

take-set_end : (xs : List ℕ) (n v : ℕ) → take n (set xs n v) ≡ take n xs
take-set_end [] n v = refl
take-set_end (x ∷ xs) zero v = refl
take-set_end (x ∷ xs) (suc n) v = ap (λ r. x ∷ r) (take-set_end xs n v)

length-snoc : (xs : List ℕ) (c : ℕ) → length (xs ++ c ∷ []) ≡ length xs + 1
length-snoc xs c = length-append xs (c ∷ [])

one_more : (n : ℕ) → n + 1 ≡ suc n
one_more n = omega arith

store_char-Inside :
    (xs : List ℕ) (l : Line) (c : ℕ)
    → Inside xs l
    → (l' : Line) × (store_char l c ≡ (not_found, l')) × Inside (xs ++ c ∷ []) l'
unfolding store_char
store_char-Inside xs l c (collecting size idle fine len short held) =
    elim (Bool-cases (leb line_max_len l.len)) [
      | inl full ↦ (
        record l { buf = set l.buf 0 0; len = 0; overflow = true },
        rw (fine, full) refl,
        discarding (length-set l.buf 0 0 ∙ size) idle refl refl
            (omega (arith, length-snoc xs c, len, leb→le _ _ full)),
      )
      | inr room ↦
          let space = leb-false→lt _ _ room in
          (
            record l { buf = set l.buf l.len c; len = l.len + 1 },
            rw (fine, room) refl,
            collecting (length-set l.buf l.len c ∙ size) idle fine
                (omega (arith, length-snoc xs c, len)) (omega (arith, length-snoc xs c, len, space))
                (ap (λ n. take n (set l.buf l.len c)) (one_more l.len)
                  ∙ take-set_self l.buf l.len c (omega (arith, size, space))
                  ∙ ap (λ t. t ++ c ∷ []) held),
          )
    ]
store_char-Inside xs l c (discarding size idle over len long) =
    (l, rw over refl, discarding size idle over len (omega (arith, length-snoc xs c, long)))

-- A byte that does not end the line
push_char-Inside :
    (xs : List ℕ) (l : Line) (c : ℕ)
    → is_line_end c ≡ false
    → Inside xs l
    → (l' : Line) × (push_char l c ≡ (not_found, l'))
      × Inside (if is_blank c then xs else xs ++ c ∷ []) l'
unfolding push_char
push_char-Inside xs l c inner h = elim (Bool-cases (is_blank c)) [
  | inl blank ↦ (l, rw (inner, blank) refl, rw blank h)
  | inr solid ↦
      let (l', stored, h') = store_char-Inside xs l c h in
      (l', rw (inner, solid) stored, rw solid h')
]

not_ready : (l : Line) → l.ready ≡ false → drop_ready l ≡ l
unfolding drop_ready
not_ready l h = rw (h, drop_ready) refl

Inside-not_ready : (xs : List ℕ) (l : Line) → Inside xs l → l.ready ≡ false
Inside-not_ready xs l (collecting size idle fine len short held) = idle
Inside-not_ready xs l (discarding size idle over len long) = idle

drop_ready-Inside : (l : Line) → IsIdle l → Inside [] (drop_ready l)
unfolding drop_ready
drop_ready-Inside l (size, fine, at) = elim (Bool-cases l.ready) [
  | inl ready ↦
      rw (ready, drop_ready)
        (collecting (length-set l.buf 0 0 ∙ size) refl fine refl (omega arith) refl)
  | inr empty ↦
      subst (Inside []) (sym (not_ready l empty))
        (collecting size empty fine (nothing at empty) (omega arith) (held at empty))
]
  where
    nothing : (l.ready ≡ true) ⊎ (l.len ≡ 0) → l.ready ≡ false → l.len ≡ 0
    nothing (inl r) e = cc
    nothing (inr z) e = z

    held : (l.ready ≡ true) ⊎ (l.len ≡ 0) → l.ready ≡ false → take l.len l.buf ≡ []
    held (inl r) e = cc
    held (inr z) e = rw z refl

-- The end of a line
end_line_lem :
    (xs : List ℕ) (l : Line)
    → Inside xs l
    → (l' : Line) × (end_line l ≡ (line_status xs, l'))
      × IsIdle l'
      × (Delivers xs l' ⊎ (line_status xs ≢ ok))
unfolding end_line line_status
end_line_lem [] l (collecting size idle fine len short held) =
    (l, rw (fine, len) refl, (size, fine, inr len), inr (λ e. cc))
end_line_lem (x ∷ xs) l (collecting size idle fine len short held) = (
  record l { buf = set l.buf l.len 0; ready = true },
  rw (fine, some_kept, fits) refl,
  (length-set l.buf l.len 0 ∙ size, fine, inl refl),
  inl (refl, len, take-set_end l.buf l.len 0 ∙ held, get_or-set_self l.buf l.len 0 1 (omega arith)),
)
  where
    some_kept : (l.len == 0) ≡ false
    some_kept = ground (arith, len)

    fits : leb (suc (length xs)) line_max_len ≡ true
    fits = ground (arith, short)
end_line_lem [] l (discarding size idle over len long) = absurd (omega (arith, long))
end_line_lem (x ∷ xs) l (discarding size idle over len long) = (
  record l { overflow = false; len = 0 },
  rw (over, burst) refl,
  (size, refl, inr refl),
  inr (λ e. differ (rw burst at e)),
)
  where
    burst : leb (suc (length xs)) line_max_len ≡ false
    burst = ground (arith, long)

    differ : bad_format ≡ ok → ⊥
    differ e = cc

-- A line ends with a terminator, and none comes before.
abbrev pub Inner : List ℕ → Type 0
Inner = All (λ c. is_line_end c ≡ false)

kept-cons :
    (c : ℕ) (xs text : List ℕ)
    → (if is_blank c then xs else xs ++ c ∷ []) ++ kept text ≡ xs ++ kept (c ∷ text)
unfolding kept
kept-cons c xs text = elim (Bool-cases (is_blank c)) [
  | inl blank ↦ rw blank refl
  | inr solid ↦ rw solid (append_assoc xs (c ∷ []) (kept text))
]

pushes-Inside :
    (text xs : List ℕ) (l : Line) (e : ℕ)
    → Inner text
    → is_line_end e ≡ true
    → Inside xs (drop_ready l)
    → (l' : Line) × (pushes (some l) (text ++ e ∷ [])
        ≡ (replicate (length text) not_found ++ line_status (xs ++ kept text) ∷ [], some l'))
      × IsIdle l'
      × (Delivers (xs ++ kept text) l' ⊎ (line_status (xs ++ kept text) ≢ ok))
unfolding pushes line_push kept push_char
pushes-Inside [] xs l e inner ends h =
    let (l', closed, idle, given) = end_line_lem xs (drop_ready l) h in
    rw append-nil (l', rw (ends, closed) refl, idle, given)
pushes-Inside (c ∷ text) xs l e inner ends h =
    let (l1, stored, h1) = push_char-Inside xs (drop_ready l) c inner.0 h in
    let still = not_ready l1 (Inside-not_ready _ l1 h1) in
    let (l', rest, idle, given) =
      pushes-Inside text _ l1 e inner.1 ends (subst (Inside _) (sym still) h1) in
    rw⁻¹ (kept-cons c xs text) (l', rw (stored, rest) refl, idle, given)

-- From between two lines on, the bytes of a line report VL_ERR_NOT_FOUND, and its end reports VL_OK
-- if 1 to 200 characters are kept, VL_ERR_NOT_FOUND if there are none, and VL_ERR_BAD_FORMAT if there
-- are more; with VL_OK the buffer is the NUL-terminated string of the kept characters. The state is
-- then between two lines again.
pub line_is_framed :
    (l : Line) (text : List ℕ) (e : ℕ)
    → IsIdle l
    → Inner text
    → is_line_end e ≡ true
    → (l' : Line) × (pushes (some l) (text ++ e ∷ [])
        ≡ (replicate (length text) not_found ++ line_status (kept text) ∷ [], some l'))
      × IsIdle l'
      × (Delivers (kept text) l' ⊎ (line_status (kept text) ≢ ok))
line_is_framed l text e idle inner ends =
    pushes-Inside text [] l e inner ends (drop_ready-Inside l idle)
