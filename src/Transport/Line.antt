-- ===== src/Transport/Line.antt =====
-- transport/vl_line.c: the line framing, byte by byte.
pub mod Framing
mod Tests
use vecti_license.Base.{
  ℕ, ◌+◌, ◌==◌, leb, ◌||◌, if◌then◌else◌, Bool, true, false, Option, none, some,
}
use vecti_license.Base.{List, [], ◌∷◌, set}
use vecti_license.Api.{Status, ok, invalid_arg, not_found, bad_format}

-- VL_LINE_MAX_LEN
abbrev pub line_max_len : ℕ
line_max_len = 200

-- vl_line_t; the flags are uint8_t members that hold 0 or 1.
pub record Line : Type 0 where
  pub buf : List ℕ
  pub len : ℕ
  pub ready : Bool
  pub overflow : Bool

-- vl_line_reset
unfoldable pub line_reset : Option Line → Option Line
line_reset none = none
line_reset (some l) =
    some (record { buf = set l.buf 0 0; len = 0; ready = false; overflow = false })

-- '\n' or '\r'
abbrev pub is_line_end : ℕ → Bool
is_line_end u = u == 10 || u == 13

-- ' ', '\t', '\v' or '\f'
abbrev pub is_blank : ℕ → Bool
is_blank u = u == 32 || (u == 9 || (u == 11 || u == 12))

-- Drops the line that has been handed up.
pub drop_ready : Line → Line
drop_ready l = if l.ready then record l { buf = set l.buf 0 0; len = 0; ready = false } else l

pub end_line : Line → Status × Line
end_line l =
    if l.overflow
    then (bad_format, record l { overflow = false; len = 0 })
    else if l.len == 0
    then (not_found, l)
    else (ok, record l { buf = set l.buf l.len 0; ready = true })

pub store_char : Line → ℕ → Status × Line
store_char l ch =
    if l.overflow
    then (not_found, l)
    else if leb line_max_len l.len
    then (not_found, record l { buf = set l.buf 0 0; len = 0; overflow = true })
    else (not_found, record l { buf = set l.buf l.len ch; len = l.len + 1 })

pub push_char : Line → ℕ → Status × Line
push_char l ch =
    if is_line_end ch then end_line l else if is_blank ch then (not_found, l) else store_char l ch

-- vl_line_push
unfoldable pub line_push : Option Line → ℕ → Status × Option Line
line_push none ch = (invalid_arg, none)
line_push (some l) ch = let (st, l') = push_char (drop_ready l) ch in (st, some l')
