-- ===== src/Transport/Line/Tests.antt =====
-- transport/vl_line.c: concrete runs, and the theorem at a concrete input.
use vecti_license.Base.{◌≡◌, ◌≢◌, ◌⊎◌, inr, refl, true, false, some, [], ◌∷◌, ◌++◌, replicate}
use vecti_license.Api.{ok, not_found}
use vecti_license.Transport.Line.{
  Line, line_reset, line_push, push_char, store_char, end_line, drop_ready,
}
use vecti_license.Transport.Line.Framing.{
  pushes, line_status, kept, IsIdle, Delivers, line_is_framed,
}

abbrev idle_line : Line
idle_line = record { buf = replicate 201 0; len = 0; ready = false; overflow = false }

reset_anything :
    line_reset (some (record { buf = replicate 201 7; len = 5; ready = true; overflow = true }))
    ≡ some (record { buf = 0 ∷ replicate 200 7; len = 0; ready = false; overflow = false })
unfolding line_reset
reset_anything = refl

-- "A B" and CRLF
statuses :
    (pushes (some idle_line) (b'A' ∷ b' ' ∷ b'B' ∷ 13 ∷ 10 ∷ [])).0
    ≡ not_found ∷ not_found ∷ not_found ∷ ok ∷ not_found ∷ []
unfolding pushes line_push push_char store_char end_line drop_ready
statuses = refl

line_is_framed_example :
    (l' : Line) × (pushes (some idle_line) (b'A' ∷ b' ' ∷ b'B' ∷ 10 ∷ [])
      ≡ (replicate 3 not_found ++ line_status (kept (b'A' ∷ b' ' ∷ b'B' ∷ [])) ∷ [], some l'))
    × IsIdle l'
    × (Delivers (kept (b'A' ∷ b' ' ∷ b'B' ∷ [])) l'
        ⊎ (line_status (kept (b'A' ∷ b' ' ∷ b'B' ∷ [])) ≢ ok))
line_is_framed_example =
    line_is_framed idle_line (b'A' ∷ b' ' ∷ b'B' ∷ []) 10 (refl, refl, inr refl)
      (refl, (refl, (refl, tt))) refl
