-- ===== src/Gate/Allows.antt =====
-- examples/baremetal/vl_gate.c: what stands behind a feature that the gate allows.
use vecti_license.Base.{
  ℕ, ◌≡◌, refl, sym, ap, subst, ◌!=◌, Bool, true, false, ◌&&◌, Option, none, some, List,
}
use vecti_license.Api.{Status, ok, Hal, Config, License}
use vecti_license.Core.Verify.Steps.{Memory}
use vecti_license.Core.Verify.Accepts.{Verified}
use vecti_license.Core.Verify.Sound.{verify_sound}
use vecti_license.Core.Query.{has_feature}
use vecti_license.Transport.Line.{Line, line_push}
use vecti_license.Bridge.{license_of}
use vecti_license.Gate.{
  Board, Gate, gate_start, is_licensed, gate_allows, board_hal, gate_verify, init_with, gate_init,
  received, gate_uart_rx,
}

module _ {W : Type 0} (board : Board W) (ed25519_verify : List ℕ → List ℕ → List ℕ → Bool)
    (mem : Memory) (cfg : Config) (before : List ℕ) where
  -- A licence that vl_verify has accepted on this board
  pub data Accepted (lic : License) : Type 0 where
    accepted :
        (text : List ℕ) (c : Config) (h : Hal W) (w w' : W)
        → some cfg ≡ some c
        → some (board_hal board before) ≡ some h
        → Verified ed25519_verify mem text c h lic w w'
        → Accepted lic

  -- The states that the gate's functions lead to from power-up; `elsewhere` is the rest of the product.
  pub data Gated : Gate → W → Type 0 where
    started : (w : W) → Gated gate_start w
    elsewhere : (g : Gate) (w w' : W) → Gated g w → Gated g w'
    inited :
        (g : Gate) (w : W)
        → Gated g w
        → Gated
            (gate_init board ed25519_verify mem cfg before g w).0
            (gate_init board ed25519_verify mem cfg before g w).1
    pushed :
        (ch : ℕ) (g : Gate) (w : W)
        → Gated g w
        → Gated
            (gate_uart_rx board ed25519_verify mem cfg before ch g w).1
            (gate_uart_rx board ed25519_verify mem cfg before ch g w).2

module _ {W : Type 0} (board : Board W) (ed25519_verify : List ℕ → List ℕ → List ℕ → Bool)
    (mem : Memory) (cfg : Config) (before : List ℕ) where
  verify-Accepted :
      (blob : List ℕ) (g : Gate) (w : W)
      → let r = gate_verify board ed25519_verify mem cfg before blob g w in
        r.0 ≡ ok → Accepted board ed25519_verify mem cfg before (license_of r.1)
  verify-Accepted blob g w e =
      let r = gate_verify board ed25519_verify mem cfg before blob g w in
      let (text, c, h, lic, is_text, is_cfg, is_hal, left, v) =
        verify_sound ed25519_verify mem (some blob) (some cfg) (some (board_hal board before))
          (some g.license) r.1 w r.2 (ap (λ st. (st, r.1, r.2)) e) in
      subst (λ x. Accepted board ed25519_verify mem cfg before (license_of x)) (sym left)
        (accepted text c h w r.2 is_cfg is_hal v)

  init_with-Accepted :
      (g : Gate) (r : Option (List ℕ) × W)
      → (init_with board ed25519_verify mem cfg before g r).0.status ≡ ok
      → Accepted board ed25519_verify mem cfg before
          (init_with board ed25519_verify mem cfg before g r).0.license
  unfolding init_with
  init_with-Accepted g (none, w) e = cc
  init_with-Accepted g (some blob, w) e = verify-Accepted blob g w e

  received-Accepted :
      (g : Gate) (w : W) (r : Status × Option Line)
      → (g.status ≡ ok → Accepted board ed25519_verify mem cfg before g.license)
      → (received board ed25519_verify mem cfg before g w r).1.status ≡ ok
      → Accepted board ed25519_verify mem cfg before
          (received board ed25519_verify mem cfg before g w r).1.license
  unfolding received
  received-Accepted g w (ok, rx) held e = verify-Accepted _ g w e
  received-Accepted g w (st, rx) held e = held e

  Gated-Accepted :
      (g : Gate) (w : W)
      → Gated board ed25519_verify mem cfg before g w
      → g.status ≡ ok
      → Accepted board ed25519_verify mem cfg before g.license
  Gated-Accepted g w (started v) e = cc
  Gated-Accepted g w (elsewhere p v v' r) e = Gated-Accepted p v r e
  Gated-Accepted g w (inited p v r) e = init_with-Accepted p (board.load_blob v) e
  Gated-Accepted g w (pushed ch p v r) e =
      received-Accepted p v (line_push (some p.rx) ch) (λ is. Gated-Accepted p v r is) e

  -- After any sequence of gate_init and of characters given to gate_uart_rx since power-up, a feature
  -- that gate_allows allows is a feature of a licence that vl_verify has accepted on this board.
  pub gate_allows-Accepted :
      (bit : ℕ) (g : Gate) (w : W)
      → Gated board ed25519_verify mem cfg before g w
      → gate_allows bit g ≡ true
      → Accepted board ed25519_verify mem cfg before g.license
        × ((has_feature (some g.license) bit != 0) ≡ true)
  gate_allows-Accepted bit g w r allows =
      let (licensed, has) =
        and-eq-true (is_licensed g.status) (has_feature (some g.license) bit != 0) allows in
      (Gated-Accepted g w r (licensed-ok g.status licensed), has)
    where
      and-eq-true : (a b : Bool) → (a && b) ≡ true → (a ≡ true) × (b ≡ true)
      and-eq-true true b f = (refl, f)
      and-eq-true false b f = cc

      licensed-ok : (st : Status) → is_licensed st ≡ true → st ≡ ok
      licensed-ok ok f = refl
      licensed-ok st f = cc
