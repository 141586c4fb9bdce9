-- ===== src/Ha/Safety.antt =====
-- At most one Active node (src/ha.rs): every history of two nodes that hear each other.
use brew_server.Common.{ℕ, ◌≡◌, Bool, false, ◌&&◌, Option, none, some, arith}
use brew_server.Ha.Election.{
  is_role, active, Election, PeerView, accepted, request_handover, request_active, tick,
}
use brew_server.Ha.Election.Invariant.{Inv, tick-Inv, request_handover-Inv, request_active-Inv}
use brew_server.Ha.Heartbeat.{Context, seen}
use brew_server.Ha.Pair.{tick_yields}

-- `HaCommand::SetPersist`: the policy is set, and a manual hold ends.
unfoldable pub set_persist : Election → Bool → Election
set_persist e persist = record e { persist = persist; hold = false }

-- One operation of the node in state `e`, while its peer is in state `peer`: a tick on the peer's
-- current heartbeat, or a command of the dashboard.
pub data Turn (peer e : Election) : Election → Type 0 where
  ticks :
      (c : Context) (at now_ms : ℕ) (gateway_ok : Bool) {f : Election}
      → tick e now_ms (some (seen c peer at)) gateway_ok ≡ some f
      → Turn peer e f
  hands_over :
      (v : Option PeerView) (now_ms : ℕ) (manual : Bool) {f : Election}
      → request_handover e v now_ms manual ≡ accepted f
      → Turn peer e f
  asks :
      (v : Option PeerView) (now_ms : ℕ) {f : Election}
      → request_active e v now_ms ≡ accepted f
      → Turn peer e f
  persists : (persist : Bool) → Turn peer e (set_persist e persist)

-- Histories of the two nodes: in each step one of them moves.
pub data History (l r : Election) : Election → Election → Type 0 where
  start : History l r l r
  left : {l₁ r₁ l₂ : Election} → History l r l₁ r₁ → Turn r₁ l₁ l₂ → History l r l₂ r₁
  right : {l₁ r₁ r₂ : Election} → History l r l₁ r₁ → Turn l₁ r₁ r₂ → History l r l₁ r₂

pub record Safe (l r : Election) : Type 0 where
  pub left_inv : Inv l
  pub right_inv : Inv r
  pub one_active : is_role l.role active && is_role r.role active ≡ false

-- What a turn guarantees of the node that makes it.
record Fair (peer f : Election) : Type 0 where
  inv : Inv f
  apart : is_role f.role active && is_role peer.role active ≡ false

set_persist-Inv : (e : Election) (persist : Bool) → Inv e → Inv (set_persist e persist)
unfolding set_persist
set_persist-Inv e persist v = ground arith

stays_inactive_handover :
    (e f : Election) (v : Option PeerView) (now_ms : ℕ) (manual : Bool)
    → request_handover e v now_ms manual ≡ accepted f
    → is_role f.role active ≡ false
unfolding request_handover
stays_inactive_handover e f none now_ms manual h = ground arith
stays_inactive_handover e f (some p) now_ms manual h = ground arith

stays_inactive_ask :
    (e f : Election) (v : Option PeerView) (now_ms : ℕ)
    → request_active e v now_ms ≡ accepted f
    → is_role f.role active ≡ false
unfolding request_active
stays_inactive_ask e f none now_ms h = ground arith
stays_inactive_ask e f (some p) now_ms h = ground arith

tick_apart :
    (peer e f : Election) (c : Context) (at now_ms : ℕ) (gateway_ok : Bool)
    → Inv peer
    → is_role e.role active && is_role peer.role active ≡ false
    → tick e now_ms (some (seen c peer at)) gateway_ok ≡ some f
    → is_role f.role active && is_role peer.role active ≡ false
unfolding seen
tick_apart peer e f c at now_ms gateway_ok v a h =
    ground (arith, tick_yields e now_ms (seen c peer at) gateway_ok)

Turn-Fair :
    (peer e f : Election)
    → Inv peer
    → Inv e
    → is_role e.role active && is_role peer.role active ≡ false
    → Turn peer e f
    → Fair peer f
Turn-Fair peer e f vp ve a (ticks c at now_ms gateway_ok h) = record {
  inv = ground (arith, tick-Inv e now_ms (some (seen c peer at)) gateway_ok);
  apart = tick_apart peer e f c at now_ms gateway_ok vp a h;
}
Turn-Fair peer e f vp ve a (hands_over v now_ms manual h) =
    ground
      (arith, request_handover-Inv e v now_ms manual, stays_inactive_handover e f v now_ms manual h)
Turn-Fair peer e f vp ve a (asks v now_ms h) =
    ground (arith, request_active-Inv e v now_ms, stays_inactive_ask e f v now_ms h)
Turn-Fair peer e f vp ve a (persists persist) =
    let v = set_persist-Inv e persist ve in unfold set_persist in ground (arith, v)

-- From two nodes of which at most one is Active, no history of ticks on each other's current
-- heartbeat and of dashboard commands makes both Active, whatever the times, the gateways' answers
-- and the views that the commands act on.
pub History-Safe : (l r l' r' : Election) → Safe l r → History l r l' r' → Safe l' r'
History-Safe l r l' r' s start = s
History-Safe l r l' r' s (left {l₁ = l₁} {r₁ = r₁} h t) =
    let before = History-Safe l r l₁ r₁ s h in
    let after = Turn-Fair r₁ l₁ l' before.right_inv before.left_inv before.one_active t in
    record { left_inv = after.inv; right_inv = before.right_inv; one_active = after.apart }
History-Safe l r l' r' s (right {l₁ = l₁} {r₁ = r₁} h t) =
    let before = History-Safe l r l₁ r₁ s h in
    let after =
      Turn-Fair l₁ r₁ r' before.left_inv before.right_inv (ground (arith, before.one_active)) t in
    record {
      left_inv = before.left_inv;
      right_inv = after.inv;
      one_active = ground (arith, after.apart);
    }
