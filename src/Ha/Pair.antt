-- ===== src/Ha/Pair.antt =====
-- Two nodes that tick in turn, each on the other's current heartbeat (src/ha.rs, `Election::tick`
-- as `run` drives it).
use brew_server.Common.{
  ℕ, ◌≡◌, ◌≢◌, Bool, true, false, not, ◌||◌, none, some, arith, Returns, list_eq, list_beq_iff,
  nat_eq, ltb, nat_beq, text_lt, ◌&&◌,
}
use brew_server.Ha.Election.{
  is_role, standby, active, init, Election, PeerView, accepted, preferred, start_handover,
  request_standby, tick,
}
use brew_server.Ha.Election.Order.{preferred_asymm, preferred_total}
use brew_server.Ha.Election.Invariant.{Inv}
use brew_server.Ha.Heartbeat.{Context, seen}

-- A fresh view of an Active peer never makes a node that is not Active become Active.
pub tick_yields :
    (e : Election) (now_ms : ℕ) (p : PeerView) (gateway_ok : Bool)
    → p.role ≡ active
    → p.handover_to ≡ none
    → is_role e.role active ≡ false
    → Returns (tick e now_ms (some p) gateway_ok) (λ f. is_role f.role active ≡ false)
unfolding tick
tick_yields e now_ms p gateway_ok a h n = ground arith

-- Both nodes Active, as after a healed partition: whoever ticks first, exactly one of them is
-- still Active after both have ticked on the other's heartbeat, provided that their names differ
-- and their gateways answer.
pub split_brain_resolves :
    (c d : Context) (l r : Election) (t u v : ℕ)
    → Inv l
    → Inv r
    → l.node ≢ r.node
    → l.role ≡ active
    → r.role ≡ active
    → Returns (tick l t (some (seen d r u)) true) (λ l'.
      Returns
        (tick r v (some (seen c l' t)) true)
        (λ r'. is_role l'.role active ≡ not (is_role r'.role active)))
unfolding tick seen
split_brain_resolves c d l r t u v il ir dn al ar = ground (
  arith,
  preferred_asymm (l.weight, l.node) (r.weight, r.node),
  preferred_asymm (r.weight, r.node) (l.weight, l.node),
  preferred_total (l.weight, l.node) (r.weight, r.node) dn,
  preferred_total (r.weight, r.node) (l.weight, l.node),
)

-- The weight decides, and the name at equal weights.
abbrev pub is_ahead : Election → Election → Bool
is_ahead l r = ltb r.weight l.weight || nat_beq l.weight r.weight && text_lt r.node l.node

-- Both nodes Standby or starting, with no handover or takeover under way: after the left and then
-- the right one have ticked on the other's heartbeat, the node of the higher weight is Active, at
-- equal weights the one of the greater name, and the other is not. This is provided that their names
-- differ and their gateways answer.
pub standby_pair_elects :
    (c d : Context) (l r : Election) (t u v : ℕ)
    → l.node ≢ r.node
    → is_role l.role standby || is_role l.role init ≡ true
    → is_role r.role standby || is_role r.role init ≡ true
    → l.handover ≡ none
    → r.handover ≡ none
    → l.takeover_until_ms ≡ none
    → r.takeover_until_ms ≡ none
    → Returns (tick l t (some (seen d r u)) true) (λ l'.
      Returns
        (tick r v (some (seen c l' t)) true)
        (λ r'. (is_role l'.role active ≡ is_ahead l r) × (is_role r'.role active ≡ is_ahead r l)))
unfolding tick seen preferred
standby_pair_elects c d l r t u v dn sl sr hl hr tl tr = ground (
  arith,
  preferred_asymm (l.weight, l.node) (r.weight, r.node),
  preferred_asymm (r.weight, r.node) (l.weight, l.node),
  preferred_total (l.weight, l.node) (r.weight, r.node) dn,
)

request_standby-start_handover :
    (l l₁ : Election) (v : PeerView) (s : ℕ)
    → request_standby l (some v) s ≡ accepted l₁
    → l₁ ≡ start_handover l v.node true s
unfolding request_standby
request_standby-start_handover l l₁ v s a = ground arith

-- The peer takes over what a node in a handover to it announces.
takes_over :
    (c d : Context) (l r : Election) (s t u : ℕ)
    → r.handover ≡ none
    → Returns (tick r t (some (seen c (start_handover l r.node true s) s)) true) (λ r'.
      (r'.role ≡ active)
      × (r'.hold ≡ true)
      × Returns
          (tick (start_handover l r.node true s) u (some (seen d r' t)) true)
          (λ l'. (l'.role ≡ standby) × (l'.handover ≡ none)))
unfolding tick seen start_handover
takes_over c d l r s t u h = ground (arith, list_beq_iff r.node r.node)

-- "Make Standby" is accepted on a node that sees the other one by its name: the other takes over
-- with a hold on its next tick on the first one's heartbeat, and the first stays Standby with its
-- handover over on its next tick. This is provided that the other has no handover of its own
-- under way, and both gateways answer.
pub make_standby_switches :
    (c d : Context) (l r l₁ : Election) (s t u : ℕ) (v : PeerView)
    → v.node ≡ r.node
    → r.handover ≡ none
    → request_standby l (some v) s ≡ accepted l₁
    → Returns (tick r t (some (seen c l₁ s)) true) (λ r'.
      (r'.role ≡ active)
      × (r'.hold ≡ true)
      × Returns
          (tick l₁ u (some (seen d r' t)) true)
          (λ l'. (l'.role ≡ standby) × (l'.handover ≡ none)))
make_standby_switches c d l r l₁ s t u v n h a =
    rw (request_standby-start_handover l l₁ v s a, n) (takes_over c d l r s t u h)
