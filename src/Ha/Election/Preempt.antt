-- ===== src/Ha/Election/Preempt.antt =====
-- A tick without the gateway, and one without a peer (src/ha.rs, `Election::tick`).
use brew_server.Common.{ℕ, ◌≡◌, true, false, not, ◌&&◌, Option, none, arith, Returns, ltb}
use brew_server.Ha.Election.{is_role, init, active, fault, Election, PeerView, tick}
use brew_server.Ha.Election.Invariant.{is_some}

-- Without the gateway a tick ends in Fault, and with it and no peer in Active, unless the node is
-- still within the listening time of its start; a handover of its own is dropped in both cases.
pub tick_alone :
    (e : Election) (now_ms : ℕ) (peer : Option PeerView)
    → Returns (tick e now_ms peer false) (λ f. (f.role ≡ fault) × (f.handover ≡ none))
      × Returns (tick e now_ms none true) (λ f.
        (is_role f.role active ≡ not (is_role e.role init && ltb now_ms e.init_until_ms))
        × (is_role f.role active && is_some f.handover ≡ false))
unfolding tick
tick_alone e now_ms peer = (ground arith, ground arith)
