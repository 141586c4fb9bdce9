-- ===== src/Ha/Election/Invariant.antt =====
-- What holds of an election (src/ha.rs) between two of its operations.
use brew_server.Common.{ℕ, ◌≡◌, ◌≢◌, Bool, true, false, Option, none, some, arith, Returns, Text}
use brew_server.Ha.Election.{
  standby, active, fault, Election, PeerView, Request, accepted, refused, new, request_handover,
  request_active, expire_takeover, elect, settle, meet, tick,
}

abbrev pub is_some {ℓ} : {A : Type ℓ} → Option A → Bool
is_some none = false
is_some (some _) = true

-- A manual hold belongs to an Active node; a takeover request and a handover to a Standby one.
pub record Inv (e : Election) : Type 0 where
  pub hold_active : e.hold ≡ true → e.role ≡ active
  pub takeover_standby : is_some e.takeover_until_ms ≡ true → e.role ≡ standby
  pub handover_standby : is_some e.handover ≡ true → e.role ≡ standby

-- The configured identity, which no operation of the election changes.
pub record SameNode (e f : Election) : Type 0 where
  pub node : f.node ≡ e.node
  pub weight : f.weight ≡ e.weight
  pub persist : f.persist ≡ e.persist

pub record Sound (e f : Election) : Type 0 where
  pub inv : Inv f
  pub same : SameNode e f

pub new-Inv :
    (node : Text) (weight : ℕ) (persist : Bool) (now_ms listen_ms : ℕ)
    → Inv (new node weight persist now_ms listen_ms)
unfolding new
new-Inv node weight persist now_ms listen_ms = ground arith

expire_takeover-Sound : (e : Election) (now_ms : ℕ) → Inv e → Sound e (expire_takeover e now_ms)
unfolding expire_takeover
expire_takeover-Sound e now_ms v = ground arith

elect-Sound :
    (e : Election) (now_ms : ℕ) (p : PeerView)
    → Inv e
    → e.role ≢ fault
    → e.handover ≡ none
    → Returns (elect e.role e now_ms p) (Sound e)
unfolding elect
elect-Sound e now_ms p v up h = ground arith

settle-Sound :
    (e : Election) (now_ms : ℕ) (p : PeerView)
    → Inv e
    → e.role ≢ fault
    → e.handover ≡ none
    → Returns (settle e now_ms p) (Sound e)
unfolding settle
settle-Sound e now_ms p v up h = ground arith

meet-Sound :
    (e : Election) (now_ms : ℕ) (p : PeerView)
    → Inv e
    → e.role ≢ fault
    → Returns (meet e now_ms p) (Sound e)
unfolding meet
meet-Sound e now_ms p v up = ground arith

-- A tick always returns, which includes that its `unreachable!` is never run; it keeps the
-- invariant of the election and leaves the node's name, weight and persist setting as they were.
pub tick-Inv :
    (e : Election) (now_ms : ℕ) (peer : Option PeerView) (gateway_ok : Bool)
    → Inv e
    → Returns (tick e now_ms peer gateway_ok) (Sound e)
unfolding tick
tick-Inv e now_ms none gateway_ok v = ground arith
tick-Inv e now_ms (some p) gateway_ok v = ground arith

-- A request that is accepted, by Make Standby, Make Active or a handover, keeps them too.
abbrev pub AfterRequest : (Election → Type 0) → Request → Type 0
AfterRequest P (accepted f) = P f
AfterRequest P (refused _) = Unit

pub request_handover-Inv :
    (e : Election) (peer : Option PeerView) (now_ms : ℕ) (manual : Bool)
    → Inv e
    → AfterRequest (Sound e) (request_handover e peer now_ms manual)
unfolding request_handover
request_handover-Inv e none now_ms manual v = ground arith
request_handover-Inv e (some p) now_ms manual v = ground arith

pub request_active-Inv :
    (e : Election) (peer : Option PeerView) (now_ms : ℕ)
    → Inv e
    → AfterRequest (Sound e) (request_active e peer now_ms)
unfolding request_active
request_active-Inv e none now_ms v = ground arith
request_active-Inv e (some p) now_ms v = ground arith
