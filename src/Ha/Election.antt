-- ===== src/Ha/Election.antt =====
-- The election of src/ha.rs: `Role`, `PeerView`, `Election` and its methods. Times are
-- milliseconds of a clock that is far from the end of u64, so sums of times do not wrap.
-- A node's name is the bytes of its string.
pub mod Invariant
pub mod Order
pub mod Preempt
use brew_server.Common.{
  ℕ, ◌+◌, Bool, true, false, not, ◌&&◌, ◌||◌, Option, none, some, ltb, leb, nat_beq, if◌then◌else◌,
  ◌==◌, nat_eq, list_eq, option_eq, Text, text_lt,
}

pub data Role : Type 0 where
  init standby active fault : Role

abbrev pub is_role : Role → Role → Bool
is_role init init = true
is_role standby standby = true
is_role active active = true
is_role fault fault = true
is_role _ _ = false

abbrev pub handover_timeout_ms : ℕ
handover_timeout_ms = 5000

-- What the election reads of the peer's last heartbeat.
pub record PeerView : Type 0 where
  pub node : Text
  pub role : Role
  pub weight : ℕ
  pub persist : Bool
  pub hold : Bool
  pub handover_to : Option Text
  pub handover_manual : Bool
  pub takeover_request : Bool
  pub synced : Bool

pub record Handover : Type 0 where
  pub to : Text
  pub manual : Bool
  pub until_ms : ℕ

pub record Election : Type 0 where
  pub node : Text
  pub weight : ℕ
  pub persist : Bool
  pub role : Role
  pub hold : Bool
  pub handover : Option Handover
  pub takeover_until_ms : Option ℕ
  pub init_until_ms : ℕ

pub data Refusal : Type 0 where
  not_active no_standby_peer already_active in_fault starting_up unreachable_peer : Refusal

-- `Result<(), &'static str>` of a method that changes the election when it succeeds.
pub data Request : Type 0 where
  accepted : Election → Request
  refused : Refusal → Request

unfoldable pub new : Text → ℕ → Bool → ℕ → ℕ → Election
new node weight persist now_ms listen_ms = record {
  node = node;
  weight = weight;
  persist = persist;
  role = init;
  hold = false;
  handover = none;
  takeover_until_ms = none;
  init_until_ms = now_ms + listen_ms;
}

-- `a > b` on (u32, &str).
unfoldable pub preferred : ℕ × Text → ℕ × Text → Bool
preferred (wa, na) (wb, nb) = if nat_beq wa wb then text_lt nb na else ltb wb wa

-- `a > b` on (bool, u32, &str).
unfoldable pub outranks : Bool × ℕ × Text → Bool × ℕ × Text → Bool
outranks (true, wa, na) (true, wb, nb) = preferred (wa, na) (wb, nb)
outranks (false, wa, na) (false, wb, nb) = preferred (wa, na) (wb, nb)
outranks (true, wa, na) (false, wb, nb) = true
outranks (false, wa, na) (true, wb, nb) = false

unfoldable pub handover_target : Election → Option (Text × Bool)
handover_target e = elim e.handover [ none ↦ none | some h ↦ some (h.to, h.manual) ]

unfoldable pub takeover_requested : Election → ℕ → Bool
takeover_requested e now_ms = elim e.takeover_until_ms [ none ↦ false | some t ↦ ltb now_ms t ]

unfoldable pub set_role : Election → Role → Election
set_role e role = record e {
  hold = if is_role role active then e.hold else false;
  takeover_until_ms = if is_role role standby then e.takeover_until_ms else none;
  role = role;
}

unfoldable pub start_handover : Election → Text → Bool → ℕ → Election
unfolding set_role
start_handover e to manual now_ms =
    let h : Handover = record {
      to = to;
      manual = manual;
      until_ms = now_ms + handover_timeout_ms;
    } in
    set_role (record e { handover = some h }) standby

abbrev is_standby_peer : Option PeerView → Option PeerView
is_standby_peer none = none
is_standby_peer (some p) = if is_role p.role standby || is_role p.role init then some p else none

unfoldable pub request_handover : Election → Option PeerView → ℕ → Bool → Request
unfolding start_handover
request_handover e peer now_ms manual =
    if not (is_role e.role active) then refused not_active else elim (is_standby_peer peer) [
      | none ↦ refused no_standby_peer
      | some p ↦ accepted (start_handover e p.node manual now_ms)
    ]

unfoldable pub request_standby : Election → Option PeerView → ℕ → Request
unfolding request_handover
request_standby e peer now_ms = request_handover e peer now_ms true

unfoldable pub request_active : Election → Option PeerView → ℕ → Request
request_active e peer now_ms = elim e.role [
  | active ↦ refused already_active
  | fault ↦ refused in_fault
  | init ↦ refused starting_up
  | standby ↦ elim peer [
    | none ↦ refused unreachable_peer
    | some _ ↦ accepted (record e { takeover_until_ms = some (now_ms + handover_timeout_ms) })
  ]
]

-- The start of `tick`: a takeover request that has run out is dropped.
unfoldable pub expire_takeover : Election → ℕ → Election
expire_takeover e now_ms = elim e.takeover_until_ms [
  | none ↦ e
  | some t ↦ if leb t now_ms then record e { takeover_until_ms = none } else e
]

-- The gateway is back: start over without the listen delay.
unfoldable pub recover : Election → ℕ → Election
unfolding set_role
recover e now_ms =
    if is_role e.role fault then record (set_role e init) { init_until_ms = now_ms } else e

-- The arm `Role::Active` of the last match of `tick`.
unfoldable pub elect_active : Election → ℕ → PeerView → Election
unfolding set_role start_handover outranks
elect_active e now_ms p =
    if is_role p.role active
    then if outranks (p.persist || p.hold, p.weight, p.node) (e.persist || e.hold, e.weight, e.node)
      then set_role e standby
      else e
    else if p.takeover_request
    then start_handover e p.node true now_ms
    else if not e.persist
        && not e.hold
        && p.synced
        && preferred (p.weight, p.node) (e.weight, e.node)
    then start_handover e p.node false now_ms
    else e

-- The arm `Role::Standby | Role::Init`.
unfoldable pub elect_standby : Election → ℕ → PeerView → Election
unfolding set_role takeover_requested
elect_standby e now_ms p =
    if is_role p.role active
    then set_role e standby
    else let takeover = takeover_requested e now_ms in
      if takeover || preferred (e.weight, e.node) (p.weight, p.node)
      then record (set_role e active) { hold = takeover }
      else set_role e standby

-- The last match; `none` is its `unreachable!`, a panic.
unfoldable pub elect : Role → Election → ℕ → PeerView → Option Election
unfolding elect_active elect_standby
elect active e now_ms p = some (elect_active e now_ms p)
elect standby e now_ms p = some (elect_standby e now_ms p)
elect init e now_ms p = some (elect_standby e now_ms p)
elect fault e now_ms p = none

-- After any handover of our own is over: the peer's handover to us, its Fault, the election.
unfoldable pub settle : Election → ℕ → PeerView → Option Election
unfolding set_role elect
settle e now_ms p =
    if p.handover_to == some e.node
    then some (record (set_role e active) { hold = p.handover_manual })
    else if is_role p.role fault
    then some (if is_role e.role active then e else set_role e active)
    else elect e.role e now_ms p

-- A handover that we started: stay Standby until the peer is Active or it times out.
unfoldable pub meet : Election → ℕ → PeerView → Option Election
unfolding set_role settle
meet e now_ms p = elim e.handover [
  | none ↦ settle e now_ms p
  | some h ↦
      if is_role p.role active || leb h.until_ms now_ms
      then settle (record e { handover = none }) now_ms p
      else some (set_role e standby)
]

-- `tick`, once the gateway is known to be reachable.
unfoldable pub tick_up : Election → ℕ → Option PeerView → Option Election
unfolding set_role meet
tick_up e now_ms none =
    if is_role e.role init && ltb now_ms e.init_until_ms
    then some e
    else some (set_role (record e { handover = none }) active)
tick_up e now_ms (some p) = meet e now_ms p

-- The new role is the result's `role`.
unfoldable pub tick : Election → ℕ → Option PeerView → Bool → Option Election
unfolding expire_takeover set_role recover tick_up
tick e now_ms peer gateway_ok =
    let e' = expire_takeover e now_ms in
    if gateway_ok
    then tick_up (recover e' now_ms) now_ms peer
    else some (set_role (record e' { handover = none }) fault)
