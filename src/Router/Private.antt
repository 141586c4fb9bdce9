-- ===== src/Router/Private.antt =====
-- The set-up of a private call (src/router.rs, `handle_private_setup` and `reject_setup`). What
-- the SIP bridge does when it takes a set-up, and the AmbienceListen command to the target's
-- Basestation, are other parts' steps.
use brew_server.Common.{
  ℕ, Bool, not, ◌&&◌, ◌||◌, Option, none, some, List, [], ◌∷◌, if◌then◌else◌, ltb, ◌==◌, nat_eq,
  list_eq, Text, length, le_at, lookup, insert,
}
use brew_server.State.{ClientId, CallId, Inner, ActiveCall, private, forward_version}
use brew_server.Protocol.{
  adapt_to_version, build_call_cause, call_setup_reject, cause_called_party_not_reachable,
}
use brew_server.Protocol.Parse.{
  CallPayload, group_transmission, circular_call, cause, empty, short_transfer, raw_payload,
}
use brew_server.Fedroute.Dedup.{note_call}
use brew_server.Router.Group.{copied}
use brew_server.Connections.{tell}
use brew_server.Router.{
  Env, Outcome, quiet, is_blocked, is_emergency_call, is_peer, fan_out, ambience_listening_service,
}

-- Source and destination of a payload that the parser left raw (src/protocol.rs).
unfoldable pub raw_peer_pair : CallPayload → Option (ℕ × ℕ)
raw_peer_pair payload = elim payload [
  | raw_payload raw ↦ if ltb (length raw) 8 then none else some (le_at 4 raw 0, le_at 4 raw 4)
  | group_transmission gt ↦ none
  | circular_call c ↦ none
  | cause c ↦ none
  | empty ↦ none
  | short_transfer s d ↦ none
]

pub record Setup : Type 0 where
  pub source_issi : ℕ
  pub destination : ℕ
  pub number : Text
  pub service : ℕ
  pub priority : ℕ

abbrev pub setup_of_pair : Option (ℕ × ℕ) → Option Setup
setup_of_pair none = none
setup_of_pair (some (s, d)) =
    some (record { source_issi = s; destination = d; number = []; service = 0; priority = 0 })

-- What the set-up asks for.
unfoldable pub setup_of : CallPayload → Option Setup
unfolding raw_peer_pair
setup_of payload = elim payload [
  | circular_call c ↦ some (record {
    source_issi = c.source;
    destination = c.destination;
    number = c.number;
    service = c.service;
    priority = c.priority;
  })
  | group_transmission gt ↦ setup_of_pair (raw_peer_pair (group_transmission gt))
  | cause c ↦ setup_of_pair (raw_peer_pair (cause c))
  | empty ↦ setup_of_pair (raw_peer_pair empty)
  | short_transfer s d ↦ setup_of_pair (raw_peer_pair (short_transfer s d))
  | raw_payload raw ↦ setup_of_pair (raw_peer_pair (raw_payload raw))
]

unfoldable pub reject_setup : Inner → ClientId → CallId → Outcome
reject_setup inner source id = record {
  inner = inner;
  sends =
      tell inner.clients (build_call_cause call_setup_reject id cause_called_party_not_reachable)
        (source ∷ []);
  ended = [];
}

-- A blacklisted caller, or a blacklisted callee without ambience listening.
unfoldable pub barred : Env → Setup → Bool
barred env s =
    (is_blocked env s.source_issi
      || is_blocked env s.destination && not (s.service == ambience_listening_service))
    && not (is_emergency_call env s.source_issi s.priority)

unfoldable pub start_private : Env → Inner → ClientId → CallId → Setup → ClientId → List ℕ → Outcome
start_private env inner source id s target raw =
    let call : ActiveCall = record {
      kind = private;
      owner = source;
      source_issi = s.source_issi;
      destination = s.destination;
      priority = s.priority;
      peers = target ∷ [];
      started_at = env.now;
      last_activity_ms = env.now;
    } in
    record {
      inner = record inner { calls = insert id call inner.calls };
      sends = fan_out inner.clients (λ _ c. adapt_to_version raw (forward_version c)) (target ∷ []);
      ended = [];
    }

-- The set-up once it is noted.
unfoldable pub place_private : Env → Inner → ClientId → CallId → Setup → List ℕ → Outcome
unfolding reject_setup barred start_private
place_private env inner source id s raw =
    if barred env s
    then reject_setup inner source id
    else elim (lookup s.destination inner.subscribers) [
      | none ↦
          if env.brew_to_sip id s.source_issi s.number s.destination
          then quiet inner
          else reject_setup inner source id
      | some sub ↦
          if sub.client_id == source
          then if is_peer inner source then quiet inner else reject_setup inner source id
          else start_private env inner source id s sub.client_id raw
    ]

unfoldable pub handle_private_setup :
    Env → Inner → ClientId → CallId → CallPayload → List ℕ → Outcome
unfolding setup_of place_private note_call
handle_private_setup env inner source id payload raw = elim (setup_of payload) [
  | none ↦ quiet inner
  | some s ↦
      if copied env inner source id s.source_issi
      then quiet inner
      else place_private env (note_call inner id s.source_issi source env.now) source id s raw
]
