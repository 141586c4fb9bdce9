-- ===== src/Router/Group.antt =====
-- The set-up of a group call (src/router.rs, `handle_group_tx`).
use brew_server.Common.{
  ℕ, Bool, not, ◌&&◌, ◌||◌, none, some, List, [], ◌∷◌, ◌++◌, if◌then◌else◌, max, ltb, ◌==◌, nat_eq,
  list_eq, lookup, insert, remove, contains, contains_key, add, discard, to_set, keys,
}
use brew_server.State.{
  ClientId, CallId, Client, is_mode, peer, Inner, ActiveCall, group, Send, forward_version,
}
use brew_server.Protocol.{adapt_to_version, build_call_cause, call_group_idle}
use brew_server.Protocol.Parse.{
  GroupTransmission, CallPayload, group_transmission, circular_call, cause, empty, short_transfer,
  raw_payload,
}
use brew_server.Fedroute.Dedup.{is_duplicate, note_call}
use brew_server.Fedroute.Messages.Build.{build_prune}
use brew_server.Fedroute.Table.{is_empty, members}
use brew_server.Connections.{tell}
use brew_server.Router.{
  Config, Env, Outcome, quiet, is_blocked, is_emergency_call, emergency_priority,
  with_emergency_priority, is_peer, peer_links, extend, only, fan_out, running_headers,
}

-- Whether a new transmission takes the floor from a running call.
abbrev pub wins : Config → ℕ → ℕ → Bool
wins config new old = if config.higher_priority_number_wins then ltb old new else ltb new old

-- What the floor of the destination is to a new transmission.
pub data Floor : Type 0 where
  free occupied : Floor
  preempts : CallId → ActiveCall → Floor

unfoldable pub floor_for : Config → Inner → CallId → GroupTransmission → Floor
floor_for config inner id gt =
    if config.allow_multiple_calls_per_group
    then free
    else elim (lookup gt.destination inner.group_floor) [
      | none ↦ free
      | some existing_id ↦
          if existing_id == id then free else elim (lookup existing_id inner.calls) [
            | none ↦ free
            | some existing ↦
                if wins config gt.priority existing.priority
                then preempts existing_id existing
                else occupied
          ]
    ]

-- A pre-empted call is released to all its parties and gone.
unfoldable pub release : Config → Inner → CallId → ActiveCall → List Send
release config inner id call =
    tell inner.clients (build_call_cause call_group_idle id config.preempt_cause)
      (add call.owner call.peers)

-- The members of the group, or everyone.
unfoldable pub members_or_all : Config → Inner → ℕ → List ClientId
members_or_all config inner gssi =
    let everyone = to_set (keys inner.clients) in
    let targets =
      if config.route_without_affiliations then everyone else members gssi inner.group_clients in
    if is_empty targets
      && not config.route_without_affiliations
      && config.fallback_broadcast_when_no_affiliations
    then everyone
    else targets

-- The peer links that already carry this talker's call.
unfoldable pub carriers : Inner → ClientId → CallId → ℕ → List ClientId
carriers inner source id talker = elim (lookup id inner.calls) [
  | none ↦ []
  | some c ↦
      if c.owner == source && c.source_issi == talker
      then only (λ p. is_peer inner p) c.peers
      else []
]

unfoldable pub targets :
    Config → Inner → ClientId → CallId → GroupTransmission → Bool → List ClientId
unfolding members_or_all carriers
targets config inner source id gt emergency =
    let reached =
      extend (members_or_all config inner gt.destination) (carriers inner source id gt.source) in
    discard source (
      if emergency
      then extend (extend reached inner.consoles) (peer_links inner.clients)
      else reached)

unfoldable pub raised_priority : Bool → ℕ → ℕ
raised_priority emergency priority = if emergency then max priority emergency_priority else priority

-- The call's entry, its floor, its set-up packet, and its note against copies.
unfoldable pub start_call :
    Inner → ClientId → CallId → GroupTransmission → List ℕ → ℕ → Bool → List ClientId → Inner
unfolding raised_priority note_call
start_call inner source id gt raw now emergency peers =
    let call : ActiveCall = record {
      kind = group;
      owner = source;
      source_issi = gt.source;
      destination = gt.destination;
      priority = raised_priority emergency gt.priority;
      peers = peers;
      started_at = now;
      last_activity_ms = now;
    } in
    let calls = insert id call inner.calls in
    let started = record inner {
      group_floor = insert gt.destination id inner.group_floor;
      calls = calls;
      group_tx_raw = insert id raw (running_headers calls inner.group_tx_raw);
    } in
    note_call started id gt.source source now

-- The packet in the recipient's layout; consoles and peers see an emergency by its priority.
unfoldable pub header_for : Inner → GroupTransmission → List ℕ → Bool → ClientId → Client → List ℕ
header_for inner gt raw emergency id c =
    let raise =
      emergency
      && ltb gt.priority emergency_priority
      && (contains inner.consoles id || is_mode c.mode peer) in
    adapt_to_version (if raise then with_emergency_priority raw else raw) (forward_version c)

-- From the choice of targets on, with what a pre-emption sent and ended.
unfoldable pub admit :
    Env → Inner → ClientId → CallId → GroupTransmission → List ℕ → List Send → List CallId → Outcome
unfolding targets start_call header_for
admit env inner source id gt raw releases ended =
    let emergency = is_emergency_call env gt.source gt.priority in
    let peers = targets env.config inner source id gt emergency in
    let inner = start_call inner source id gt raw env.now emergency peers in
    record {
      inner = inner;
      sends = releases ++ fan_out inner.clients (header_for inner gt raw emergency) peers;
      ended = ended;
    }

-- A copy over a second peer link: one that speaks `fedroute` is asked to stop.
unfoldable pub prune_source : Inner → ClientId → CallId → ℕ → List Send
prune_source inner source id talker =
    if contains_key source inner.fed.links
    then tell inner.clients (build_prune id talker) (source ∷ [])
    else []

-- The floor decides about a transmission that is not dropped.
unfoldable pub compete : Env → Inner → ClientId → CallId → GroupTransmission → List ℕ → Outcome
unfolding floor_for release admit
compete env inner source id gt raw = elim (floor_for env.config inner id gt) [
  | free ↦ admit env inner source id gt raw [] []
  | occupied ↦ quiet inner
  | preempts existing_id existing ↦
      admit env (record inner { calls = remove existing_id inner.calls }) source id gt raw
        (release env.config inner existing_id existing) (existing_id ∷ [])
]

-- Held back by the blacklist, or a copy over a second peer link.
abbrev pub held_back : Env → GroupTransmission → Bool
held_back env gt = is_blocked env gt.source && not (is_emergency_call env gt.source gt.priority)

abbrev pub copied : Env → Inner → ClientId → CallId → ℕ → Bool
copied env inner source id talker =
    is_peer inner source && is_duplicate inner id talker source env.now

unfoldable pub group_tx : Env → Inner → ClientId → CallId → GroupTransmission → List ℕ → Outcome
unfolding compete prune_source
group_tx env inner source id gt raw =
    if held_back env gt
    then quiet inner
    else if copied env inner source id gt.source
    then record { inner = inner; sends = prune_source inner source id gt.source; ended = [] }
    else compete env inner source id gt raw

unfoldable pub handle_group_tx : Env → Inner → ClientId → CallId → CallPayload → List ℕ → Outcome
unfolding group_tx
handle_group_tx env inner source id payload raw = elim payload [
  | group_transmission gt ↦ group_tx env inner source id gt raw
  | circular_call c ↦ quiet inner
  | cause c ↦ quiet inner
  | empty ↦ quiet inner
  | short_transfer s d ↦ quiet inner
  | raw_payload bytes ↦ quiet inner
]
