-- ===== src/Router/LateEntry.antt =====
-- Who is brought into a running group call (src/router.rs): `late_entry` of a connection that
-- joins a group, and `emergency_raised`, which brings in the consoles and the peer links.
pub mod Joined
use brew_server.Common.{
  ℕ, Bool, true, false, not, ◌&&◌, ◌||◌, Option, none, some, List, [], ◌∷◌, ◌++◌, if◌then◌else◌,
  ltb, leb, nat_beq, ◌==◌, nat_eq, list_eq, Map, lookup, contains, add, remove, insert,
}
use brew_server.State.{
  ClientId, CallId, Client, ConnVersion, Inner, ActiveCall, is_group, Send, forward_version,
}
use brew_server.Protocol.{adapt_to_version}
use brew_server.Protocol.Build.{build_group_tx}
use brew_server.Fedroute.Table.{is_empty}
use brew_server.Router.{
  Outcome, quiet, emergency_priority, with_emergency_priority, is_peer, peer_links, extend, only,
  fan_out, running_headers,
}

-- Whether the call takes the connection on.
abbrev pub joins : ClientId → List ℕ → ActiveCall → Bool
joins client groups call =
    is_group call.kind
    && contains groups call.destination
    && not (call.owner == client || contains call.peers client)

-- The GROUP_TX for the connection: the one that set the call up, or a made one.
unfoldable pub late_header : Map CallId (List ℕ) → Bool → ConnVersion → CallId → ActiveCall → List ℕ
late_header headers console version id call =
    let header : List ℕ = elim (lookup id headers) [
      | none ↦ build_group_tx id call.source_issi call.destination call.priority
      | some raw ↦ raw
    ] in
    adapt_to_version
      (if console && leb emergency_priority call.priority
        then with_emergency_priority header
        else header)
      version

-- The loop over the calls.
unfoldable pub join_calls : ClientId → List ℕ → Map CallId ActiveCall → Map CallId ActiveCall
join_calls client groups [] = []
join_calls client groups ((id, call) ∷ calls) =
    let rest = join_calls client groups calls in
    if joins client groups call
    then (id, record call { peers = add client call.peers }) ∷ rest
    else (id, call) ∷ rest

unfoldable pub late_headers :
    ClientId → List ℕ → (CallId → ActiveCall → List ℕ) → Map CallId ActiveCall → List Send
late_headers client groups header [] = []
late_headers client groups header ((id, call) ∷ calls) =
    let rest = late_headers client groups header calls in
    if joins client groups call then (client, header id call) ∷ rest else rest

unfoldable pub late_entry : Inner → ClientId → List ℕ → Inner × List Send
unfolding join_calls late_headers late_header
late_entry inner client groups =
    if is_empty groups || is_peer inner client
    then (inner, [])
    else elim (lookup client inner.clients) [
      | none ↦ (inner, [])
      | some c ↦
          let headers = running_headers inner.calls inner.group_tx_raw in
          let console = contains inner.consoles client in
          (
            record inner { calls = join_calls client groups inner.calls; group_tx_raw = headers },
            late_headers client groups (late_header headers console (forward_version c))
                inner.calls,
          )
    ]

-- Whether an alarm of the ISSI makes the call an emergency call.
abbrev pub escalates : ℕ → ActiveCall → Bool
escalates issi call =
    is_group call.kind && call.source_issi == issi && ltb call.priority emergency_priority

-- The consoles and peer links that the call does not reach yet.
unfoldable pub newcomers : List ClientId → ActiveCall → List ClientId
newcomers consoles call = only (λ c. not (c == call.owner) && not (contains call.peers c)) consoles

unfoldable pub escalate : List ClientId → ActiveCall → ActiveCall
unfolding newcomers
escalate consoles call = record call {
  priority = emergency_priority;
  peers = extend call.peers (newcomers consoles call);
}

unfoldable pub escalate_calls : ℕ → List ClientId → Map CallId ActiveCall → Map CallId ActiveCall
unfolding escalate
escalate_calls issi consoles [] = []
escalate_calls issi consoles ((id, call) ∷ calls) =
    let rest = escalate_calls issi consoles calls in
    (id, if escalates issi call then escalate consoles call else call) ∷ rest

unfoldable pub alarm_headers : Inner → ℕ → List ClientId → Map CallId ActiveCall → List Send
unfolding newcomers
alarm_headers inner issi consoles [] = []
alarm_headers inner issi consoles ((id, call) ∷ calls) =
    let rest = alarm_headers inner issi consoles calls in
    let told =
      only (λ c. contains inner.consoles c || is_peer inner c)
        (call.peers ++ newcomers consoles call) in
    let header = build_group_tx id issi call.destination emergency_priority in
    if escalates issi call then fan_out inner.clients (λ _ _. header) told ++ rest else rest

unfoldable pub emergency_raised : Inner → ℕ → Outcome
unfolding escalate_calls alarm_headers
emergency_raised inner issi =
    let consoles = inner.consoles ++ peer_links inner.clients in
    record {
      inner = record inner { calls = escalate_calls issi consoles inner.calls };
      sends = alarm_headers inner issi consoles inner.calls;
      ended = [];
    }
