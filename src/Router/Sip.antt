-- ===== src/Router/Sip.antt =====
-- What the SIP bridge does to the shared state (src/sip/bridge.rs): the virtual connection and the
-- call of each kind of bridged call, and its end (`teardown`). SIP signalling and media are not
-- here.
use brew_server.Common.{
  ℕ, Bool, false, not, ◌&&◌, ◌||◌, nat_beq, length, Option, none, some, List, [], ◌∷◌,
  if◌then◌else◌, ◌==◌, nat_eq, list_eq, option_eq, lookup, insert, remove, add, discard,
}
use brew_server.State.{
  ClientId, CallId, CallKind, Client, Inner, ActiveCall, is_group, group, private, Send, terminal,
  v1,
}
use brew_server.Protocol.{build_call_cause, call_group_idle, call_release, call_setup_accept}
use brew_server.Protocol.Build.{build_group_tx, build_circular_call_setup, build_call_control_empty}
use brew_server.Fedroute.Table.{join, members}
use brew_server.Connections.{tell}
use brew_server.Router.{Config}

abbrev pub virtual_terminal : ℕ → Client
virtual_terminal now = record {
  mode = terminal;
  version = v1;
  version_announced = false;
  remote_addr = none;
  connected_at_ms = now;
  username = none;
}

-- The call of a bridge: nobody's ISSI, priority 0.
abbrev pub bridged_call : CallKind → ClientId → ℕ → List ClientId → ℕ → ActiveCall
bridged_call kind owner destination peers now = record {
  kind = kind;
  owner = owner;
  source_issi = 0;
  destination = destination;
  priority = 0;
  peers = peers;
  started_at = now;
  last_activity_ms = now;
}

-- A SIP caller rings an ISSI behind `target`.
unfoldable pub sip_to_private : Inner → CallId → ClientId → ClientId → ℕ → ℕ → Inner × List Send
sip_to_private inner id virtual_client target issi now =
    let clients = insert virtual_client (virtual_terminal now) inner.clients in
    (
      record inner {
        clients = clients;
        calls = insert id (bridged_call private virtual_client issi (target ∷ []) now) inner.calls;
      },
      tell clients (build_circular_call_setup id 0 issi 0) (target ∷ []),
    )

-- A SIP caller talks to a group: a member of it, with the floor.
unfoldable pub seize_group : Inner → CallId → ClientId → ℕ → ℕ → Inner × List Send
seize_group inner id virtual_client gssi now =
    let clients = insert virtual_client (virtual_terminal now) inner.clients in
    let groups = join gssi virtual_client inner.group_clients in
    let targets = discard virtual_client (members gssi groups) in
    (
      record inner {
        clients = clients;
        group_clients = groups;
        calls = insert id (bridged_call group virtual_client gssi targets now) inner.calls;
        group_floor = insert gssi id inner.group_floor;
      },
      tell clients (build_group_tx id 0 gssi 0) targets,
    )

-- Whether the call is refused with 480: nobody is affiliated, and there is no fallback.
abbrev pub is_unattended : Config → Inner → ℕ → Bool
is_unattended config inner gssi =
    nat_beq (length (members gssi inner.group_clients)) 0
    && not config.fallback_broadcast_when_no_affiliations

-- A SIP call to a group. Whether the relay has a leg for it, or it is refused with 500, is an argument.
unfoldable pub sip_to_group : Config → Inner → CallId → ClientId → ℕ → Bool → ℕ → Inner × List Send
unfolding seize_group
sip_to_group config inner id virtual_client gssi has_leg now =
    if is_unattended config inner gssi || not has_leg
    then (inner, [])
    else seize_group inner id virtual_client gssi now

-- A private call of the connection goes out to SIP.
unfoldable pub private_to_sip : Inner → CallId → ClientId → ClientId → ℕ → Inner × List Send
private_to_sip inner id client virtual_client now =
    let clients = insert virtual_client (virtual_terminal now) inner.clients in
    (
      record inner {
        clients = clients;
        calls = insert id (bridged_call private client 0 (virtual_client ∷ []) now) inner.calls;
      },
      tell clients (build_call_control_empty call_setup_accept id) (client ∷ []),
    )

pub record BridgedLeg : Type 0 where
  pub virtual_client : ClientId
  pub brew_call_id : CallId
  pub group : Option ℕ

-- The group that the leg was a member of, and its floor.
unfoldable pub leave_group : Inner → BridgedLeg → ℕ → Inner
leave_group inner leg gssi = record inner {
  group_clients = elim (lookup gssi inner.group_clients) [
    | none ↦ inner.group_clients
    | some ms ↦ insert gssi (discard leg.virtual_client ms) inner.group_clients
  ];
  group_floor =
      if lookup gssi inner.group_floor == some leg.brew_call_id
      then remove gssi inner.group_floor
      else inner.group_floor;
}

unfoldable pub teardown : Inner → BridgedLeg → Inner × List Send
unfolding leave_group
teardown inner leg =
    let gone = record inner {
      clients = remove leg.virtual_client inner.clients;
      calls = remove leg.brew_call_id inner.calls;
    } in
    let after : Inner = elim leg.group [ none ↦ gone | some gssi ↦ leave_group gone leg gssi ] in
    let notices : List Send = elim (lookup leg.brew_call_id inner.calls) [
      | none ↦ []
      | some call ↦
          tell gone.clients
            (build_call_cause (if is_group call.kind then call_group_idle else call_release)
              leg.brew_call_id 0)
            (discard leg.virtual_client (add call.owner call.peers))
    ] in
    (after, notices)
