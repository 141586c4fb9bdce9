-- ===== src/Router/Packet.antt =====
-- A Brew packet from a connection (src/router.rs, `handle_packet`), with the sweep of what is out of
-- date before it (src/state.rs, `purge_ephemeral`) and the connection's version (`client_version`).
pub mod Cases
use brew_server.Common.{
  ℕ, ◌-◌, Bool, not, ◌&&◌, ◌||◌, Option, none, some, List, [], ◌∷◌, if◌then◌else◌, ltb, nat_beq,
  ◌==◌, nat_eq, option_eq, Text, Result, ok, err, lookup, retain, get_elem?,
}
use brew_server.State.{ClientId, CallId, Inner, Send, ConnVersion, v0, as_u8}
use brew_server.Protocol.{
  class_federation, call_group_tx, call_group_idle, call_setup_request, call_setup_accept,
  call_setup_reject, call_alert, call_connect_request, call_connect_confirm, call_simplex_granted,
  call_simplex_idle, call_short_transfer, call_release,
}
use brew_server.Protocol.Build.{frame_sds_transfer, frame_dtmf}
use brew_server.Protocol.Parse.{
  BrewMessage, subscriber, call_control, frame, error, service, CallControlMessage, FrameMessage,
  parse_with_version,
}
use brew_server.Fedroute.Adverts.{purge_bts}
use brew_server.Fedroute.Dedup.{call_dedup_window}
use brew_server.Fedroute.Handle.{handle}
use brew_server.Connections.{promote_client_version}
use brew_server.Router.{Env}
use brew_server.Router.Group.{handle_group_tx}
use brew_server.Router.Calls.{end_call, route_private_control, route_frame}
use brew_server.Router.Private.{handle_private_setup}
use brew_server.Router.Sds.{handle_sds_header, handle_sds_transfer, handle_sds_report}
use brew_server.Router.Subscribers.{handle_subscriber}

abbrev pub frame_traffic_channel : ℕ
frame_traffic_channel = 0

abbrev pub frame_sds_report : ℕ
frame_sds_report = 2

-- What a packet does: besides the state and the packets sent, the calls that ended, the ISSI whose
-- registration appeared, and the message for the SMS Center.
pub record Effect : Type 0 where
  pub inner : Inner
  pub sends : List Send
  pub ended : List CallId
  pub registered : Option ℕ
  pub store : Option (ℕ × ℕ)

abbrev pub nothing : Inner → Effect
nothing inner = record { inner = inner; sends = []; ended = []; registered = none; store = none }

abbrev pub of_call : brew_server.Router.Outcome → Effect
of_call o = record {
  inner = o.inner;
  sends = o.sends;
  ended = o.ended;
  registered = none;
  store = none;
}

abbrev pub of_table : brew_server.Fedroute.Handle.Outcome → Effect
of_table o = record {
  inner = o.inner;
  sends = o.sends;
  ended = [];
  registered = o.registered;
  store = none;
}

abbrev pub of_sds : brew_server.Router.Sds.SdsOutcome → Effect
of_sds o = record {
  inner = o.inner;
  sends = o.sends;
  ended = [];
  registered = none;
  store = o.store;
}

abbrev pub sds_route_ttl : ℕ
sds_route_ttl = 60_000

unfoldable pub purge_ephemeral : Inner → ℕ → Inner
purge_ephemeral inner now =
    purge_bts
      (record inner {
        sds_routes =
            retain (λ _ route. ltb (now - route.created_at) sds_route_ttl) inner.sds_routes;
        recent_calls = retain (λ _ noted. ltb (now - noted.1) call_dedup_window) inner.recent_calls;
      })
      now

unfoldable pub client_version : Inner → ClientId → ConnVersion
client_version inner id = elim (lookup id inner.clients) [ none ↦ v0 | some c ↦ c.version ]

-- The call states of a private call under way.
unfoldable pub is_private_control : ℕ → Bool
is_private_control s =
    nat_beq s call_setup_accept
    || nat_beq s call_setup_reject
    || nat_beq s call_alert
    || nat_beq s call_connect_request
    || nat_beq s call_connect_confirm
    || nat_beq s call_simplex_granted
    || nat_beq s call_simplex_idle

unfoldable pub on_call_control : Env → Inner → ClientId → CallControlMessage → List ℕ → Effect
unfolding is_private_control
on_call_control env inner source cc raw =
    let s = cc.call_state in
    if nat_beq s call_group_tx
    then of_call (handle_group_tx env inner source cc.identifier cc.payload raw)
    else if nat_beq s call_short_transfer
    then of_sds (handle_sds_header env inner source cc.identifier cc.payload raw)
    else if nat_beq s call_setup_request
    then of_call (handle_private_setup env inner source cc.identifier cc.payload raw)
    else if is_private_control s
    then of_call (route_private_control env inner source cc.identifier raw)
    else if nat_beq s call_group_idle || nat_beq s call_release
    then of_call (end_call env inner source cc.identifier raw)
    else nothing inner

unfoldable pub on_frame : Env → Inner → ClientId → FrameMessage → List ℕ → Effect
on_frame env inner source f raw =
    let t = f.frame_type in
    if nat_beq t frame_sds_transfer
    then of_sds (handle_sds_transfer env inner source f.identifier raw)
    else if nat_beq t frame_sds_report
    then of_sds (handle_sds_report inner source f.identifier raw)
    else if nat_beq t frame_traffic_channel || nat_beq t frame_dtmf
    then of_call (route_frame env inner source f.identifier raw)
    else nothing inner

-- The match on the message; service messages leave `Inner` alone.
unfoldable pub on_message : Env → Inner → ClientId → BrewMessage → List ℕ → Effect
unfolding on_call_control on_frame
on_message env inner source msg raw = elim msg [
  | subscriber m ↦ of_table (handle_subscriber inner source m env.now)
  | call_control cc ↦ on_call_control env inner source cc raw
  | frame f ↦ on_frame env inner source f raw
  | error t bytes ↦ nothing inner
  | service t json ↦ nothing inner
]

unfoldable pub promoted : Inner → ClientId → ConnVersion → Inner
promoted inner source detected =
    if ltb (as_u8 (client_version inner source)) (as_u8 detected)
    then (promote_client_version inner source detected).0
    else inner

unfoldable pub handle_packet :
    (List ℕ → Bool) → (List ℕ → Text) → Env → Inner → ClientId → List ℕ → Effect
unfolding purge_ephemeral client_version promoted on_message
handle_packet utf8 lossy env before source raw =
    let inner = purge_ephemeral before env.now in
    if get_elem? raw 0 == some class_federation
    then of_table (handle utf8 inner source raw env.now)
    else elim (parse_with_version utf8 lossy raw (client_version inner source)) [
      | err e ↦ nothing inner
      | ok parsed ↦ on_message env (promoted inner source parsed.1) source parsed.0 raw
    ]
