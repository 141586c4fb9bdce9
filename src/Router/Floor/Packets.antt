-- ===== src/Router/Floor/Packets.antt =====
-- Every packet keeps the calls and floors right (src/router.rs, `handle_packet`).
use brew_server.Common.{
  ℕ, ◌≡◌, refl, Bool, false, inl, inr, Bool-cases, Result-cases, List, arith, ◌==◌, nat_eq,
  option_eq, Text, get_elem?, some,
}
use brew_server.State.{ClientId, ConnVersion, Inner}
use brew_server.Protocol.{class_federation}
use brew_server.Protocol.Parse.{
  BrewMessage, subscriber, call_control, frame, error, service, CallControlMessage, FrameMessage,
  parse_with_version,
}
use brew_server.Connections.{promote_client_version}
use brew_server.Connections.Floors.{SameCalls}
use brew_server.Fedroute.Adverts.{purge_bts}
use brew_server.Router.{Env}
use brew_server.Router.Packet.{
  purge_ephemeral, client_version, promoted, on_call_control, on_frame, on_message, handle_packet,
}
use brew_server.Router.Packet.Cases.{on_call_control-cases, on_frame-cases}
use brew_server.Router.Floor.{CallsInv}
use brew_server.Router.Floor.Handlers.{handle_group_tx-CallsInv, end_call-CallsInv}
use brew_server.Router.Floor.Parties.{
  handle_private_setup-CallsInv, route_frame-CallsInv, route_private_control-CallsInv,
}
use brew_server.Router.Floor.Tables.{
  SameCalls-CallsInv, handle_sds_header-SameCalls, handle_sds_transfer-SameCalls,
  handle_sds_report-SameCalls, handle_subscriber-CallsInv, handle-CallsInv,
}

on_call_control-CallsInv :
    (env : Env) (inner : Inner) (source : ClientId) (cc : CallControlMessage) (raw : List ℕ)
    → env.config.allow_multiple_calls_per_group ≡ false
    → CallsInv inner
    → CallsInv (on_call_control env inner source cc raw).inner
on_call_control-CallsInv env inner source cc raw one v =
    let id = cc.identifier in
    on_call_control-cases CallsInv env inner source cc raw
      (handle_group_tx-CallsInv env inner source id cc.payload raw one v)
      (SameCalls-CallsInv inner _ (handle_sds_header-SameCalls env inner source id cc.payload raw)
        v)
      (handle_private_setup-CallsInv env inner source id cc.payload raw v)
      (route_private_control-CallsInv env inner source id raw v)
      (end_call-CallsInv env inner source id raw v) v

on_frame-CallsInv :
    (env : Env) (inner : Inner) (source : ClientId) (f : FrameMessage) (raw : List ℕ)
    → CallsInv inner
    → CallsInv (on_frame env inner source f raw).inner
on_frame-CallsInv env inner source f raw v =
    let id = f.identifier in
    on_frame-cases CallsInv env inner source f raw
      (SameCalls-CallsInv inner _ (handle_sds_transfer-SameCalls env inner source id raw) v)
      (SameCalls-CallsInv inner _ (handle_sds_report-SameCalls inner source id raw) v)
      (route_frame-CallsInv env inner source id raw v) v

on_message-CallsInv :
    (env : Env) (inner : Inner) (source : ClientId) (msg : BrewMessage) (raw : List ℕ)
    → env.config.allow_multiple_calls_per_group ≡ false
    → CallsInv inner
    → CallsInv (on_message env inner source msg raw).inner
unfolding on_message
on_message-CallsInv env inner source (subscriber m) raw one v =
    handle_subscriber-CallsInv inner source m env.now v
on_message-CallsInv env inner source (call_control cc) raw one v =
    on_call_control-CallsInv env inner source cc raw one v
on_message-CallsInv env inner source (frame f) raw one v =
    on_frame-CallsInv env inner source f raw v
on_message-CallsInv env inner source (error t bytes) raw one v = v
on_message-CallsInv env inner source (service t json) raw one v = v

promoted-SameCalls :
    (inner : Inner) (source : ClientId) (detected : ConnVersion)
    → SameCalls inner (promoted inner source detected)
unfolding promoted promote_client_version
promoted-SameCalls inner source detected = record { calls = ground arith; floors = ground arith }

purge_ephemeral-SameCalls : (inner : Inner) (now : ℕ) → SameCalls inner (purge_ephemeral inner now)
unfolding purge_ephemeral purge_bts
purge_ephemeral-SameCalls inner now = record { calls = refl; floors = refl }

-- Whatever bytes arrive over whatever connection, `handle_packet` keeps the calls and floors
-- right: no call stands twice in the table or counts its owner among its peers, and every running
-- group call holds the floor of its group. This is with one call per group.
pub handle_packet-CallsInv :
    (utf8 : List ℕ → Bool) (lossy : List ℕ → Text) (env : Env) (inner : Inner) (source : ClientId)
    (raw : List ℕ)
    → env.config.allow_multiple_calls_per_group ≡ false
    → CallsInv inner
    → CallsInv (handle_packet utf8 lossy env inner source raw).inner
unfolding handle_packet
handle_packet-CallsInv utf8 lossy env before source raw one v =
    let inner = purge_ephemeral before env.now in
    let u = SameCalls-CallsInv before inner (purge_ephemeral-SameCalls before env.now) v in
    elim (Bool-cases (get_elem? raw 0 == some class_federation)) [
      | inl f ↦ rw (f, handle_packet) (handle-CallsInv utf8 inner source raw env.now u)
      | inr f ↦
          elim (Result-cases (parse_with_version utf8 lossy raw (client_version inner source))) [
            | inl ((msg, detected), p) ↦
                rw (f, p, handle_packet)
                  (on_message-CallsInv env (promoted inner source detected) source msg raw one
                    (SameCalls-CallsInv inner _ (promoted-SameCalls inner source detected) u))
            | inr (e, p) ↦ rw (f, p, handle_packet) u
          ]
    ]
