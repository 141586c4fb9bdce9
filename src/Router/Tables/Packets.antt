-- ===== src/Router/Tables/Packets.antt =====
-- Every Brew packet keeps the federation state right (src/router.rs, `handle_packet`).
use brew_server.Common.{
  ℕ, ◌<◌, refl, ap, Bool, inl, inr, Bool-cases, Result-cases, List, arith, ◌==◌, nat_eq, option_eq,
  Text, get_elem?, some,
}
use brew_server.State.{ClientId, ConnVersion, Inner}
use brew_server.Protocol.{class_federation}
use brew_server.Protocol.Parse.{
  BrewMessage, subscriber, call_control, frame, error, service, CallControlMessage, FrameMessage,
  parse_with_version,
}
use brew_server.Connections.{promote_client_version}
use brew_server.Fedroute.Adverts.{purge_bts}
use brew_server.Fedroute.Clock.{u64_max}
use brew_server.Fedroute.Handle.Invariant.{FedInv}
use brew_server.Fedroute.Handle.Steps.{handle-FedInv}
use brew_server.Fedroute.Handle.Keeps.{SameRoutes, SameRoutes-FedInv}
use brew_server.Fedroute.Handle.Below.{Below}
use brew_server.Fedroute.Handle.Below.Messages.{SameOffers, SameOffers-Below}
use brew_server.Router.{Env}
use brew_server.Router.Subscribers.Keeps.{handle_subscriber-FedInv}
use brew_server.Router.Packet.{
  purge_ephemeral, client_version, promoted, on_call_control, on_frame, on_message, handle_packet,
}
use brew_server.Router.Packet.Cases.{on_call_control-cases, on_frame-cases}
use brew_server.Router.Tables.{
  SameTables, SameTables-FedInv, SameTables-Below, same_tables, handle_group_tx-SameTables,
  end_call-SameTables, route_frame-SameTables, route_private_control-SameTables,
  handle_private_setup-SameTables, handle_sds_header-SameTables, handle_sds_transfer-SameTables,
  handle_sds_report-SameTables,
}

promoted-SameTables :
    (inner : Inner) (source : ClientId) (detected : ConnVersion)
    → SameTables inner (promoted inner source detected)
unfolding promoted promote_client_version
promoted-SameTables inner source detected = record {
  fed = ground arith;
  subscribers = ground arith;
  group_clients = ground arith;
}

-- The sweep of old adverts is not about routes.
purge_ephemeral-SameRoutes :
    (inner : Inner) (now : ℕ) → SameRoutes inner (purge_ephemeral inner now)
unfolding purge_ephemeral purge_bts
purge_ephemeral-SameRoutes inner now = record {
  self_id = refl;
  links = refl;
  rib_in = refl;
  subscribers = refl;
  group_clients = refl;
}

purge_ephemeral-SameOffers :
    (inner : Inner) (now : ℕ) → SameOffers inner (purge_ephemeral inner now)
unfolding purge_ephemeral purge_bts
purge_ephemeral-SameOffers inner now = record { rib = refl; clock = refl }

calls_keep :
    (env : Env) (inner : Inner) (source : ClientId) (cc : CallControlMessage) (raw : List ℕ)
    → SameTables inner (on_call_control env inner source cc raw).inner
calls_keep env inner source cc raw =
    let id = cc.identifier in
    on_call_control-cases (SameTables inner) env inner source cc raw
      (handle_group_tx-SameTables env inner source id cc.payload raw)
      (handle_sds_header-SameTables env inner source id cc.payload raw)
      (handle_private_setup-SameTables env inner source id cc.payload raw)
      (route_private_control-SameTables env inner source id raw)
      (end_call-SameTables env inner source id raw) (same_tables inner)

frames_keep :
    (env : Env) (inner : Inner) (source : ClientId) (f : FrameMessage) (raw : List ℕ)
    → SameTables inner (on_frame env inner source f raw).inner
frames_keep env inner source f raw =
    let id = f.identifier in
    on_frame-cases (SameTables inner) env inner source f raw
      (handle_sds_transfer-SameTables env inner source id raw)
      (handle_sds_report-SameTables inner source id raw)
      (route_frame-SameTables env inner source id raw) (same_tables inner)

on_message-FedInv :
    (env : Env) (inner : Inner) (source : ClientId) (msg : BrewMessage) (raw : List ℕ)
    → Below inner
    → inner.fed.clock < u64_max
    → FedInv inner
    → FedInv (on_message env inner source msg raw).inner
unfolding on_message
on_message-FedInv env inner source (subscriber m) raw b room v =
    handle_subscriber-FedInv inner source m env.now b room v
on_message-FedInv env inner source (call_control cc) raw b room v =
    SameTables-FedInv inner _ (calls_keep env inner source cc raw) v
on_message-FedInv env inner source (frame f) raw b room v =
    SameTables-FedInv inner _ (frames_keep env inner source f raw) v
on_message-FedInv env inner source (error t bytes) raw b room v = v
on_message-FedInv env inner source (service t json) raw b room v = v

-- Whatever bytes arrive over whatever connection, Brew or federation, `handle_packet` keeps the
-- federation state right: every offer held came over a negotiated link in an acceptable path, the
-- group memberships of every connection are those of the ISSIs routed over it, and the entry of
-- every ISSI is the best that the offers and the local registration allow. This is when no offer
-- held is newer than the clock, and the clock has room.
pub handle_packet-FedInv :
    (utf8 : List ℕ → Bool) (lossy : List ℕ → Text) (env : Env) (inner : Inner) (source : ClientId)
    (raw : List ℕ)
    → Below inner
    → inner.fed.clock < u64_max
    → FedInv inner
    → FedInv (handle_packet utf8 lossy env inner source raw).inner
unfolding handle_packet
handle_packet-FedInv utf8 lossy env before source raw b room v =
    let inner = purge_ephemeral before env.now in
    let s = purge_ephemeral-SameOffers before env.now in
    let u = SameRoutes-FedInv before inner (purge_ephemeral-SameRoutes before env.now) v in
    let below = SameOffers-Below before inner s b in
    elim (Bool-cases (get_elem? raw 0 == some class_federation)) [
      | inl f ↦ rw (f, handle_packet) (handle-FedInv utf8 inner source raw env.now u)
      | inr f ↦
          elim (Result-cases (parse_with_version utf8 lossy raw (client_version inner source))) [
            | inl ((msg, detected), p) ↦
                let after = promoted inner source detected in
                let same = promoted-SameTables inner source detected in
                rw (f, p, handle_packet)
                  (on_message-FedInv env after source msg raw
                    (SameTables-Below inner after same below)
                    (rw (ap (λ x. x.clock) same.fed, s.clock) room)
                    (SameTables-FedInv inner after same u))
            | inr (e, p) ↦ rw (f, p, handle_packet) u
          ]
    ]
