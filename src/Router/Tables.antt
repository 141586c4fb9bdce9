-- ===== src/Router/Tables.antt =====
-- Handlers of calls and short messages leave the federation state alone (src/router.rs).
pub mod Packets
use brew_server.Common.{
  ℕ, ◌<◌, ◌≡◌, refl, ap, Bool, inl, inr, Bool-cases, Result-cases, List, arith, ◌==◌, nat_eq,
  option_eq, Text, get_elem?, some,
}
use brew_server.State.{ClientId, CallId, ConnVersion, Inner}
use brew_server.Protocol.{class_federation}
use brew_server.Protocol.Parse.{
  BrewMessage, subscriber, call_control, frame, error, service, CallControlMessage, FrameMessage,
  parse_with_version, CallPayload, GroupTransmission, group_transmission, circular_call, cause,
  empty, short_transfer, raw_payload,
}
use brew_server.Connections.{promote_client_version}
use brew_server.Fedroute.Adverts.{purge_bts}
use brew_server.Fedroute.Clock.{u64_max}
use brew_server.Fedroute.Dedup.{note_call}
use brew_server.Fedroute.Handle.Invariant.{FedInv}
use brew_server.Fedroute.Handle.Steps.{handle-FedInv}
use brew_server.Fedroute.Handle.Keeps.{SameRoutes, SameRoutes-FedInv}
use brew_server.Fedroute.Handle.Below.{Below}
use brew_server.Fedroute.Handle.Below.Messages.{SameOffers, SameOffers-Below}
use brew_server.Router.{Env}
use brew_server.Router.Group.{admit, start_call, compete, group_tx, handle_group_tx}
use brew_server.Router.Calls.{end_call, touch, route_private_control, route_frame}
use brew_server.Router.Private.{handle_private_setup, place_private, start_private, reject_setup}
use brew_server.Router.Sds.{
  handle_sds_header, route_sds, handle_sds_transfer, pass_sds, handle_sds_report,
}
use brew_server.Router.Subscribers.Keeps.{handle_subscriber-FedInv}
use brew_server.Router.Packet.{
  purge_ephemeral, client_version, promoted, on_call_control, on_frame, on_message, handle_packet,
}
use brew_server.Router.Packet.Cases.{on_call_control-cases, on_frame-cases}

-- What a handler of calls and short messages leaves as it was: all that routes rest on.
pub record SameTables (inner after : Inner) : Type 0 where
  pub fed : after.fed ≡ inner.fed
  pub subscribers : after.subscribers ≡ inner.subscribers
  pub group_clients : after.group_clients ≡ inner.group_clients

pub SameTables-FedInv : (inner after : Inner) → SameTables inner after → FedInv inner → FedInv after
SameTables-FedInv inner after f v =
    SameRoutes-FedInv inner after
      (record {
        self_id = ap (λ x. x.self_id) f.fed;
        links = ap (λ x. x.links) f.fed;
        rib_in = ap (λ x. x.rib_in) f.fed;
        subscribers = f.subscribers;
        group_clients = f.group_clients;
      })
      v

pub SameTables-Below : (inner after : Inner) → SameTables inner after → Below inner → Below after
SameTables-Below inner after f b =
    SameOffers-Below inner after
      (record { rib = ap (λ x. x.rib_in) f.fed; clock = ap (λ x. x.clock) f.fed }) b

pub compete-SameTables :
    (env : Env) (inner : Inner) (source : ClientId) (id : CallId) (gt : GroupTransmission)
    (raw : List ℕ)
    → SameTables inner (compete env inner source id gt raw).inner
unfolding compete admit start_call
compete-SameTables env inner source id gt raw = record {
  fed = ground arith;
  subscribers = ground arith;
  group_clients = ground arith;
}

pub group_tx-SameTables :
    (env : Env) (inner : Inner) (source : ClientId) (id : CallId) (gt : GroupTransmission)
    (raw : List ℕ)
    → SameTables inner (group_tx env inner source id gt raw).inner
unfolding group_tx
group_tx-SameTables env inner source id gt raw =
    let f = compete-SameTables env inner source id gt raw in
    record {
      fed = ground (arith, f.fed);
      subscribers = ground (arith, f.subscribers);
      group_clients = ground (arith, f.group_clients);
    }

pub same_tables : (inner : Inner) → SameTables inner inner
same_tables inner = record { fed = refl; subscribers = refl; group_clients = refl }

pub handle_group_tx-SameTables :
    (env : Env) (inner : Inner) (source : ClientId) (id : CallId) (payload : CallPayload)
    (raw : List ℕ)
    → SameTables inner (handle_group_tx env inner source id payload raw).inner
unfolding handle_group_tx
handle_group_tx-SameTables env inner source id (group_transmission gt) raw =
    group_tx-SameTables env inner source id gt raw
handle_group_tx-SameTables env inner source id (circular_call c) raw = same_tables inner
handle_group_tx-SameTables env inner source id (cause c) raw = same_tables inner
handle_group_tx-SameTables env inner source id empty raw = same_tables inner
handle_group_tx-SameTables env inner source id (short_transfer s d) raw = same_tables inner
handle_group_tx-SameTables env inner source id (raw_payload b) raw = same_tables inner

pub end_call-SameTables :
    (env : Env) (inner : Inner) (source : ClientId) (id : CallId) (raw : List ℕ)
    → SameTables inner (end_call env inner source id raw).inner
unfolding end_call note_call
end_call-SameTables env inner source id raw = record {
  fed = ground arith;
  subscribers = ground arith;
  group_clients = ground arith;
}

pub route_frame-SameTables :
    (env : Env) (inner : Inner) (source : ClientId) (id : CallId) (raw : List ℕ)
    → SameTables inner (route_frame env inner source id raw).inner
unfolding route_frame touch
route_frame-SameTables env inner source id raw = record {
  fed = ground arith;
  subscribers = ground arith;
  group_clients = ground arith;
}

pub route_private_control-SameTables :
    (env : Env) (inner : Inner) (source : ClientId) (id : CallId) (raw : List ℕ)
    → SameTables inner (route_private_control env inner source id raw).inner
unfolding route_private_control end_call note_call touch
route_private_control-SameTables env inner source id raw = record {
  fed = ground arith;
  subscribers = ground arith;
  group_clients = ground arith;
}

pub handle_private_setup-SameTables :
    (env : Env) (inner : Inner) (source : ClientId) (id : CallId) (payload : CallPayload)
    (raw : List ℕ)
    → SameTables inner (handle_private_setup env inner source id payload raw).inner
unfolding handle_private_setup place_private start_private reject_setup note_call
handle_private_setup-SameTables env inner source id payload raw = record {
  fed = ground arith;
  subscribers = ground arith;
  group_clients = ground arith;
}

pub handle_sds_header-SameTables :
    (env : Env) (inner : Inner) (source : ClientId) (id : CallId) (payload : CallPayload)
    (raw : List ℕ)
    → SameTables inner (handle_sds_header env inner source id payload raw).inner
unfolding handle_sds_header route_sds note_call
handle_sds_header-SameTables env inner source id payload raw = record {
  fed = ground arith;
  subscribers = ground arith;
  group_clients = ground arith;
}

pub handle_sds_transfer-SameTables :
    (env : Env) (inner : Inner) (source : ClientId) (id : CallId) (raw : List ℕ)
    → SameTables inner (handle_sds_transfer env inner source id raw).inner
unfolding handle_sds_transfer pass_sds
handle_sds_transfer-SameTables env inner source id raw = record {
  fed = ground arith;
  subscribers = ground arith;
  group_clients = ground arith;
}

pub handle_sds_report-SameTables :
    (inner : Inner) (source : ClientId) (id : CallId) (raw : List ℕ)
    → SameTables inner (handle_sds_report inner source id raw).inner
unfolding handle_sds_report
handle_sds_report-SameTables inner source id raw = record {
  fed = ground arith;
  subscribers = ground arith;
  group_clients = ground arith;
}
