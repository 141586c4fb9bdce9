-- ===== src/Router/Tests.antt =====
-- Runs of the router from an empty server: two Basestations connect, and one talks (src/router.rs).
mod Busy
use brew_server.Common.{
  ℕ, ◌≡◌, ◌≢◌, ◌≤◌, ◌<◌, refl, Bool, true, false, ◌&&◌, ◌||◌, none, some, List, [], ◌∷◌, arith,
  if◌then◌else◌, ◌==◌, nat_eq, list_eq, option_eq, pair_eq, lookup, insert, remove, retain,
  contains, add, discard, to_set, Text, to_le, from_le, le_at,
}
use brew_server.State.{CallId, Client, basestation, v0, Inner, ActiveCall, group, initial, as_u8}
use brew_server.Protocol.Build.{build_group_tx}
use brew_server.Protocol.Parse.{
  parse_with_version, parse_call_control, parse_payload, parse_group_tx,
}
use brew_server.Connections.Attach.{begin_session, attach_client, link_up}
use brew_server.Fedroute.Adverts.{purge_bts}
use brew_server.Fedroute.Dedup.{note_call}
use brew_server.Router.{Config, Env, is_emergency_call, is_peer, extend}
use brew_server.Router.Group.{
  floor_for, members_or_all, carriers, targets, raised_priority, start_call, admit, compete,
  group_tx, handle_group_tx,
}
use brew_server.Router.Packet.{
  handle_packet, purge_ephemeral, client_version, promoted, on_message, on_call_control,
}
use brew_server.Router.Steps.{Reaches, begins, receives, starts, goes}
use brew_server.Protocol.{build_subscriber_message, sub_register}
use brew_server.Fedroute.Table.{routed, same, best_entry}
use brew_server.Fedroute.Select.{select, newest_remote}
use brew_server.Fedroute.Clock.{u64_max}
use brew_server.Fedroute.Handle.Invariant.{FedInv}
use brew_server.Fedroute.Handle.Below.{Below}
use brew_server.Router.Tables.Packets.{handle_packet-FedInv}
use brew_server.Router.Floor.{CallsInv}
use brew_server.Router.Floor.Packets.{handle_packet-CallsInv}
use brew_server.Router.Floor.Reach.{reached-CallsInv, reached_one_call}

abbrev config : Config
config = record {
  allow_multiple_calls_per_group = false;
  higher_priority_number_wins = true;
  preempt_cause = 9;
  route_without_affiliations = true;
  fallback_broadcast_when_no_affiliations = false;
  max_call_duration_seconds = 60;
  call_inactivity_timeout_seconds = 10;
}

abbrev env : Env
env = record {
  config = config;
  blocked = 666 ∷ [];
  is_emergency = λ issi. false;
  sms_center_wants = λ issi. true;
  brew_to_sip = λ id issi number destination. false;
  now = 100_000;
}

abbrev client : Client
client = record {
  mode = basestation;
  version = v0;
  version_announced = true;
  remote_addr = none;
  connected_at_ms = 0;
  username = none;
}

abbrev any_text : List ℕ → Bool
any_text bytes = true

abbrev lossy : List ℕ → Text
lossy bytes = bytes

abbrev turn : CallId
turn = 1 ∷ 2 ∷ 3 ∷ 4 ∷ 5 ∷ 6 ∷ 7 ∷ 8 ∷ 9 ∷ 10 ∷ 11 ∷ 12 ∷ 13 ∷ 14 ∷ 15 ∷ 16 ∷ []

abbrev talk : ActiveCall
talk = record {
  kind = group;
  owner = 20;
  source_issi = 1001;
  destination = 7;
  priority = 3;
  peers = 30 ∷ [];
  started_at = 100_000;
  last_activity_ms = 100_000;
}

abbrev joined_one : Inner
joined_one = (begin_session (initial 1) 20 client none false).0

abbrev joined_two : Inner
joined_two = (begin_session joined_one 30 client none false).0

abbrev talking : Inner
talking = (handle_packet any_text lossy env joined_two 20 (build_group_tx turn 1001 7 3)).inner

twice_joined_talking : Reaches any_text lossy config 1 talking
twice_joined_talking =
    goes (goes (goes starts (begins 20 client none false)) (begins 30 client none false))
      (receives env 20 (build_group_tx turn 1001 7 3) refl)

talk_runs : lookup turn talking.calls ≡ some talk
unfolding begin_session attach_client link_up initial handle_packet purge_ephemeral purge_bts
    client_version promoted on_message on_call_control handle_group_tx group_tx compete floor_for
    admit targets members_or_all carriers start_call raised_priority note_call is_emergency_call
    is_peer build_group_tx parse_with_version parse_call_control parse_payload parse_group_tx lookup
    insert remove retain contains add discard to_set extend to_le from_le le_at as_u8
talk_runs = refl

reached_one_call_example : turn ≡ turn
reached_one_call_example =
    reached_one_call any_text lossy config 1 talking turn turn talk talk refl twice_joined_talking
      talk_runs talk_runs refl refl refl

twice_joined : Reaches any_text lossy config 1 joined_two
twice_joined = goes (goes starts (begins 20 client none false)) (begins 30 client none false)

two_joined-CallsInv : CallsInv joined_two
two_joined-CallsInv = reached-CallsInv any_text lossy config refl twice_joined

handle_packet-CallsInv_example : CallsInv talking
handle_packet-CallsInv_example =
    handle_packet-CallsInv any_text lossy env joined_two 20 (build_group_tx turn 1001 7 3) refl
      two_joined-CallsInv

two_joined-FedInv : FedInv joined_two
unfolding begin_session attach_client link_up initial lookup best_entry select same routed
    newest_remote
two_joined-FedInv = record {
  rib = λ issi link a e. ground arith;
  table = λ c. (tt, λ g. refl);
  settled = λ issi. refl;
}

two_joined-Below : Below joined_two
unfolding begin_session attach_client link_up initial
two_joined-Below = record { rib = tt; fits = ground arith }

clock_has_room : joined_two.fed.clock < u64_max
unfolding begin_session attach_client link_up initial
clock_has_room = ground arith

abbrev registration : List ℕ
registration = build_subscriber_message sub_register 1001 []

handle_packet-FedInv_example :
    FedInv (handle_packet any_text lossy env joined_two 20 registration).inner
handle_packet-FedInv_example =
    handle_packet-FedInv any_text lossy env joined_two 20 registration two_joined-Below
      clock_has_room two_joined-FedInv
