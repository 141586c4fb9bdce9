-- ===== src/Router/Tests/Busy.antt =====
-- Calls, voice and short messages in one state, written out: a Basestation 20 talks in group 7 and a
-- Basestation 30 listens (src/router.rs, src/sip/bridge.rs).
use brew_server.Fedroute.Table.{members}
use brew_server.Common.{
  inl, ℕ, ◌≡◌, ◌≢◌, ◌≤◌, refl, true, false, ◌&&◌, ◌||◌, none, some, List, [], ◌∷◌, arith, ◌==◌,
  nat_eq, list_eq, option_eq, pair_eq, list_beq_iff, All, lookup, contains, contains_key, length,
  Uniq,
}
use brew_server.State.{ClientId, CallId, Inner, ActiveCall, group, is_group, initial, Send}
use brew_server.Protocol.Build.{zeros}
use brew_server.Protocol.Parse.{GroupTransmission}
use brew_server.Router.{Env, is_peer}
use brew_server.Router.Group.{copied}
use brew_server.Protocol.Parse.{short_transfer}
use brew_server.Router.Calls.{end_call, route_frame, is_party}
use brew_server.Router.Sip.{sip_to_group}
use brew_server.Router.LateEntry.{late_entry}
use brew_server.Router.LateEntry.Joined.{late_entry_joins}
use brew_server.Router.Sds.{handle_sds_header, handle_sds_transfer, is_lip}
use brew_server.Router.Sds.Once.{Arrival, stores, stores_once, blocked_sds_silent}
use brew_server.Router.Sweep.{sweep}
use brew_server.Router.Sweep.Ends.{sweep_ends}
use brew_server.Router.Sweep.Fate.{Fate}
use brew_server.Router.Voice.{sent_to, hears, route_frame_reaches}
use brew_server.Router.Floor.Bridged.{sip_to_group-two_calls}
use brew_server.Router.Floor.Spec.{floors_of, give_back}
use brew_server.Router.Floor.Spec.Release.{end_call-refines}
use brew_server.State.{peer}
use brew_server.Router.Tests.{config, env, client, turn, talk}

abbrev busy : Inner
busy = record {
  clients = (20, client) ∷ (30, client) ∷ (40, client) ∷ [];
  subscribers = [];
  group_clients = (7, 20 ∷ 30 ∷ []) ∷ [];
  calls = (turn, talk) ∷ [];
  group_floor = (7, turn) ∷ [];
  group_tx_raw = [];
  sds_routes = [];
  recent_calls = [];
  fed = (initial 1).fed;
  consoles = [];
}

abbrev other : CallId
other = 2 ∷ zeros 15

abbrev louder : GroupTransmission
louder = record {
  source = 1002;
  destination = 7;
  priority = 5;
  access = 0;
  service = 0;
  mnemonic = none;
}

end_call-refines_example :
    floors_of (end_call env busy 20 turn []).inner 7 ≡ give_back turn 20 (floors_of busy) 7
end_call-refines_example = end_call-refines env busy 20 turn [] 7

turn_runs : lookup turn busy.calls ≡ some talk
unfolding lookup
turn_runs = refl

ids_differ : turn ≢ other
ids_differ e = ground (arith, list_beq_iff turn other)

someone_listens : members 7 busy.group_clients ≢ []
unfolding members lookup
someone_listens e = absurd cc

sip_to_group-two_calls_example :
    (d : ActiveCall) × (lookup other (sip_to_group config busy other 50 7 true 0).0.calls ≡ some d)
    × (is_group d.kind ≡ true)
    × (d.destination ≡ 7)
    × (lookup turn (sip_to_group config busy other 50 7 true 0).0.calls ≡ some talk)
    × (lookup 7 (sip_to_group config busy other 50 7 true 0).0.group_floor ≡ some other)
sip_to_group-two_calls_example =
    sip_to_group-two_calls config busy other turn 50 7 0 talk (inl someone_listens) ids_differ
      turn_runs refl refl

route_frame_reaches_example :
    (sent_to (route_frame env busy 20 turn (9 ∷ [])).sends 30 ≡ (elim (lookup turn busy.calls) [
      | none ↦ false
      | some call ↦ hears 20 30 call && contains_key 30 busy.clients
    ]))
    × All (λ (s : Send). s.1 ≡ (9 ∷ [])) (route_frame env busy 20 turn (9 ∷ [])).sends
route_frame_reaches_example = route_frame_reaches env busy 20 turn (9 ∷ []) 30

-- 100 s later.
abbrev later : Env
later = record env { now = 200_000 }

busy-Uniq : Uniq busy.calls
unfolding lookup
busy-Uniq = (refl, tt)

sweep_ends_example :
    Fate later busy (lookup turn busy.calls) (lookup turn (sweep later busy).inner.calls)
sweep_ends_example = sweep_ends later busy turn busy-Uniq

abbrev with_peer : Inner
with_peer = record busy { clients = (50, record client { mode = peer }) ∷ busy.clients }

abbrev turn_again : GroupTransmission
turn_again = record louder { source = 1001; priority = 3 }

client_there : lookup 40 busy.clients ≡ some client
unfolding lookup
client_there = refl

no_peer : is_peer busy 40 ≡ false
unfolding is_peer lookup
no_peer = refl

late_entry_joins_example :
    (d : ActiveCall) × (lookup turn (late_entry busy 40 (7 ∷ [])).0.calls ≡ some d)
    × (d ≡ record talk { peers = d.peers })
    × (is_party 40 d ≡ (is_party 40 talk || is_group group && contains {A = ℕ} (7 ∷ []) 7))
    × ((c : ClientId) → (c == 40) ≡ false → is_party c d ≡ is_party c talk)
late_entry_joins_example =
    late_entry_joins busy 40 (7 ∷ []) client turn talk client_there no_peer refl turn_runs

abbrev waiting : Inner
waiting = record busy {
  sds_routes =
      (
        other,
        record {
          source_client = 20;
          targets = [];
          source_issi = 1001;
          destination = 2002;
          created_at = 0;
          store_offline = true;
          lip_only = false;
          held_header = none;
        },
      )
      ∷ [];
}

abbrev arrivals : List Arrival
arrivals =
    record { env = env; source = 20; raw = [] } ∷ record { env = env; source = 20; raw = [] } ∷ []

stores_once_example : length (stores waiting other arrivals) ≤ 1
stores_once_example = stores_once waiting other arrivals

no_copy : copied env busy 20 other 666 ≡ false
unfolding is_peer lookup
no_copy = refl

a_party_blocked : contains env.blocked 666 || contains env.blocked 2002 ≡ true
unfolding contains
a_party_blocked = refl

not_lip : is_lip (zeros 21) ≡ false
unfolding is_lip
not_lip = refl

blocked_sds_silent_example :
    let header = handle_sds_header env busy 20 other (short_transfer 666 2002) [] in
    let transfer = handle_sds_transfer later header.inner 20 other (zeros 21) in
    (header.sends ≡ []) × (transfer.sends ≡ []) × (transfer.store ≡ none)
blocked_sds_silent_example =
    blocked_sds_silent env later busy 20 20 other 666 2002 [] (zeros 21) no_copy a_party_blocked
      not_lip
