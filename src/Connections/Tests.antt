-- ===== src/Connections/Tests.antt =====
-- Connection 20 goes away while it talks in group 7, and connection 30 listens (src/state.rs).
use brew_server.Common.{
  ◌≡◌, refl, false, none, some, [], ◌∷◌, arith, All, lookup, remove, contains, discard, nat_eq,
  list_eq, option_eq,
}
use brew_server.State.{Client, Inner, ActiveCall, CallId, group, terminal, v0}
use brew_server.Connections.{
  cleanup_client, end_calls, reroute_away, affected, owned, offered_by, dedup, previous, drop_own,
  reroute_all,
}
use brew_server.Fedroute.Publish.{sorted}
use brew_server.Connections.Calls.{Apart, cleanup_client-Apart}
use brew_server.Connections.Floors.{HoldsOwn, cleanup_client-floor}

abbrev client : Client
client = record {
  mode = terminal;
  version = v0;
  version_announced = false;
  remote_addr = none;
  connected_at_ms = 0;
  username = none;
}

abbrev turn : CallId
turn = 1 ∷ []

abbrev other : CallId
other = 2 ∷ []

abbrev talk : ActiveCall
talk = record {
  kind = group;
  owner = 20;
  source_issi = 1001;
  destination = 7;
  priority = 0;
  peers = 30 ∷ [];
  started_at = 0;
  last_activity_ms = 0;
}

abbrev listen : ActiveCall
listen = record {
  kind = group;
  owner = 30;
  source_issi = 1002;
  destination = 8;
  priority = 0;
  peers = 20 ∷ [];
  started_at = 0;
  last_activity_ms = 0;
}

abbrev busy : Inner
busy = record {
  clients = (20, client) ∷ (30, client) ∷ [];
  subscribers = [];
  group_clients = [];
  calls = (turn, talk) ∷ (other, listen) ∷ [];
  group_floor = (7, turn) ∷ (8, other) ∷ [];
  group_tx_raw = [];
  sds_routes = [];
  recent_calls = [];
  fed = record {
    self_id = 1;
    clock = 0;
    links = [];
    rib_in = [];
    bts_links = [];
    ms_links = [];
    ms_pos = [];
    em_links = [];
    em_local = [];
    em_remote = [];
    bts_local = [];
    bts_remote = [];
  };
  consoles = [];
}

floors_own : All (HoldsOwn busy.group_floor) busy.calls
unfolding lookup
floors_own = (λ g e. ground arith, (λ g e. ground arith, tt))

cleanup_client-Apart_example : All (Apart 20) (cleanup_client busy 20).inner.calls
cleanup_client-Apart_example = cleanup_client-Apart busy 20

floor_left : lookup 8 (cleanup_client busy 20).inner.group_floor ≡ some other
unfolding cleanup_client reroute_away affected owned offered_by dedup previous drop_own reroute_all
    end_calls lookup remove discard sorted
floor_left = refl

cleanup_client-floor_example : contains (cleanup_client busy 20).ended other ≡ false
cleanup_client-floor_example = cleanup_client-floor busy 20 8 other floors_own floor_left

client_there : lookup 20 busy.clients ≡ some client
unfolding lookup
client_there = refl
