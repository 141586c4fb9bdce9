-- ===== src/Fedroute/Adverts/Tests.antt =====
-- Positions that reach server 1 twice (src/fedroute.rs).
use brew_server.Common.{ℕ, ◌≡◌, refl, true, false, [], ◌∷◌, contains, not, ◌&&◌, nat_eq}
use brew_server.State.{Inner}
use brew_server.Fedroute.Messages.{BtsAdvert, MsAdvert}
use brew_server.Fedroute.Messages.Build.{valid_position}

abbrev idle : Inner
idle = record {
  clients = [];
  subscribers = [];
  group_clients = [];
  calls = [];
  group_floor = [];
  group_tx_raw = [];
  sds_routes = [];
  recent_calls = [];
  fed = record {
    self_id = 1;
    clock = 0;
    links = (20, 2) ∷ (30, 3) ∷ [];
    rib_in = [];
    bts_links = 20 ∷ 30 ∷ [];
    ms_links = 20 ∷ 30 ∷ [];
    ms_pos = [];
    em_links = [];
    em_local = [];
    em_remote = [];
    bts_local = [];
    bts_remote = [];
  };
  consoles = [];
}

-- A latitude of 1.0 and a longitude of 2.0.
abbrev station : BtsAdvert
station = record {
  key = 65 ∷ [];
  name = 66 ∷ [];
  lat = 0x3ff0000000000000;
  lon = 0x4000000000000000;
  online = true;
  seq = 60;
  path = 2 ∷ 4 ∷ [];
}

abbrev fix : MsAdvert
fix = record {
  issi = 1001;
  lat = 0x3ff0000000000000;
  lon = 0x4000000000000000;
  at_ms = 60;
  station = 65 ∷ [];
  path = 2 ∷ 4 ∷ [];
}

other_origin : contains {A = ℕ} (2 ∷ 4 ∷ []) 1 ≡ false
unfolding contains
other_origin = refl

usable_fix : valid_position 0x3ff0000000000000 0x4000000000000000 ≡ true
unfolding valid_position
usable_fix = refl

usable_station : true && not (valid_position 0x3ff0000000000000 0x4000000000000000) ≡ false
unfolding valid_position
usable_station = refl
