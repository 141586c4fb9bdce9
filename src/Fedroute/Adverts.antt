-- ===== src/Fedroute/Adverts.antt =====
-- Positions and emergencies flooded between servers (src/fedroute.rs, from `relay_bts` to
-- `purge_bts`). The time is an argument; what is sent is a list of packets.
pub mod Accept
pub mod Once
pub mod Flood
mod Tests
use brew_server.Common.{
  ℕ, ◌+◌, ◌-◌, max, Bool, true, false, not, ◌&&◌, ◌||◌, Option, none, some, List, [], ◌∷◌, ◌++◌,
  if◌then◌else◌, ltb, leb, ◌==◌, nat_eq, pair_eq, list_eq, option_eq, Text, length, last, Map,
  lookup, insert, remove, retain, contains, contains_key,
}
use brew_server.State.{
  ClientId, Inner, FedState, Client, LocalEm, RemoteEm, MsEntry, LocalBts, RemoteBts, Send,
}
use brew_server.Fedroute.Messages.{BtsAdvert, MsAdvert, EmAdvert, max_path}
use brew_server.Fedroute.Messages.Build.{valid_position, build_bts, build_ms_pos, build_emergency}

abbrev pub bts_stale_ms : ℕ
bts_stale_ms = 120_000

abbrev pub em_stale_ms : ℕ
em_stale_ms = 30_000

-- Whether a link gets a relayed advert: not the one it came over, and no neighbour on its path.
abbrev pub gets : Inner → Option ClientId → List ℕ → ClientId → Bool
gets inner except path link =
    not (some link == except)
    && (elim (lookup link inner.fed.links) [
      | none ↦ false
      | some nbr_id ↦ not (contains path nbr_id)
    ])
    && contains_key link inner.clients

unfoldable pub send_to : Inner → Option ClientId → List ℕ → List ℕ → List ClientId → List Send
send_to inner except path msg [] = []
send_to inner except path msg (link ∷ links) =
    let rest = send_to inner except path msg links in
    if gets inner except path link then (link, msg) ∷ rest else rest

unfoldable pub relay_bts : Inner → Option ClientId → BtsAdvert → List Send
unfolding send_to
relay_bts inner except a =
    if leb max_path (length a.path)
    then []
    else send_to inner except a.path (build_bts (record a { path = inner.fed.self_id ∷ a.path }))
        inner.fed.bts_links

unfoldable pub relay_ms : Inner → Option ClientId → MsAdvert → List Send
unfolding send_to
relay_ms inner except a =
    if leb max_path (length a.path)
    then []
    else send_to inner except a.path (build_ms_pos (record a { path = inner.fed.self_id ∷ a.path }))
        inner.fed.ms_links

unfoldable pub relay_em : Inner → Option ClientId → EmAdvert → List Send
unfolding send_to
relay_em inner except a =
    if leb max_path (length a.path)
    then []
    else send_to inner except a.path
        (build_emergency (record a { path = inner.fed.self_id ∷ a.path })) inner.fed.em_links

-- Whether a path may be told to the neighbour.
abbrev open_to : ℕ → List ℕ → Bool
open_to nbr_id path = not (contains path nbr_id) && ltb (length path) max_path

bts_own : ℕ → Map Text LocalBts → List (List ℕ)
bts_own self_id [] = []
bts_own self_id ((key, b) ∷ m) =
    build_bts (record {
      key = key;
      name = b.name;
      lat = b.lat;
      lon = b.lon;
      online = true;
      seq = b.seq;
      path = self_id ∷ [];
    })
    ∷ bts_own self_id m

bts_learned : ℕ → ℕ → ℕ → Map (ℕ × Text) RemoteBts → List (List ℕ)
bts_learned self_id nbr_id now [] = []
bts_learned self_id nbr_id now (((origin, key), b) ∷ m) =
    let rest = bts_learned self_id nbr_id now m in
    if b.online && ltb (now - b.seen_ms) bts_stale_ms && open_to nbr_id b.path
    then build_bts (record {
      key = key;
      name = b.name;
      lat = b.lat;
      lon = b.lon;
      online = true;
      seq = b.seq;
      path = self_id ∷ b.path;
    })
      ∷ rest
    else rest

unfoldable pub bts_sync : Inner → ℕ → ℕ → List (List ℕ)
unfolding bts_own bts_learned
bts_sync inner nbr_id now =
    bts_own inner.fed.self_id inner.fed.bts_local
    ++ bts_learned inner.fed.self_id nbr_id now inner.fed.bts_remote

em_own : ℕ → Map ℕ LocalEm → List (List ℕ)
em_own self_id [] = []
em_own self_id ((issi, e) ∷ m) =
    build_emergency (record {
      issi = issi;
      dest = e.dest;
      bts = e.bts;
      active = true;
      seq = e.seq;
      path = self_id ∷ [];
    })
    ∷ em_own self_id m

em_learned : ℕ → ℕ → ℕ → Map (ℕ × ℕ) RemoteEm → List (List ℕ)
em_learned self_id nbr_id now [] = []
em_learned self_id nbr_id now (((origin, issi), e) ∷ m) =
    let rest = em_learned self_id nbr_id now m in
    if e.active && ltb (now - e.seen_ms) em_stale_ms && open_to nbr_id e.path
    then build_emergency (record {
      issi = issi;
      dest = e.dest;
      bts = e.bts;
      active = true;
      seq = e.seq;
      path = self_id ∷ e.path;
    })
      ∷ rest
    else rest

unfoldable pub em_sync : Inner → ℕ → ℕ → List (List ℕ)
unfolding em_own em_learned
em_sync inner nbr_id now =
    em_own inner.fed.self_id inner.fed.em_local
    ++ em_learned inner.fed.self_id nbr_id now inner.fed.em_remote

ms_known : ℕ → ℕ → Map ℕ MsEntry → List (List ℕ)
ms_known self_id nbr_id [] = []
ms_known self_id nbr_id ((issi, e) ∷ m) =
    let rest = ms_known self_id nbr_id m in
    if open_to nbr_id e.path
    then build_ms_pos (record {
      issi = issi;
      lat = e.lat;
      lon = e.lon;
      at_ms = e.at_ms;
      station = e.station;
      path = self_id ∷ e.path;
    })
      ∷ rest
    else rest

unfoldable pub ms_sync : Inner → ℕ → List (List ℕ)
unfolding ms_known
ms_sync inner nbr_id = ms_known inner.fed.self_id nbr_id inner.fed.ms_pos

unfoldable pub purge_bts : Inner → ℕ → Inner
purge_bts inner now =
    let fed = inner.fed in
    record inner {
      fed = record fed {
        em_remote = retain (λ _ e. ltb (now - e.seen_ms) em_stale_ms) fed.em_remote;
        bts_remote = retain (λ _ b. ltb (now - b.seen_ms) bts_stale_ms) fed.bts_remote;
      };
    }
