-- ===== src/Fedroute/Adverts/Accept.antt =====
-- Adverts received and originated (src/fedroute.rs: `accept_bts`, `advertise_bts` and the like).
use brew_server.Common.{
  ℕ, ◌+◌, ◌-◌, ◌^◌, max, min, Bool, false, not, ◌&&◌, ◌||◌, Option, none, some, List, [],
  if◌then◌else◌, ltb, leb, ◌==◌, nat_eq, pair_eq, list_eq, option_eq, Text, last, lookup, insert,
  remove, retain, contains, contains_key,
}
use brew_server.State.{ClientId, Inner, LocalEm, RemoteEm, MsEntry, LocalBts, RemoteBts, Send}
use brew_server.Fedroute.Messages.{BtsAdvert, MsAdvert, EmAdvert}
use brew_server.Fedroute.Messages.Build.{valid_position}
use brew_server.Fedroute.Adverts.{bts_stale_ms, em_stale_ms, relay_bts, relay_ms, relay_em}

-- An advert from ourselves or through us.
abbrev pub own_advert : ℕ → List ℕ → ℕ → Bool
own_advert self_id path origin = origin == self_id || contains path self_id

unfoldable pub accept_bts : Inner → ClientId → BtsAdvert → ℕ → Inner × List Send
accept_bts inner source a now = elim (last a.path) [
  | none ↦ (inner, [])
  | some origin ↦
      let known : Bool = elim (lookup (origin, a.key) inner.fed.bts_remote) [
        | none ↦ false
        | some old ↦ leb a.seq old.seq
      ] in
      if own_advert inner.fed.self_id a.path origin
      then (inner, [])
      else if a.online && not (valid_position a.lat a.lon)
      then (inner, [])
      else if known
      then (inner, [])
      else let entry : RemoteBts = record {
        name = a.name;
        lat = a.lat;
        lon = a.lon;
        online = a.online;
        seq = a.seq;
        path = a.path;
        seen_ms = now;
      } in
        let inner' = record inner {
          fed = record inner.fed { bts_remote = insert (origin, a.key) entry inner.fed.bts_remote };
        } in
        (inner', relay_bts inner' (some source) a)
]

unfoldable pub accept_em : Inner → ClientId → EmAdvert → ℕ → Inner × List Send
accept_em inner source a now = elim (last a.path) [
  | none ↦ (inner, [])
  | some origin ↦
      let known : Bool = elim (lookup (origin, a.issi) inner.fed.em_remote) [
        | none ↦ false
        | some old ↦ leb a.seq old.seq
      ] in
      if own_advert inner.fed.self_id a.path origin
      then (inner, [])
      else if known
      then (inner, [])
      else let entry : RemoteEm = record {
        dest = a.dest;
        bts = a.bts;
        active = a.active;
        seq = a.seq;
        path = a.path;
        seen_ms = now;
      } in
        let inner' = record inner {
          fed = record inner.fed { em_remote = insert (origin, a.issi) entry inner.fed.em_remote };
        } in
        (inner', relay_em inner' (some source) a)
]

unfoldable pub accept_ms : Inner → ClientId → MsAdvert → Inner × List Send
accept_ms inner source a = elim (last a.path) [
  | none ↦ (inner, [])
  | some origin ↦
      let known : Bool = elim (lookup a.issi inner.fed.ms_pos) [
        | none ↦ false
        | some old ↦ leb a.at_ms old.at_ms
      ] in
      if own_advert inner.fed.self_id a.path origin
      then (inner, [])
      else if not (valid_position a.lat a.lon)
      then (inner, [])
      else if known
      then (inner, [])
      else let entry : MsEntry = record {
        lat = a.lat;
        lon = a.lon;
        at_ms = a.at_ms;
        station = a.station;
        path = a.path;
      } in
        let inner' = record inner {
          fed = record inner.fed { ms_pos = insert a.issi entry inner.fed.ms_pos };
        } in
        (inner', relay_ms inner' (some source) a)
]

-- `purge_bts` drops what was not refreshed.
unfoldable pub purge_bts : Inner → ℕ → Inner
purge_bts inner now = record inner {
  fed = record inner.fed {
    em_remote = retain (λ _ e. ltb (now - e.seen_ms) em_stale_ms) inner.fed.em_remote;
    bts_remote = retain (λ _ b. ltb (now - b.seen_ms) bts_stale_ms) inner.fed.bts_remote;
  };
}

-- The clock of an own advert: the time, but above the last one.
abbrev next_seq : ℕ → Option ℕ → ℕ
next_seq now none = max now 1
next_seq now (some prev) = max now (min (prev + 1) (2 ^ 64 - 1))

abbrev seq_of_em : Option LocalEm → Option ℕ
seq_of_em none = none
seq_of_em (some e) = some e.seq

abbrev seq_of_bts : Option LocalBts → Option ℕ
seq_of_bts none = none
seq_of_bts (some b) = some b.seq

unfoldable pub advertise_emergency : Inner → ℕ → Option ℕ → Text → Bool → ℕ → Inner × List Send
advertise_emergency inner issi dest bts active now =
    let seq = next_seq now (seq_of_em (lookup issi inner.fed.em_local)) in
    let a : EmAdvert = record {
      issi = issi;
      dest = dest;
      bts = bts;
      active = active;
      seq = seq;
      path = [];
    } in
    let local : LocalEm = record { dest = dest; bts = bts; seq = seq } in
    let raised = record inner {
      fed = record inner.fed { em_local = insert issi local inner.fed.em_local };
    } in
    let cleared = record inner {
      fed = record inner.fed { em_local = remove issi inner.fed.em_local };
    } in
    if active
    then (raised, relay_em raised none a)
    else if contains_key issi inner.fed.em_local
    then (cleared, relay_em cleared none a)
    else (inner, [])

unfoldable pub advertise_bts : Inner → Text → Text → ℕ → ℕ → Bool → ℕ → Inner × List Send
advertise_bts inner key name lat lon online now =
    let seq = next_seq now (seq_of_bts (lookup key inner.fed.bts_local)) in
    let a : BtsAdvert = record {
      key = key;
      name = name;
      lat = lat;
      lon = lon;
      online = online;
      seq = seq;
      path = [];
    } in
    let local : LocalBts = record { name = name; lat = lat; lon = lon; seq = seq } in
    let up = record inner {
      fed = record inner.fed { bts_local = insert key local inner.fed.bts_local };
    } in
    let gone = record inner {
      fed = record inner.fed { bts_local = remove key inner.fed.bts_local };
    } in
    if online
    then if valid_position lat lon then (up, relay_bts up none a) else (inner, [])
    else if contains_key key inner.fed.bts_local
    then (gone, relay_bts gone none a)
    else (inner, [])

unfoldable pub advertise_ms : Inner → ℕ → ℕ → ℕ → ℕ → Text → Inner × List Send
advertise_ms inner issi lat lon at_ms station =
    let known : Bool = elim (lookup issi inner.fed.ms_pos) [
      | none ↦ false
      | some old ↦ leb at_ms old.at_ms
    ] in
    let entry : MsEntry = record {
      lat = lat;
      lon = lon;
      at_ms = at_ms;
      station = station;
      path = [];
    } in
    let a : MsAdvert = record {
      issi = issi;
      lat = lat;
      lon = lon;
      at_ms = at_ms;
      station = station;
      path = [];
    } in
    let inner' = record inner {
      fed = record inner.fed { ms_pos = insert issi entry inner.fed.ms_pos };
    } in
    if not (valid_position lat lon)
    then (inner, [])
    else if known
    then (inner, [])
    else (inner', relay_ms inner' none a)
