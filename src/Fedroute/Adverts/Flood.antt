-- ===== src/Fedroute/Adverts/Flood.antt =====
-- Positions of base stations and of terminals are passed on once (src/fedroute.rs, `accept_bts` and
-- `accept_ms`).
use brew_server.Common.{
  ℕ, ◌≡◌, ◌≤◌, Bool, true, false, not, ◌&&◌, none, some, [], arith, leb, nat_eq, pair_eq, list_eq,
  nat_beq_iff, eq_self, last, Text, lookup, lookup-insert,
}
use brew_server.State.{ClientId, Inner, RemoteBts, MsEntry}
use brew_server.Fedroute.Messages.{BtsAdvert, MsAdvert}
use brew_server.Fedroute.Messages.Build.{valid_position}
use brew_server.Fedroute.Adverts.Accept.{own_advert, accept_bts, accept_ms}

abbrev bts_heard : Inner → ℕ × Text → ℕ → Bool
bts_heard inner key seq = elim (lookup key inner.fed.bts_remote) [
  | none ↦ false
  | some b ↦ leb seq b.seq
]

accept_bts-heard :
    (inner : Inner) (source : ClientId) (a : BtsAdvert) (now origin : ℕ)
    → last a.path ≡ some origin
    → own_advert inner.fed.self_id a.path origin ≡ false
    → a.online && not (valid_position a.lat a.lon) ≡ false
    → bts_heard (accept_bts inner source a now).0 (origin, a.key) a.seq ≡ true
unfolding accept_bts
accept_bts-heard inner source a now origin l o v =
    let entry : RemoteBts = record {
      name = a.name;
      lat = a.lat;
      lon = a.lon;
      online = a.online;
      seq = a.seq;
      path = a.path;
      seen_ms = now;
    } in
    let key : ℕ × Text = (origin, a.key) in
    ground (arith, lookup-insert key key entry inner.fed.bts_remote, eq_self key)

accept_bts-silent :
    (inner : Inner) (source : ClientId) (a : BtsAdvert) (now origin : ℕ)
    → last a.path ≡ some origin
    → bts_heard inner (origin, a.key) a.seq ≡ true
    → accept_bts inner source a now ≡ (inner, [])
unfolding accept_bts
accept_bts-silent inner source a now origin l h = ground arith

-- Once a base station of another server, in a usable advert that did not come through this server,
-- has been taken in, every copy of it and every older advert of that server for the station is
-- ignored, over whatever link it comes: nothing is sent and nothing changes.
pub accept_bts_once :
    (inner : Inner) (source again : ClientId) (a b : BtsAdvert) (now later origin : ℕ)
    → last a.path ≡ some origin
    → own_advert inner.fed.self_id a.path origin ≡ false
    → a.online && not (valid_position a.lat a.lon) ≡ false
    → last b.path ≡ some origin
    → b.key ≡ a.key
    → b.seq ≤ a.seq
    → accept_bts (accept_bts inner source a now).0 again b later
      ≡ ((accept_bts inner source a now).0, [])
accept_bts_once inner source again a b now later origin la oa va lb i s =
    let h = accept_bts-heard inner source a now origin la oa va in
    accept_bts-silent (accept_bts inner source a now).0 again b later origin lb (ground arith)

abbrev ms_heard : Inner → ℕ → ℕ → Bool
ms_heard inner issi at_ms = elim (lookup issi inner.fed.ms_pos) [
  | none ↦ false
  | some e ↦ leb at_ms e.at_ms
]

accept_ms-heard :
    (inner : Inner) (source : ClientId) (a : MsAdvert) (origin : ℕ)
    → last a.path ≡ some origin
    → own_advert inner.fed.self_id a.path origin ≡ false
    → valid_position a.lat a.lon ≡ true
    → ms_heard (accept_ms inner source a).0 a.issi a.at_ms ≡ true
unfolding accept_ms
accept_ms-heard inner source a origin l o v =
    let entry : MsEntry = record {
      lat = a.lat;
      lon = a.lon;
      at_ms = a.at_ms;
      station = a.station;
      path = a.path;
    } in
    ground (arith, lookup-insert a.issi a.issi entry inner.fed.ms_pos, nat_beq_iff a.issi a.issi)

accept_ms-silent :
    (inner : Inner) (source : ClientId) (a : MsAdvert) (origin : ℕ)
    → last a.path ≡ some origin
    → ms_heard inner a.issi a.at_ms ≡ true
    → accept_ms inner source a ≡ (inner, [])
unfolding accept_ms
accept_ms-silent inner source a origin l h = ground arith

-- Once a usable fix of a terminal, not one that came from or through this server, has been taken in,
-- every fix of the terminal that is no newer is ignored, whichever server it comes from.
pub accept_ms_once :
    (inner : Inner) (source again : ClientId) (a b : MsAdvert) (origin other : ℕ)
    → last a.path ≡ some origin
    → own_advert inner.fed.self_id a.path origin ≡ false
    → valid_position a.lat a.lon ≡ true
    → last b.path ≡ some other
    → b.issi ≡ a.issi
    → b.at_ms ≤ a.at_ms
    → accept_ms (accept_ms inner source a).0 again b ≡ ((accept_ms inner source a).0, [])
accept_ms_once inner source again a b origin other la oa va lb i s =
    let h = accept_ms-heard inner source a origin la oa va in
    accept_ms-silent (accept_ms inner source a).0 again b other lb (ground arith)
