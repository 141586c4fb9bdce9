-- ===== src/Fedroute/Handle.antt =====
-- A federation message from a peer link (src/fedroute.rs, `handle`). The wall clock is an
-- argument; the result has the packets sent and the ISSI whose registration appeared, if any.
pub mod Invariant
pub mod Keeps
pub mod Steps
pub mod Below
use brew_server.Common.{
  ℕ, ◌+◌, Bool, true, false, not, ◌&&◌, ◌||◌, Option, none, some, List, [], ◌∷◌, ◌++◌,
  if◌then◌else◌, ltb, leb, ◌==◌, nat_eq, list_eq, nat_beq, min, Result, ok, err, Map, lookup,
  insert, contains, add, discard,
}
use brew_server.State.{
  ClientId, CallId, Inner, FedState, Advert, Subscriber, ActiveCall, is_group, Send,
}
use brew_server.Fedroute.Clock.{observe, u64_max}
use brew_server.Fedroute.Messages.{
  FedMessage, withdraw, route, prune, bts_hello, bts, ms_pos, emergency, unknown,
}
use brew_server.Fedroute.Messages.Parse.{parse}
use brew_server.Fedroute.Table.{reroute, withdraw_offer}
use brew_server.Fedroute.Publish.{publish, to_link}
use brew_server.Fedroute.Adverts.{bts_sync, ms_sync, em_sync}
use brew_server.Fedroute.Adverts.Accept.{accept_bts, accept_ms, accept_em}

abbrev pub max_future_ms : ℕ
max_future_ms = 86_400_000

pub record Outcome : Type 0 where
  pub inner : Inner
  pub sends : List Send
  pub registered : Option ℕ

abbrev pub quiet : Inner → Outcome
quiet inner = record { inner = inner; sends = []; registered = none }

abbrev pub sent : Inner × List Send → Outcome
sent (inner, sends) = record { inner = inner; sends = sends; registered = none }

-- `(changed && publish(...)).then_some(issi)`.
abbrev pub announce : Inner × Bool → ℕ → Option Subscriber → Outcome
announce (inner, changed) issi old =
    if changed
    then record {
      inner = inner;
      sends = (publish inner issi old).0;
      registered = if (publish inner issi old).1 then some issi else none;
    }
    else quiet inner

abbrev pub offers_at : ℕ → Map ℕ (Map ClientId Advert) → Map ClientId Advert
offers_at issi rib = elim (lookup issi rib) [ none ↦ [] | some offers ↦ offers ]

-- `rib_in.entry(issi).or_default().insert(source, advert)`, after `observe`.
unfoldable pub take_offer : Inner → ClientId → ℕ → Advert → Inner
unfolding observe
take_offer inner source issi advert =
    let fed = observe inner.fed advert.reg in
    record inner {
      fed = record fed {
        rib_in = insert issi (insert source advert (offers_at issi fed.rib_in)) fed.rib_in;
      };
    }

-- Whether an advert is taken as a withdrawal: too far in the future, or through this server.
abbrev pub unusable : Inner → Advert → ℕ → Bool
unusable inner advert now_ms =
    ltb (min (now_ms + max_future_ms) u64_max) advert.reg || contains advert.path inner.fed.self_id

unfoldable pub on_route : Inner → ClientId → ℕ → Advert → ℕ → Outcome
unfolding take_offer
on_route inner source issi advert now_ms =
    let old = lookup issi inner.subscribers in
    let stored =
      if unusable inner advert now_ms
      then (withdraw_offer inner issi source).0
      else take_offer inner source issi advert in
    announce (reroute stored issi) issi old

unfoldable pub on_withdraw : Inner → ClientId → ℕ → Outcome
on_withdraw inner source issi =
    let old = lookup issi inner.subscribers in
    let (stored, had) = withdraw_offer inner issi source in
    if had then announce (reroute stored issi) issi old else quiet stored

unfoldable pub on_prune : Inner → ClientId → CallId → ℕ → Inner
on_prune inner source id source_issi = elim (lookup id inner.calls) [
  | none ↦ inner
  | some call ↦
      if is_group call.kind && call.source_issi == source_issi
      then record inner {
        calls = insert id (record call { peers = discard source call.peers }) inner.calls;
      }
      else inner
]

unfoldable pub on_hello : Inner → ClientId → ℕ → ℕ → ℕ → Inner × List Send
on_hello inner source nbr_id version now_ms =
    let fed = inner.fed in
    let hello = record inner {
      fed = record fed {
        bts_links = add source fed.bts_links;
        ms_links = if leb 2 version then add source fed.ms_links else fed.ms_links;
        em_links = if leb 3 version then add source fed.em_links else fed.em_links;
      };
    } in
    let msgs =
      bts_sync hello nbr_id now_ms
      ++ ((if leb 2 version then ms_sync hello nbr_id else [])
          ++ (if leb 3 version then em_sync hello nbr_id now_ms else [])) in
    (hello, elim (lookup source inner.clients) [ none ↦ [] | some _ ↦ to_link source msgs ])

unfoldable pub dispatch : Inner → ClientId → ℕ → FedMessage → ℕ → Outcome
dispatch inner source nbr_id (route issi advert) now_ms = on_route inner source issi advert now_ms
dispatch inner source nbr_id (withdraw issi) now_ms = on_withdraw inner source issi
dispatch inner source nbr_id (prune id source_issi) now_ms =
    quiet (on_prune inner source id source_issi)
dispatch inner source nbr_id (bts_hello version) now_ms =
    sent (on_hello inner source nbr_id version now_ms)
dispatch inner source nbr_id (emergency a) now_ms = sent (accept_em inner source a now_ms)
dispatch inner source nbr_id (ms_pos a) now_ms = sent (accept_ms inner source a)
dispatch inner source nbr_id (bts a) now_ms = sent (accept_bts inner source a now_ms)
dispatch inner source nbr_id (unknown t) now_ms = quiet inner

unfoldable pub handle : (List ℕ → Bool) → Inner → ClientId → List ℕ → ℕ → Outcome
unfolding dispatch
handle utf8 inner source raw now_ms = elim (lookup source inner.fed.links) [
  | none ↦ quiet inner
  | some nbr_id ↦ elim (parse utf8 raw nbr_id) [
    | err e ↦ quiet inner
    | ok msg ↦ dispatch inner source nbr_id msg now_ms
  ]
]
