-- ===== src/Router/Floor/Tables.antt =====
-- Handlers of short messages, registrations and routes keep the calls and floors (src/router.rs,
-- src/fedroute.rs).
use brew_server.Common.{
  ℕ, ◌≡◌, refl, Bool, inl, inr, Bool-cases, Option-cases, Result-cases, Option, none, some, List,
  arith, nat_eq, list_eq, option_eq, lookup, contains_key, ◌⊎◌,
}
use brew_server.State.{ClientId, CallId, Inner, Advert, Subscriber}
use brew_server.Protocol.Parse.{SubscriberMessage, CallPayload}
use brew_server.Connections.Floors.{
  SameCalls, SameCalls-trans, reroute-SameCalls, withdraw_offer-SameCalls,
}
use brew_server.Fedroute.Adverts.Accept.{accept_bts, accept_ms, accept_em}
use brew_server.Fedroute.Messages.{
  FedMessage, withdraw, route, prune, bts_hello, bts, ms_pos, emergency, unknown,
}
use brew_server.Fedroute.Messages.Parse.{parse}
use brew_server.Fedroute.Table.{reroute, set_effective, withdraw_offer}
use brew_server.Fedroute.Handle.{
  take_offer, unusable, on_route, on_withdraw, on_hello, dispatch, handle,
}
use brew_server.Fedroute.Handle.Steps.{announce-inner}
use brew_server.Router.{Env}
use brew_server.Router.Sds.{
  handle_sds_header, route_sds, handle_sds_transfer, pass_sds, handle_sds_report,
}
use brew_server.Router.Subscribers.{
  Change, refused, becomes, change_of, apply_change, settle_change, handle_subscriber, joined,
}
use brew_server.Router.Floor.{CallsInv}
use brew_server.Router.Floor.Frames.{late_entry-CallsInv, on_prune-CallsInv}

pub SameCalls-CallsInv :
    (inner after : Inner) → SameCalls inner after → CallsInv inner → CallsInv after
SameCalls-CallsInv inner after f v = record {
  unique = rw f.calls v.unique;
  holds = rw (f.calls, f.floors) v.holds;
  apart = rw f.calls v.apart;
}

-- The messages of short messages do not touch calls.
pub handle_sds_header-SameCalls :
    (env : Env) (inner : Inner) (source : ClientId) (id : CallId) (payload : CallPayload)
    (raw : List ℕ)
    → SameCalls inner (handle_sds_header env inner source id payload raw).inner
unfolding handle_sds_header route_sds
handle_sds_header-SameCalls env inner source id payload raw = record {
  calls = ground arith;
  floors = ground arith;
}

pub handle_sds_transfer-SameCalls :
    (env : Env) (inner : Inner) (source : ClientId) (id : CallId) (raw : List ℕ)
    → SameCalls inner (handle_sds_transfer env inner source id raw).inner
unfolding handle_sds_transfer pass_sds
handle_sds_transfer-SameCalls env inner source id raw = record {
  calls = ground arith;
  floors = ground arith;
}

pub handle_sds_report-SameCalls :
    (inner : Inner) (source : ClientId) (id : CallId) (raw : List ℕ)
    → SameCalls inner (handle_sds_report inner source id raw).inner
unfolding handle_sds_report
handle_sds_report-SameCalls inner source id raw = record {
  calls = ground arith;
  floors = ground arith;
}

apply_change-SameCalls :
    (inner : Inner) (issi : ℕ) (new : Option Subscriber)
    → SameCalls inner (apply_change inner issi new)
unfolding apply_change set_effective
apply_change-SameCalls inner issi none =
    let stored = set_effective inner issi none in
    let f = reroute-SameCalls stored issi in record { calls = f.calls; floors = f.floors }
apply_change-SameCalls inner issi (some s) = record { calls = refl; floors = refl }

change_of-SameCalls :
    (inner stamped : Inner) (source : ClientId) (msg : SubscriberMessage) (now : ℕ)
    (new : Option Subscriber)
    → change_of inner source msg now ≡ becomes stamped new
    → SameCalls inner stamped
unfolding change_of
change_of-SameCalls inner stamped source msg now new e = record {
  calls = ground arith;
  floors = ground arith;
}

Change-cases :
    (c : Change) → (c ≡ refused) ⊎ ((i : Inner) × (new : Option Subscriber) × (c ≡ becomes i new))
Change-cases refused = inl refl
Change-cases (becomes i new) = inr (i, new, refl)

settle_change-CallsInv :
    (inner : Inner) (source : ClientId) (msg : SubscriberMessage) (old new : Option Subscriber)
    → CallsInv inner
    → CallsInv (settle_change inner source msg old new).inner
unfolding settle_change
settle_change-CallsInv inner source msg old new v =
    let after = apply_change inner msg.issi new in
    late_entry-CallsInv after source (joined after source msg)
      (SameCalls-CallsInv inner after (apply_change-SameCalls inner msg.issi new) v)

pub handle_subscriber-CallsInv :
    (inner : Inner) (source : ClientId) (msg : SubscriberMessage) (now : ℕ)
    → CallsInv inner
    → CallsInv (handle_subscriber inner source msg now).inner
unfolding handle_subscriber
handle_subscriber-CallsInv inner source msg now v =
    elim (Bool-cases (contains_key source inner.fed.links)) [
      | inl l ↦ rw (l, handle_subscriber) v
      | inr l ↦ elim (Change-cases (change_of inner source msg now)) [
        | inl r ↦ rw (l, r, handle_subscriber) v
        | inr (stamped, new, e) ↦
            rw (l, e, handle_subscriber)
              (settle_change-CallsInv stamped source msg (lookup msg.issi inner.subscribers) new (
                SameCalls-CallsInv inner stamped
                  (change_of-SameCalls inner stamped source msg now new e) v))
      ]
    ]

on_route-SameCalls :
    (inner : Inner) (source : ClientId) (issi : ℕ) (a : Advert) (now : ℕ)
    → SameCalls inner (on_route inner source issi a now).inner
unfolding on_route
on_route-SameCalls inner source issi a now = elim (Bool-cases (unusable inner a now)) [
  | inl bad ↦
      let stored = (withdraw_offer inner issi source).0 in
      rw (bad, announce-inner (reroute stored issi) issi (lookup issi inner.subscribers))
        (SameCalls-trans inner stored (reroute stored issi).0
          (withdraw_offer-SameCalls inner issi source) (reroute-SameCalls stored issi))
  | inr good ↦
      let stored = take_offer inner source issi a in
      let f = reroute-SameCalls stored issi in
      rw (good, announce-inner (reroute stored issi) issi (lookup issi inner.subscribers))
        (record { calls = f.calls; floors = f.floors })
]

on_withdraw-SameCalls :
    (inner : Inner) (source : ClientId) (issi : ℕ)
    → SameCalls inner (on_withdraw inner source issi).inner
unfolding on_withdraw
on_withdraw-SameCalls inner source issi =
    let stored = (withdraw_offer inner issi source).0 in
    let f = withdraw_offer-SameCalls inner issi source in
    elim (Bool-cases (withdraw_offer inner issi source).1) [
      | inl had ↦
          rw (had, announce-inner (reroute stored issi) issi (lookup issi inner.subscribers))
            (SameCalls-trans inner stored (reroute stored issi).0 f (reroute-SameCalls stored issi))
      | inr n ↦ rw n f
    ]

dispatch-CallsInv :
    (inner : Inner) (source : ClientId) (nbr_id : ℕ) (msg : FedMessage) (now : ℕ)
    → CallsInv inner
    → CallsInv (dispatch inner source nbr_id msg now).inner
unfolding dispatch on_hello accept_bts accept_ms accept_em
dispatch-CallsInv inner source nbr_id (route issi a) now v =
    SameCalls-CallsInv inner _ (on_route-SameCalls inner source issi a now) v
dispatch-CallsInv inner source nbr_id (withdraw issi) now v =
    SameCalls-CallsInv inner _ (on_withdraw-SameCalls inner source issi) v
dispatch-CallsInv inner source nbr_id (prune id talker) now v =
    on_prune-CallsInv inner source id talker v
dispatch-CallsInv inner source nbr_id (bts_hello version) now v =
    SameCalls-CallsInv inner _ (record { calls = refl; floors = refl }) v
dispatch-CallsInv inner source nbr_id (emergency a) now v =
    SameCalls-CallsInv inner _ (record { calls = ground arith; floors = ground arith }) v
dispatch-CallsInv inner source nbr_id (ms_pos a) now v =
    SameCalls-CallsInv inner _ (record { calls = ground arith; floors = ground arith }) v
dispatch-CallsInv inner source nbr_id (bts a) now v =
    SameCalls-CallsInv inner _ (record { calls = ground arith; floors = ground arith }) v
dispatch-CallsInv inner source nbr_id (unknown t) now v = v

pub handle-CallsInv :
    (utf8 : List ℕ → Bool) (inner : Inner) (source : ClientId) (raw : List ℕ) (now : ℕ)
    → CallsInv inner
    → CallsInv (handle utf8 inner source raw now).inner
unfolding handle
handle-CallsInv utf8 inner source raw now v = elim (Option-cases (lookup source inner.fed.links)) [
  | inl n ↦ rw (n, handle) v
  | inr (nbr_id, l) ↦ elim (Result-cases (parse utf8 raw nbr_id)) [
    | inl (msg, p) ↦ rw (l, p, handle) (dispatch-CallsInv inner source nbr_id msg now v)
    | inr (e, p) ↦ rw (l, p, handle) v
  ]
]
