-- ===== src/Fedroute/Handle/Below/Messages.antt =====
-- Federation messages keep every offer at or below the clock (src/fedroute.rs, `handle`).
use brew_server.Common.{
  ℕ, ◌≤◌, ◌≡◌, refl, Bool, max, inl, inr, Bool-cases, Option-cases, Result-cases, List, arith,
  nat_eq, Map, lookup, insert, remove,
}
use brew_server.State.{ClientId, Inner, Advert}
use brew_server.Fedroute.Clock.{observe, u64_max}
use brew_server.Fedroute.Messages.{
  FedMessage, withdraw, route, prune, bts_hello, bts, ms_pos, emergency, unknown,
}
use brew_server.Fedroute.Messages.Parse.{parse}
use brew_server.Fedroute.Table.{reroute, withdraw_offer, is_empty}
use brew_server.Fedroute.Adverts.Accept.{accept_bts, accept_ms, accept_em}
use brew_server.Fedroute.Handle.{
  take_offer, offers_at, unusable, on_route, on_withdraw, on_prune, on_hello, dispatch, handle,
}
use brew_server.Fedroute.Handle.Invariant.{reroute-fed}
use brew_server.Fedroute.Handle.Steps.{announce-inner}
use brew_server.Fedroute.Handle.Below.{
  OffersBelow, RibBelow, Below, rib-raised, remove-OffersBelow, remove-RibBelow, lookup-Below,
}

withdraw_offer-Below :
    (inner : Inner) (issi : ℕ) (link : ClientId)
    → Below inner
    → Below (withdraw_offer inner issi link).0
unfolding withdraw_offer insert
withdraw_offer-Below inner issi link b = elim (Option-cases (lookup issi inner.fed.rib_in)) [
  | inl n ↦ rw (n, withdraw_offer) b
  | inr (offers, e) ↦
      let clock = inner.fed.clock in
      let rest =
        remove-OffersBelow clock link offers
          (lookup-Below clock issi inner.fed.rib_in offers b.rib e) in
      let gone = remove-RibBelow clock issi inner.fed.rib_in b.rib in
      elim (Bool-cases (is_empty (remove link offers))) [
        | inl t ↦ rw (e, withdraw_offer, t) (record { rib = gone; fits = b.fits })
        | inr t ↦ rw (e, withdraw_offer, t) (record { rib = (rest, gone); fits = b.fits })
      ]
]

offers_at-Below :
    (clock issi : ℕ) (rib : Map ℕ (Map ClientId Advert))
    → RibBelow clock rib
    → OffersBelow clock (offers_at issi rib)
offers_at-Below clock issi rib h = elim (Option-cases (lookup issi rib)) [
  | inl n ↦ rw (n, offers_at) tt
  | inr (offers, e) ↦ rw (e, offers_at) (lookup-Below clock issi rib offers h e)
]

take_offer-Below :
    (inner : Inner) (source : ClientId) (issi : ℕ) (a : Advert)
    → a.reg ≤ u64_max
    → Below inner
    → Below (take_offer inner source issi a)
unfolding take_offer observe insert
take_offer-Below inner source issi a f b =
    let clock = max inner.fed.clock a.reg in
    let rib = rib-raised inner.fed.clock clock inner.fed.rib_in (omega arith) b.rib in
    record {
      rib = (
        (
          omega arith,
          remove-OffersBelow clock source (offers_at issi inner.fed.rib_in)
              (offers_at-Below clock issi inner.fed.rib_in rib),
        ),
        remove-RibBelow clock issi inner.fed.rib_in rib,
      );
      fits = omega (arith, b.fits);
    }

reroute-Below : (inner : Inner) (issi : ℕ) → Below inner → Below (reroute inner issi).0
reroute-Below inner issi b = record {
  rib = rw (reroute-fed inner issi) b.rib;
  fits = rw (reroute-fed inner issi) b.fits;
}

on_route-Below :
    (inner : Inner) (source : ClientId) (issi : ℕ) (a : Advert) (now : ℕ)
    → Below inner
    → Below (on_route inner source issi a now).inner
unfolding on_route
on_route-Below inner source issi a now b = elim (Bool-cases (unusable inner a now)) [
  | inl bad ↦
      let stored = (withdraw_offer inner issi source).0 in
      rw (bad, announce-inner (reroute stored issi) issi (lookup issi inner.subscribers))
        (reroute-Below stored issi (withdraw_offer-Below inner issi source b))
  | inr good ↦
      let stored = take_offer inner source issi a in
      rw (good, announce-inner (reroute stored issi) issi (lookup issi inner.subscribers))
        (reroute-Below stored issi (take_offer-Below inner source issi a (ground arith) b))
]

on_withdraw-Below :
    (inner : Inner) (source : ClientId) (issi : ℕ)
    → Below inner
    → Below (on_withdraw inner source issi).inner
unfolding on_withdraw
on_withdraw-Below inner source issi b =
    let stored = (withdraw_offer inner issi source).0 in
    let w = withdraw_offer-Below inner issi source b in
    elim (Bool-cases (withdraw_offer inner issi source).1) [
      | inl had ↦
          rw (had, announce-inner (reroute stored issi) issi (lookup issi inner.subscribers))
            (reroute-Below stored issi w)
      | inr n ↦ rw n w
    ]

-- What leaves the offers and the clock as they were.
pub record SameOffers (inner after : Inner) : Type 0 where
  pub rib : after.fed.rib_in ≡ inner.fed.rib_in
  pub clock : after.fed.clock ≡ inner.fed.clock

pub SameOffers-Below : (inner after : Inner) → SameOffers inner after → Below inner → Below after
SameOffers-Below inner after s b = record {
  rib = rw (s.rib, s.clock) b.rib;
  fits = rw s.clock b.fits;
}

dispatch-Below :
    (inner : Inner) (source : ClientId) (nbr_id : ℕ) (msg : FedMessage) (now : ℕ)
    → Below inner
    → Below (dispatch inner source nbr_id msg now).inner
unfolding dispatch on_prune on_hello accept_bts accept_ms accept_em
dispatch-Below inner source nbr_id (route issi a) now b = on_route-Below inner source issi a now b
dispatch-Below inner source nbr_id (withdraw issi) now b = on_withdraw-Below inner source issi b
dispatch-Below inner source nbr_id (prune id talker) now b =
    SameOffers-Below inner _ (record { rib = ground arith; clock = ground arith }) b
dispatch-Below inner source nbr_id (bts_hello version) now b =
    SameOffers-Below inner _ (record { rib = refl; clock = refl }) b
dispatch-Below inner source nbr_id (emergency a) now b =
    SameOffers-Below inner _ (record { rib = ground arith; clock = ground arith }) b
dispatch-Below inner source nbr_id (ms_pos a) now b =
    SameOffers-Below inner _ (record { rib = ground arith; clock = ground arith }) b
dispatch-Below inner source nbr_id (bts a) now b =
    SameOffers-Below inner _ (record { rib = ground arith; clock = ground arith }) b
dispatch-Below inner source nbr_id (unknown t) now b = b

-- Federation messages keep it so.
pub handle-Below :
    (utf8 : List ℕ → Bool) (inner : Inner) (source : ClientId) (raw : List ℕ) (now : ℕ)
    → Below inner
    → Below (handle utf8 inner source raw now).inner
unfolding handle
handle-Below utf8 inner source raw now b = elim (Option-cases (lookup source inner.fed.links)) [
  | inl n ↦ rw (n, handle) b
  | inr (nbr_id, l) ↦ elim (Result-cases (parse utf8 raw nbr_id)) [
    | inl (msg, p) ↦ rw (l, p, handle) (dispatch-Below inner source nbr_id msg now b)
    | inr (e, p) ↦ rw (l, p, handle) b
  ]
]
