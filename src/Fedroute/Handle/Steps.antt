-- ===== src/Fedroute/Handle/Steps.antt =====
-- The invariant of the federation state, message by message (src/fedroute.rs, `handle`).
use brew_server.Common.{
  ℕ, ◌≡◌, ◌≢◌, refl, ap, ◌∙◌, Bool, true, false, Option, some, List, arith, nat_eq, nat_beq_iff,
  lookup, Option-cases, Bool-cases, inl, inr, ok, subst, eq_of_beq, Result-cases,
}
use brew_server.State.{ClientId, CallId, Inner, Advert, Subscriber}
use brew_server.Fedroute.Messages.{
  FedMessage, BtsAdvert, MsAdvert, EmAdvert, withdraw, route, prune, bts_hello, bts, ms_pos,
  emergency, unknown,
}
use brew_server.Fedroute.Messages.Sound.{parse-Accepted}
use brew_server.Fedroute.Messages.Parse.{parse}
use brew_server.Fedroute.Table.{reroute, withdraw_offer}
use brew_server.Fedroute.Table.Settle.{Settled}
use brew_server.Fedroute.Adverts.Accept.{accept_bts, accept_ms, accept_em}
use brew_server.Fedroute.Handle.{
  announce, take_offer, unusable, on_route, on_withdraw, on_prune, on_hello, dispatch, handle,
}
use brew_server.Fedroute.Handle.Keeps.{
  SameRoutes-FedInv, TableInv-frame, reroute-FedInv, withdraw_none-Settled,
}
use brew_server.Fedroute.Handle.Invariant.{
  IsOffer, FedInv, Settled-frame, withdraw_offer-Frame, take_offer-Frame, withdraw_offer-GoodRib,
  take_offer-GoodRib,
}

pub announce-inner :
    (out : Inner × Bool) (issi : ℕ) (old : Option Subscriber)
    → (announce out issi old).inner ≡ out.0
announce-inner (inner, true) issi old = refl
announce-inner (inner, false) issi old = refl

-- A usable advert that the parser accepted is an offer.
usable-IsOffer :
    (utf8 : List ℕ → Bool) (inner : Inner) (source : ClientId) (nbr_id : ℕ) (raw : List ℕ)
    (issi : ℕ) (a : Advert) (now : ℕ)
    → lookup source inner.fed.links ≡ some nbr_id
    → parse utf8 raw nbr_id ≡ ok (route issi a)
    → unusable inner a now ≡ false
    → IsOffer inner.fed.self_id inner.fed.links source a
usable-IsOffer utf8 inner source nbr_id raw issi a now l p u = record {
  linked = (nbr_id, l, parse-Accepted utf8 raw nbr_id issi a p);
  elsewhere = ground arith;
}

on_route-FedInv :
    (inner : Inner) (source : ClientId) (issi : ℕ) (a : Advert) (now : ℕ)
    → (unusable inner a now ≡ false → IsOffer inner.fed.self_id inner.fed.links source a)
    → FedInv inner
    → FedInv (on_route inner source issi a now).inner
unfolding on_route
on_route-FedInv inner source issi a now o v = elim (Bool-cases (unusable inner a now)) [
  | inl bad ↦
      let stored = (withdraw_offer inner issi source).0 in
      rw (bad, announce-inner (reroute stored issi) issi (lookup issi inner.subscribers))
        (reroute-FedInv inner stored issi v (withdraw_offer-Frame inner issi source)
          (withdraw_offer-GoodRib inner issi source v.rib))
  | inr good ↦
      let stored = take_offer inner source issi a in
      rw (good, announce-inner (reroute stored issi) issi (lookup issi inner.subscribers))
        (reroute-FedInv inner stored issi v (take_offer-Frame inner source issi a)
          (take_offer-GoodRib inner source issi a v.rib (o good)))
]

on_withdraw-FedInv :
    (inner : Inner) (source : ClientId) (issi : ℕ)
    → FedInv inner
    → FedInv (on_withdraw inner source issi).inner
unfolding on_withdraw
on_withdraw-FedInv inner source issi v =
    let stored = (withdraw_offer inner issi source).0 in
    let f = withdraw_offer-Frame inner issi source in
    let g = withdraw_offer-GoodRib inner issi source v.rib in
    elim (Bool-cases (withdraw_offer inner issi source).1) [
      | inl had ↦
          rw (had, announce-inner (reroute stored issi) issi (lookup issi inner.subscribers))
            (reroute-FedInv inner stored issi v f g)
      | inr none_held ↦
          let kept : FedInv stored = record {
            rib = g;
            table = λ c. TableInv-frame c inner stored f.subscribers f.group_clients (v.table c);
            settled = λ j. elim (Bool-cases (nat_eq.test issi j)) [
              | inl e ↦
                  subst (λ x. Settled stored x) (eq_of_beq e)
                    (withdraw_none-Settled inner issi source none_held (v.settled issi))
              | inr n ↦
                  let d : issi ≢ j = ground (arith, nat_beq_iff issi j) in
                  Settled-frame inner stored j f.self_id f.links (f.others j d)
                    (ap (lookup j) f.subscribers) (v.settled j)
            ];
          } in
          rw none_held kept
    ]

on_prune-FedInv :
    (inner : Inner) (source : ClientId) (id : CallId) (source_issi : ℕ)
    → FedInv inner
    → FedInv (on_prune inner source id source_issi)
unfolding on_prune
on_prune-FedInv inner source id source_issi v =
    SameRoutes-FedInv inner (on_prune inner source id source_issi)
      (record {
        self_id = ground arith;
        links = ground arith;
        rib_in = ground arith;
        subscribers = ground arith;
        group_clients = ground arith;
      })
      v

on_hello-FedInv :
    (inner : Inner) (source : ClientId) (nbr_id version now : ℕ)
    → FedInv inner
    → FedInv (on_hello inner source nbr_id version now).0
unfolding on_hello
on_hello-FedInv inner source nbr_id version now v =
    SameRoutes-FedInv inner (on_hello inner source nbr_id version now).0
      (record {
        self_id = refl;
        links = refl;
        rib_in = refl;
        subscribers = refl;
        group_clients = refl;
      })
      v

accept_bts-FedInv :
    (inner : Inner) (source : ClientId) (a : BtsAdvert) (now : ℕ)
    → FedInv inner
    → FedInv (accept_bts inner source a now).0
unfolding accept_bts
accept_bts-FedInv inner source a now v =
    SameRoutes-FedInv inner (accept_bts inner source a now).0
      (record {
        self_id = ground arith;
        links = ground arith;
        rib_in = ground arith;
        subscribers = ground arith;
        group_clients = ground arith;
      })
      v

accept_em-FedInv :
    (inner : Inner) (source : ClientId) (a : EmAdvert) (now : ℕ)
    → FedInv inner
    → FedInv (accept_em inner source a now).0
unfolding accept_em
accept_em-FedInv inner source a now v =
    SameRoutes-FedInv inner (accept_em inner source a now).0
      (record {
        self_id = ground arith;
        links = ground arith;
        rib_in = ground arith;
        subscribers = ground arith;
        group_clients = ground arith;
      })
      v

accept_ms-FedInv :
    (inner : Inner) (source : ClientId) (a : MsAdvert)
    → FedInv inner
    → FedInv (accept_ms inner source a).0
unfolding accept_ms
accept_ms-FedInv inner source a v =
    SameRoutes-FedInv inner (accept_ms inner source a).0
      (record {
        self_id = ground arith;
        links = ground arith;
        rib_in = ground arith;
        subscribers = ground arith;
        group_clients = ground arith;
      })
      v

dispatch-FedInv :
    (inner : Inner) (source : ClientId) (nbr_id : ℕ) (msg : FedMessage) (now : ℕ)
    → ((issi : ℕ) (a : Advert)
        → msg ≡ route issi a
        → unusable inner a now ≡ false
        → IsOffer inner.fed.self_id inner.fed.links source a)
    → FedInv inner
    → FedInv (dispatch inner source nbr_id msg now).inner
unfolding dispatch
dispatch-FedInv inner source nbr_id (route issi a) now o v =
    on_route-FedInv inner source issi a now (o issi a refl) v
dispatch-FedInv inner source nbr_id (withdraw issi) now o v = on_withdraw-FedInv inner source issi v
dispatch-FedInv inner source nbr_id (prune id source_issi) now o v =
    on_prune-FedInv inner source id source_issi v
dispatch-FedInv inner source nbr_id (bts_hello version) now o v =
    on_hello-FedInv inner source nbr_id version now v
dispatch-FedInv inner source nbr_id (emergency a) now o v = accept_em-FedInv inner source a now v
dispatch-FedInv inner source nbr_id (ms_pos a) now o v = accept_ms-FedInv inner source a v
dispatch-FedInv inner source nbr_id (bts a) now o v = accept_bts-FedInv inner source a now v
dispatch-FedInv inner source nbr_id (unknown t) now o v = v

-- Whatever bytes arrive over whatever connection, `handle` keeps the federation state right: every
-- offer held came over a negotiated link from the neighbour on it, in 1 to 16 distinct servers and
-- not through this one; the group memberships of every connection are those of the ISSIs routed over
-- it; and the entry of every ISSI is the best that the offers and the local registration allow.
pub handle-FedInv :
    (utf8 : List ℕ → Bool) (inner : Inner) (source : ClientId) (raw : List ℕ) (now : ℕ)
    → FedInv inner
    → FedInv (handle utf8 inner source raw now).inner
unfolding handle
handle-FedInv utf8 inner source raw now v = elim (Option-cases (lookup source inner.fed.links)) [
  | inl n ↦ rw (n, handle) v
  | inr (nbr_id, l) ↦ elim (Result-cases (parse utf8 raw nbr_id)) [
    | inl (msg, p) ↦
        rw (l, p, handle)
          (dispatch-FedInv inner source nbr_id msg now
            (λ issi a m u. usable-IsOffer utf8 inner source nbr_id raw issi a now l (p ∙ ap ok m) u)
            v)
    | inr (e, p) ↦ rw (l, p, handle) v
  ]
]
