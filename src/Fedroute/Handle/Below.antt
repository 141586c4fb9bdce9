-- ===== src/Fedroute/Handle/Below.antt =====
-- No offer is newer than the registration clock (src/fedroute.rs: `observe` before an offer is
-- kept), so that a registration made here is the newest.
pub mod Messages
use brew_server.Common.{
  ℕ, ◌+◌, ◌≤◌, ◌<◌, ◌≡◌, refl, sym, ap, ◌∙◌, Bool, true, false, max, inl, inr, Bool-cases,
  Option-cases, Result-cases, Option, none, some, List, [], ◌∷◌, arith, if◌then◌else◌, nat_eq,
  nat_beq_iff, All, Map, lookup, insert, remove, subst, last,
}
use brew_server.State.{ClientId, CallId, Inner, FedState, Advert, Subscriber}
use brew_server.Fedroute.Clock.{observe, u64_max, tick}
use brew_server.Fedroute.Select.{
  Choice, local, otherwise, newest_remote, offers_of, select, loses, choose,
}
use brew_server.Fedroute.Messages.{
  FedMessage, withdraw, route, prune, bts_hello, bts, ms_pos, emergency, unknown,
}
use brew_server.Fedroute.Messages.Parse.{parse}
use brew_server.Fedroute.Table.{reroute, set_effective, withdraw_offer, is_empty}
use brew_server.Fedroute.Adverts.Accept.{accept_bts, accept_ms, accept_em}
use brew_server.Fedroute.Handle.{
  take_offer, offers_at, unusable, on_route, on_withdraw, on_prune, on_hello, dispatch, handle,
}
use brew_server.Fedroute.Handle.Invariant.{reroute-fed}
use brew_server.Fedroute.Handle.Steps.{announce-inner}

abbrev pub OffersBelow : ℕ → Map ClientId Advert → Type 0
OffersBelow clock offers = All (λ (x : ClientId × Advert). x.1.reg ≤ clock) offers

abbrev pub RibBelow : ℕ → Map ℕ (Map ClientId Advert) → Type 0
RibBelow clock rib = All (λ (x : ℕ × Map ClientId Advert). OffersBelow clock x.1) rib

-- No offer is newer than the clock, which fits 64 bits.
pub record Below (inner : Inner) : Type 0 where
  pub rib : RibBelow inner.fed.clock inner.fed.rib_in
  pub fits : inner.fed.clock ≤ u64_max

pub offers-raised :
    (a b : ℕ) (offers : Map ClientId Advert) → a ≤ b → OffersBelow a offers → OffersBelow b offers
offers-raised a b [] h k = tt
offers-raised a b (x ∷ offers) h (k, ks) = (omega arith, offers-raised a b offers h ks)

pub rib-raised :
    (a b : ℕ) (rib : Map ℕ (Map ClientId Advert)) → a ≤ b → RibBelow a rib → RibBelow b rib
rib-raised a b [] h k = tt
rib-raised a b (x ∷ rib) h (k, ks) = (offers-raised a b x.1 h k, rib-raised a b rib h ks)

pub remove-OffersBelow :
    (clock : ℕ) (link : ClientId) (offers : Map ClientId Advert)
    → OffersBelow clock offers
    → OffersBelow clock (remove link offers)
unfolding remove
remove-OffersBelow clock link [] h = tt
remove-OffersBelow clock link ((l, a) ∷ offers) (h, hs) = elim (Bool-cases (nat_eq.test l link)) [
  | inl e ↦ rw e (remove-OffersBelow clock link offers hs)
  | inr e ↦ rw e (h, remove-OffersBelow clock link offers hs)
]

pub remove-RibBelow :
    (clock issi : ℕ) (rib : Map ℕ (Map ClientId Advert))
    → RibBelow clock rib
    → RibBelow clock (remove issi rib)
unfolding remove
remove-RibBelow clock issi [] h = tt
remove-RibBelow clock issi ((j, offers) ∷ rib) (h, hs) = elim (Bool-cases (nat_eq.test j issi)) [
  | inl e ↦ rw e (remove-RibBelow clock issi rib hs)
  | inr e ↦ rw e (h, remove-RibBelow clock issi rib hs)
]

pub lookup-Below :
    (clock issi : ℕ) (rib : Map ℕ (Map ClientId Advert)) (offers : Map ClientId Advert)
    → RibBelow clock rib
    → lookup issi rib ≡ some offers
    → OffersBelow clock offers
unfolding lookup
lookup-Below clock issi [] offers h e = cc
lookup-Below clock issi ((j, o) ∷ rib) offers (h, hs) e = elim (Bool-cases (nat_eq.test j issi)) [
  | inl t ↦ let same : o ≡ offers = ground arith in subst (OffersBelow clock) same h
  | inr t ↦ lookup-Below clock issi rib offers hs (ground arith)
]

newest_remote-le :
    (clock : ℕ) (offers : Map ClientId Advert) (top : ℕ × ℕ)
    → OffersBelow clock offers
    → newest_remote offers ≡ some top
    → top.0 ≤ clock
unfolding newest_remote
newest_remote-le clock [] top h e = cc
newest_remote-le clock ((l, a) ∷ offers) top (h, hs) e = elim (Option-cases (last a.path)) [
  | inl n ↦ newest_remote-le clock offers top hs (ground arith)
  | inr (o, p) ↦ elim (Option-cases (newest_remote offers)) [
    | inl n ↦ ground arith
    | inr (r, q) ↦ ground (arith, newest_remote-le clock offers r hs q)
  ]
]

-- A local registration above every offer is the choice.
pub newest_is_local :
    (self_id own clock : ℕ) (links : Map ClientId ℕ) (issi : ℕ) (rib : Map ℕ (Map ClientId Advert))
    → RibBelow clock rib
    → clock < own
    → select self_id (some own) links (lookup issi rib) ≡ local
unfolding select newest_remote
newest_is_local self_id own clock links issi rib h lt = elim (Option-cases (lookup issi rib)) [
  | inl n ↦ rw (n, select, newest_remote) refl
  | inr (offers, e) ↦ elim (Option-cases (newest_remote offers)) [
    | inl n ↦ rw e (ground arith)
    | inr (top, p) ↦
        let le = newest_remote-le clock offers top (lookup-Below clock issi rib offers h e) p in
        rw e (ground arith)
  ]
]
