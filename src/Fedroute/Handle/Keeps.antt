-- ===== src/Fedroute/Handle/Keeps.antt =====
-- Every federation message keeps the federation state right (src/fedroute.rs, `handle`).
use brew_server.Common.{
  ℕ, ◌≡◌, ◌≢◌, ◌⊎◌, refl, sym, ap, ◌∙◌, false, Option, none, some, [], ◌∷◌, arith, nat_eq,
  nat_beq_iff, Map, lookup, remove, contains_key, lookup-insert, lookup-remove, Option-cases,
  Bool-cases, inl, inr, subst, eq_of_beq,
}
use brew_server.State.{ClientId, Inner, Advert, Subscriber}
use brew_server.Fedroute.Select.{select, newest_remote}
use brew_server.Fedroute.Table.{reroute, best_entry, chosen, withdraw_offer}
use brew_server.Fedroute.Table.Groups.{TableInv, reroute-TableInv}
use brew_server.Fedroute.Table.Settle.{Settled, best_of, best_entry-best_of, reroute_settles}
use brew_server.Fedroute.Handle.Invariant.{
  GoodFed, GoodRib, FedInv, GoodRib-Linked, Settled-frame, reroute-fed, reroute-other, Frame,
  withdraw_offer-Frame,
}

-- What an operation that is not about routes leaves as it was.
pub record SameRoutes (inner after : Inner) : Type 0 where
  pub self_id : after.fed.self_id ≡ inner.fed.self_id
  pub links : after.fed.links ≡ inner.fed.links
  pub rib_in : after.fed.rib_in ≡ inner.fed.rib_in
  pub subscribers : after.subscribers ≡ inner.subscribers
  pub group_clients : after.group_clients ≡ inner.group_clients

pub TableInv-frame :
    (c : ClientId) (inner after : Inner)
    → after.subscribers ≡ inner.subscribers
    → after.group_clients ≡ inner.group_clients
    → TableInv c inner
    → TableInv c after
TableInv-frame c inner after s g v = rw (s, g) v

pub SameRoutes-FedInv : (inner after : Inner) → SameRoutes inner after → FedInv inner → FedInv after
SameRoutes-FedInv inner after f v = record {
  rib = rw (f.self_id, f.links, f.rib_in) v.rib;
  table = λ c. TableInv-frame c inner after f.subscribers f.group_clients (v.table c);
  settled = λ j.
      Settled-frame inner after j f.self_id f.links (ap (lookup j) f.rib_in)
        (ap (lookup j) f.subscribers) (v.settled j);
}

-- After the offers for an ISSI changed, `reroute` makes everything right again.
pub reroute-FedInv :
    (inner stored : Inner) (issi : ℕ)
    → FedInv inner
    → Frame inner stored issi
    → GoodRib stored
    → FedInv (reroute stored issi).0
reroute-FedInv inner stored issi v f g = record {
  rib = subst GoodFed (sym (reroute-fed stored issi)) g;
  table = λ c.
      reroute-TableInv c stored issi
        (TableInv-frame c inner stored f.subscribers f.group_clients (v.table c));
  settled = λ j. elim (Bool-cases (nat_eq.test issi j)) [
    | inl e ↦
        subst (λ x. Settled (reroute stored issi).0 x) (eq_of_beq e)
          (reroute_settles stored issi (GoodRib-Linked stored g issi)).0
    | inr n ↦
        let d : issi ≢ j = ground (arith, nat_beq_iff issi j) in
        let after = (reroute stored issi).0 in
        Settled-frame inner after j (ap (λ x. x.self_id) (reroute-fed stored issi) ∙ f.self_id)
          (ap (λ x. x.links) (reroute-fed stored issi) ∙ f.links)
          (ap (λ x. lookup j x.rib_in) (reroute-fed stored issi) ∙ f.others j d)
          (reroute-other stored issi j d ∙ ap (lookup j) f.subscribers) (v.settled j)
  ];
}

-- A link without an offer for the ISSI changes no best entry.
best_of_empty :
    (self_id : ℕ) (links : Map ClientId ℕ) (current : Option Subscriber)
    → best_of self_id links current (some []) ≡ best_of self_id links current none
unfolding best_of select chosen newest_remote
best_of_empty self_id links current = ground arith

remove_absent :
    (link : ClientId) (offers : Map ClientId Advert)
    → contains_key link offers ≡ false
    → remove link offers ≡ offers
unfolding lookup remove
remove_absent link [] n = refl
remove_absent link ((l, a) ∷ offers) n = ground (arith, remove_absent link offers)

-- The offers for the ISSI after a withdrawal of nothing: an empty map may go.
remove_nothing : (link : ClientId) → remove {V = Advert} link [] ≡ []
unfolding remove
remove_nothing link = refl

withdraw_nothing :
    (inner : Inner) (issi : ℕ) (link : ClientId)
    → (withdraw_offer inner issi link).1 ≡ false
    → (lookup issi (withdraw_offer inner issi link).0.fed.rib_in ≡ lookup issi inner.fed.rib_in)
      ⊎ ((lookup issi (withdraw_offer inner issi link).0.fed.rib_in ≡ none)
          × (lookup issi inner.fed.rib_in ≡ some []))
unfolding withdraw_offer
withdraw_nothing inner issi link n = elim (Option-cases (lookup issi inner.fed.rib_in)) [
  | inl e ↦ inl (ground arith)
  | inr ([], e) ↦ inr (
    ground (
      arith,
      lookup-remove issi issi inner.fed.rib_in,
      nat_beq_iff issi issi,
      remove_nothing link,
    ),
    e,
  )
  | inr (o ∷ os, e) ↦ inl (
      ground (
        arith,
        remove_absent link (o ∷ os),
        lookup-insert issi issi (remove link (o ∷ os)) inner.fed.rib_in,
        nat_beq_iff issi issi,
      ))
]

pub withdraw_none-Settled :
    (inner : Inner) (issi : ℕ) (link : ClientId)
    → (withdraw_offer inner issi link).1 ≡ false
    → Settled inner issi
    → Settled (withdraw_offer inner issi link).0 issi
withdraw_none-Settled inner issi link n h =
    let f = withdraw_offer-Frame inner issi link in
    elim (withdraw_nothing inner issi link n) [
      | inl e ↦
          Settled-frame inner (withdraw_offer inner issi link).0 issi f.self_id f.links e
            (ap (lookup issi) f.subscribers) h
      | inr (e, g) ↦
          let after = (withdraw_offer inner issi link).0 in
          let current = lookup issi inner.subscribers in
          let best : best_entry after issi ≡ best_entry inner issi =
            best_entry-best_of after issi
            ∙ (rw (f.self_id, f.links, f.subscribers, e, best_entry-best_of inner issi, g)
                (sym (best_of_empty inner.fed.self_id inner.fed.links current))) in
          rw (f.subscribers, best) h
    ]
