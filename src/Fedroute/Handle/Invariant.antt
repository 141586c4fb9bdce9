-- ===== src/Fedroute/Handle/Invariant.antt =====
-- What holds of the federation state between two messages (src/fedroute.rs, `handle`).
use brew_server.Common.{
  ℕ, ◌≡◌, ◌≢◌, refl, sym, ◌∙◌, true, false, ◌&&◌, Option, none, some, [], ◌∷◌, arith, if◌then◌else◌,
  nat_eq, nat_beq_iff, Map, lookup, insert, remove, lookup-insert, lookup-remove, contains,
  Option-cases, Bool-cases, inl, inr,
}
use brew_server.State.{ClientId, FedState, Inner, Advert}
use brew_server.Fedroute.Messages.Sound.{Accepted}
use brew_server.Fedroute.Table.{best_entry, reroute, withdraw_offer, is_empty}
use brew_server.Fedroute.Table.Groups.{TableInv}
use brew_server.Fedroute.Table.Settle.{Linked, Settled, best_entry-best_of, lookup-set_effective}
use brew_server.Fedroute.Handle.{offers_at, take_offer}

-- An offer over a link: the link is negotiated, its path is as the parser accepts it from that
-- neighbour, and does not cross this server.
pub record IsOffer (self_id : ℕ) (links : Map ClientId ℕ) (link : ClientId) (a : Advert)
    : Type 0 where
  pub linked : (n : ℕ) × (lookup link links ≡ some n) × Accepted a.path n
  pub elsewhere : contains a.path self_id ≡ false

-- The offer held for an ISSI over a link.
abbrev pub offer : ℕ → ClientId → Map ℕ (Map ClientId Advert) → Option Advert
offer issi link rib = elim (lookup issi rib) [ none ↦ none | some offers ↦ lookup link offers ]

abbrev pub GoodFed : FedState → Type 0
GoodFed fed =
    (issi : ℕ) (link : ClientId) (a : Advert)
    → offer issi link fed.rib_in ≡ some a
    → IsOffer fed.self_id fed.links link a

abbrev pub GoodRib : Inner → Type 0
GoodRib inner = GoodFed inner.fed

-- Every offer is sound, every connection's group memberships are right, and the entry of every ISSI
-- is the best one that its offers and its local registration allow.
pub record FedInv (inner : Inner) : Type 0 where
  pub rib : GoodRib inner
  pub table : (c : ClientId) → TableInv c inner
  pub settled : (issi : ℕ) → Settled inner issi

pub GoodRib-Linked : (inner : Inner) → GoodRib inner → (issi : ℕ) → Linked inner issi
GoodRib-Linked inner g issi offers link e k = elim (Option-cases (lookup link offers)) [
  | inl n ↦ ground arith
  | inr (a, p) ↦ let (n, q, r) = (g issi link a (ground arith)).linked in ground arith
]

-- What the best entry of an ISSI depends on.
pub Settled-frame :
    (inner after : Inner) (issi : ℕ)
    → after.fed.self_id ≡ inner.fed.self_id
    → after.fed.links ≡ inner.fed.links
    → lookup issi after.fed.rib_in ≡ lookup issi inner.fed.rib_in
    → lookup issi after.subscribers ≡ lookup issi inner.subscribers
    → Settled inner issi
    → Settled after issi
Settled-frame inner after issi s l r e h =
    let best : best_entry after issi ≡ best_entry inner issi =
      best_entry-best_of after issi ∙ (rw (s, l, r, e) (sym (best_entry-best_of inner issi))) in
    rw (e, best) h

pub reroute-fed : (inner : Inner) (issi : ℕ) → (reroute inner issi).0.fed ≡ inner.fed
unfolding reroute
reroute-fed inner issi =
    ground (arith, lookup-set_effective inner issi issi (best_entry inner issi))

pub reroute-other :
    (inner : Inner) (issi j : ℕ)
    → issi ≢ j
    → lookup j (reroute inner issi).0.subscribers ≡ lookup j inner.subscribers
unfolding reroute
reroute-other inner issi j d =
    ground (arith, lookup-set_effective inner issi j (best_entry inner issi), nat_beq_iff issi j)

-- What an operation on the offers for one ISSI leaves as it was.
pub record Frame (inner after : Inner) (issi : ℕ) : Type 0 where
  pub self_id : after.fed.self_id ≡ inner.fed.self_id
  pub links : after.fed.links ≡ inner.fed.links
  pub subscribers : after.subscribers ≡ inner.subscribers
  pub group_clients : after.group_clients ≡ inner.group_clients
  pub others : (j : ℕ) → issi ≢ j → lookup j after.fed.rib_in ≡ lookup j inner.fed.rib_in

pub withdraw_offer-Frame :
    (inner : Inner) (issi : ℕ) (link : ClientId)
    → Frame inner (withdraw_offer inner issi link).0 issi
unfolding withdraw_offer
withdraw_offer-Frame inner issi link = record {
  self_id = ground arith;
  links = ground arith;
  subscribers = ground arith;
  group_clients = ground arith;
  others = λ j d. elim (Option-cases (lookup issi inner.fed.rib_in)) [
    | inl n ↦ ground arith
    | inr (offers, e) ↦ ground (
      arith,
      nat_beq_iff issi j,
      lookup-remove issi j inner.fed.rib_in,
      lookup-insert issi j (remove link offers) inner.fed.rib_in,
    )
  ];
}

pub take_offer-Frame :
    (inner : Inner) (source : ClientId) (issi : ℕ) (a : Advert)
    → Frame inner (take_offer inner source issi a) issi
unfolding take_offer
take_offer-Frame inner source issi a = record {
  self_id = refl;
  links = refl;
  subscribers = refl;
  group_clients = refl;
  others = λ j d. ground (
    arith,
    nat_beq_iff issi j,
    lookup-insert issi j (insert source a (offers_at issi inner.fed.rib_in)) inner.fed.rib_in,
  );
}

lookup_empty :
    (offers : Map ClientId Advert) (l : ClientId) → is_empty offers ≡ true → lookup l offers ≡ none
unfolding lookup
lookup_empty [] l e = refl
lookup_empty (x ∷ xs) l e = cc

offer-withdraw_offer :
    (inner : Inner) (issi j : ℕ) (link l : ClientId)
    → offer j l (withdraw_offer inner issi link).0.fed.rib_in
      ≡ (if nat_eq.test issi j && nat_eq.test link l then none else offer j l inner.fed.rib_in)
unfolding withdraw_offer
offer-withdraw_offer inner issi j link l = elim (Option-cases (lookup issi inner.fed.rib_in)) [
  | inl n ↦ ground (arith, nat_beq_iff issi j)
  | inr (old, e) ↦ ground (
    arith,
    nat_beq_iff issi j,
    lookup-remove issi j inner.fed.rib_in,
    lookup-insert issi j (remove link old) inner.fed.rib_in,
    lookup-remove link l old,
    lookup_empty (remove link old) l,
  )
]

offer-take_offer :
    (inner : Inner) (source : ClientId) (issi : ℕ) (a : Advert) (j : ℕ) (l : ClientId)
    → offer j l (take_offer inner source issi a).fed.rib_in
      ≡ (if nat_eq.test issi j && nat_eq.test source l then some a else offer j l inner.fed.rib_in)
unfolding take_offer lookup
offer-take_offer inner source issi a j l =
    let held = offers_at issi inner.fed.rib_in in
    ground (
      arith,
      nat_beq_iff issi j,
      lookup-insert issi j (insert source a held) inner.fed.rib_in,
      lookup-insert source l a held,
    )

pub withdraw_offer-GoodRib :
    (inner : Inner) (issi : ℕ) (link : ClientId)
    → GoodRib inner
    → GoodRib (withdraw_offer inner issi link).0
withdraw_offer-GoodRib inner issi link g j l a e =
    let f = withdraw_offer-Frame inner issi link in
    rw (f.self_id, f.links) (g j l a (ground (arith, offer-withdraw_offer inner issi j link l)))

pub take_offer-GoodRib :
    (inner : Inner) (source : ClientId) (issi : ℕ) (a : Advert)
    → GoodRib inner
    → IsOffer inner.fed.self_id inner.fed.links source a
    → GoodRib (take_offer inner source issi a)
take_offer-GoodRib inner source issi a g o j l b e =
    let f = take_offer-Frame inner source issi a in
    rw (f.self_id, f.links)
      (elim (Bool-cases (nat_eq.test issi j && nat_eq.test source l)) [
        | inl hit ↦
            let s : source ≡ l = ground (arith, nat_beq_iff source l) in
            let same : a ≡ b = ground (arith, offer-take_offer inner source issi a j l) in
            rw (← s, ← same) o
        | inr miss ↦ g j l b (ground (arith, offer-take_offer inner source issi a j l))
      ])
