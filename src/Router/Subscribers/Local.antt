-- ===== src/Router/Subscribers/Local.antt =====
-- Entries of this server in the table, and their removal (src/router.rs, `handle_subscriber`).
use brew_server.Common.{
  ℕ, ◌≡◌, ◌≢◌, refl, sym, ap, ◌∙◌, true, false, inl, inr, Bool-cases, Option-cases, Option, none,
  some, arith, nat_eq, nat_beq_iff, list_eq, Map, lookup, contains_key, subst, eq_of_beq,
}
use brew_server.State.{ClientId, Inner, FedState, Advert, Subscriber}
use brew_server.Fedroute.Select.{Choice, local, remote, unreachable, select}
use brew_server.Fedroute.Table.{same, reroute, set_effective, best_entry, chosen, offered}
use brew_server.Fedroute.Table.Groups.{set_effective-TableInv, reroute-TableInv}
use brew_server.Fedroute.Table.Settle.{
  Linked, Settled, best_of, best_entry-best_of, lookup-set_effective, reroute_settles, same_refl,
}
use brew_server.Fedroute.Handle.Invariant.{
  GoodFed, GoodRib, FedInv, GoodRib-Linked, Settled-frame, reroute-fed, reroute-other,
}
use brew_server.Fedroute.Handle.Keeps.{SameRoutes-FedInv}

-- With its own registration chosen, an entry of this server is the best one.
local-best :
    (inner : Inner) (issi : ℕ) (s : Subscriber)
    → contains_key s.client_id inner.fed.links ≡ false
    → select inner.fed.self_id (some s.route.reg) inner.fed.links (lookup issi inner.fed.rib_in)
      ≡ local
    → best_of inner.fed.self_id inner.fed.links (some s) (lookup issi inner.fed.rib_in) ≡ some s
unfolding best_of chosen
local-best inner issi s n e = ground arith

-- An offer, or nothing, is not an entry of this server.
offered-differs :
    (links : Map ClientId ℕ) (o : Subscriber) (cands : Option (Map ClientId Advert))
    (link : ClientId)
    → contains_key o.client_id links ≡ false
    → ((c : Map ClientId Advert)
        → cands ≡ some c
        → contains_key link c ≡ true
        → contains_key link links ≡ true)
    → same (some o) (offered cands link) ≡ false
unfolding same
offered-differs links o none link n l = refl
offered-differs links o (some c) link n l = elim (Option-cases (lookup link c)) [
  | inl m ↦ ground arith
  | inr (a, e) ↦
      let linked = l c refl (ground arith) in
      let differs : nat_eq.test o.client_id link ≡ false =
        ground (arith, nat_beq_iff o.client_id link) in
      ground arith
]

remote-differs :
    (self_id : ℕ) (links : Map ClientId ℕ) (o : Subscriber) (cands : Option (Map ClientId Advert))
    (link : ClientId)
    → contains_key o.client_id links ≡ false
    → select self_id (some o.route.reg) links cands ≡ remote link
    → ((c : Map ClientId Advert)
        → cands ≡ some c
        → contains_key link c ≡ true
        → contains_key link links ≡ true)
    → same (some o) (best_of self_id links (some o) cands) ≡ false
unfolding best_of chosen
remote-differs self_id links o cands link n e l =
    ground (arith, offered-differs links o cands link n l)

unreachable-differs :
    (self_id : ℕ) (links : Map ClientId ℕ) (o : Subscriber) (cands : Option (Map ClientId Advert))
    → contains_key o.client_id links ≡ false
    → select self_id (some o.route.reg) links cands ≡ unreachable
    → same (some o) (best_of self_id links (some o) cands) ≡ false
unfolding best_of chosen same
unreachable-differs self_id links o cands n e = ground arith

-- Where an entry of this server is the best one, its registration is the choice.
pub best-local :
    (inner : Inner) (issi : ℕ) (o : Subscriber)
    → Linked inner issi
    → contains_key o.client_id inner.fed.links ≡ false
    → lookup issi inner.subscribers ≡ some o
    → Settled inner issi
    → select inner.fed.self_id (some o.route.reg) inner.fed.links (lookup issi inner.fed.rib_in)
      ≡ local
best-local inner issi o l n e h = go (select fed.self_id (some o.route.reg) fed.links cands) refl
  where
    fed : FedState
    fed = inner.fed

    cands : Option (Map ClientId Advert)
    cands = lookup issi fed.rib_in

    own : same (some o) (best_of fed.self_id fed.links (some o) cands) ≡ true
    own = rw (← e, ← best_entry-best_of inner issi) h

    go :
        (c : Choice)
        → select fed.self_id (some o.route.reg) fed.links cands ≡ c
        → select fed.self_id (some o.route.reg) fed.links cands ≡ local
    go local f = f
    go unreachable f =
        let d = unreachable-differs fed.self_id fed.links o cands n f in
        absurd (ground (arith, own))
    go (remote link) f =
        let d = remote-differs fed.self_id fed.links o cands link n f (λ c. l c link) in
        absurd (ground (arith, own))

-- The change of an entry, which may come with a later clock.
pub record Stamped (inner stamped : Inner) : Type 0 where
  pub self_id : stamped.fed.self_id ≡ inner.fed.self_id
  pub links : stamped.fed.links ≡ inner.fed.links
  pub rib_in : stamped.fed.rib_in ≡ inner.fed.rib_in
  pub subscribers : stamped.subscribers ≡ inner.subscribers
  pub group_clients : stamped.group_clients ≡ inner.group_clients

pub Stamped-FedInv : (inner stamped : Inner) → Stamped inner stamped → FedInv inner → FedInv stamped
Stamped-FedInv inner stamped f v =
    SameRoutes-FedInv inner stamped
      (record {
        self_id = f.self_id;
        links = f.links;
        rib_in = f.rib_in;
        subscribers = f.subscribers;
        group_clients = f.group_clients;
      })
      v

pub set_effective-fed :
    (inner : Inner) (issi : ℕ) (new : Option Subscriber)
    → (set_effective inner issi new).fed ≡ inner.fed
unfolding set_effective
set_effective-fed inner issi new = refl

set_effective-other :
    (inner : Inner) (issi j : ℕ) (new : Option Subscriber)
    → issi ≢ j
    → lookup j (set_effective inner issi new).subscribers ≡ lookup j inner.subscribers
set_effective-other inner issi j new d =
    ground (arith, lookup-set_effective inner issi j new, nat_beq_iff issi j)

set_effective-same :
    (inner : Inner) (issi : ℕ) (new : Option Subscriber)
    → lookup issi (set_effective inner issi new).subscribers ≡ new
set_effective-same inner issi new =
    ground (arith, lookup-set_effective inner issi issi new, nat_beq_iff issi issi)

-- Storing an entry of this server, when its registration is the choice.
pub store-local :
    (inner : Inner) (issi : ℕ) (s : Subscriber)
    → contains_key s.client_id inner.fed.links ≡ false
    → select inner.fed.self_id (some s.route.reg) inner.fed.links (lookup issi inner.fed.rib_in)
      ≡ local
    → FedInv inner
    → FedInv (set_effective inner issi (some s))
store-local inner issi s n e v =
    let after = set_effective inner issi (some s) in
    let fed = set_effective-fed inner issi (some s) in
    record {
      rib = subst GoodFed (sym fed) v.rib;
      table = λ c. set_effective-TableInv c inner issi (some s) (v.table c);
      settled = λ j. elim (Bool-cases (nat_eq.test issi j)) [
        | inl t ↦
            let best : best_entry after issi ≡ some s =
              best_entry-best_of after issi
              ∙ rw (fed, set_effective-same inner issi (some s)) (local-best inner issi s n e) in
            subst (λ x. Settled after x) (eq_of_beq t)
              (rw (set_effective-same inner issi (some s), best) (same_refl (some s)))
        | inr t ↦
            let d : issi ≢ j = ground (arith, nat_beq_iff issi j) in
            Settled-frame inner after j (ap (λ x. x.self_id) fed) (ap (λ x. x.links) fed)
              (ap (λ x. lookup j x.rib_in) fed) (set_effective-other inner issi j (some s) d)
              (v.settled j)
      ];
    }

-- Removing an entry and routing anew.
pub drop-reroute :
    (inner : Inner) (issi : ℕ)
    → FedInv inner
    → FedInv (reroute (set_effective inner issi none) issi).0
drop-reroute inner issi v =
    let stored = set_effective inner issi none in
    let after = (reroute stored issi).0 in
    let fed = reroute-fed stored issi ∙ set_effective-fed inner issi none in
    let good : GoodRib stored = subst GoodFed (sym (set_effective-fed inner issi none)) v.rib in
    record {
      rib = subst GoodFed (sym fed) v.rib;
      table = λ c.
          reroute-TableInv c stored issi (set_effective-TableInv c inner issi none (v.table c));
      settled = λ j. elim (Bool-cases (nat_eq.test issi j)) [
        | inl t ↦
            subst (λ x. Settled after x) (eq_of_beq t)
              (reroute_settles stored issi (GoodRib-Linked stored good issi)).0
        | inr t ↦
            let d : issi ≢ j = ground (arith, nat_beq_iff issi j) in
            Settled-frame inner after j (ap (λ x. x.self_id) fed) (ap (λ x. x.links) fed)
              (ap (λ x. lookup j x.rib_in) fed)
              (reroute-other stored issi j d ∙ set_effective-other inner issi j none d)
              (v.settled j)
      ];
    }
