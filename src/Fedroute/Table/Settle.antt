-- ===== src/Fedroute/Table/Settle.antt =====
-- `reroute` of src/fedroute.rs leaves the best entry in the table, and has nothing left to do.
use brew_server.Common.{
  ℕ, ◌≡◌, ◌≢◌, refl, ◌∙◌, true, false, Option, none, some, List, [], ◌∷◌, arith, if◌then◌else◌,
  nat_eq, nat_beq_iff, list_beq_iff, Map, lookup, lookup-insert, lookup-remove, contains,
  contains_key, Option-cases, inl, inr,
}
use brew_server.State.{ClientId, Subscriber, Inner, Advert}
use brew_server.Fedroute.Select.{Choice, local, remote, unreachable, select}
use brew_server.Fedroute.Table.{
  within, same, put_entry, set_effective, reroute, best_entry, chosen, local_of, reg_of, offered,
}

contains-cons : (x : ℕ) (xs : List ℕ) (y : ℕ) → contains xs y ≡ true → contains (x ∷ xs) y ≡ true
unfolding contains
contains-cons x xs y h = ground arith

within-cons : (x : ℕ) (xs ys : List ℕ) → within xs ys ≡ true → within xs (x ∷ ys) ≡ true
unfolding within
within-cons x [] ys h = refl
within-cons x (z ∷ zs) ys h = ground (arith, contains-cons x ys z, within-cons x zs ys)

within_refl : (xs : List ℕ) → within xs xs ≡ true
unfolding within contains
within_refl [] = refl
within_refl (x ∷ xs) = ground (arith, within-cons x xs xs (within_refl xs), nat_beq_iff x x)

pub same_refl : (s : Option Subscriber) → same s s ≡ true
unfolding same
same_refl none = refl
same_refl (some s) = ground (
  arith,
  within_refl s.groups,
  nat_beq_iff s.client_id s.client_id,
  nat_beq_iff s.route.reg s.route.reg,
  list_beq_iff s.route.path s.route.path,
)

lookup-put_entry :
    (issi j : ℕ) (new : Option Subscriber) (subs : Map ℕ Subscriber)
    → lookup j (put_entry issi new subs) ≡ (if nat_eq.test issi j then new else lookup j subs)
lookup-put_entry issi j none subs = lookup-remove issi j subs
lookup-put_entry issi j (some n) subs = lookup-insert issi j n subs

-- `set_effective` writes the one entry and no other, and leaves the federation state alone.
pub lookup-set_effective :
    (inner : Inner) (issi j : ℕ) (new : Option Subscriber)
    → (lookup j (set_effective inner issi new).subscribers
        ≡ (if nat_eq.test issi j then new else lookup j inner.subscribers))
      × ((set_effective inner issi new).fed ≡ inner.fed)
unfolding set_effective
lookup-set_effective inner issi j new = (lookup-put_entry issi j new inner.subscribers, refl)

-- The offers for an ISSI come over negotiated links.
abbrev pub Linked : Inner → ℕ → Type 0
Linked inner issi =
    (offers : Map ClientId Advert) (link : ClientId)
    → lookup issi inner.fed.rib_in ≡ some offers
    → contains_key link offers ≡ true
    → contains_key link inner.fed.links ≡ true

-- Without the local registration, an offer that won still wins, and nothing becomes reachable.
select_without_local :
    (self_id : ℕ) (own : Option ℕ) (links : Map ClientId ℕ) (cands : Option (Map ClientId Advert))
    → select self_id own links cands ≢ local
    → select self_id none links cands ≡ select self_id own links cands
unfolding select
select_without_local self_id none links cands n = refl
select_without_local self_id (some own) links cands n = ground arith

local_of-local_of :
    (links : Map ClientId ℕ) (s : Option Subscriber)
    → local_of links (local_of links s) ≡ local_of links s
local_of-local_of links none = refl
local_of-local_of links (some s) = ground arith

-- An entry taken from an offer is not local.
local_of-offered :
    (links : Map ClientId ℕ) (cands : Option (Map ClientId Advert)) (link : ClientId)
    → ((c : Map ClientId Advert)
        → cands ≡ some c
        → contains_key link c ≡ true
        → contains_key link links ≡ true)
    → local_of links (offered cands link) ≡ none
local_of-offered links none link l = refl
local_of-offered links (some c) link l = elim (Option-cases (lookup link c)) [
  | inl n ↦ ground arith
  | inr (a, e) ↦ let linked = l c refl (ground arith) in ground arith
]

-- The best entry, from the entry in the table and the offers.
unfoldable pub best_of :
    ℕ → Map ClientId ℕ → Option Subscriber → Option (Map ClientId Advert) → Option Subscriber
best_of self_id links current cands =
    chosen (select self_id (reg_of (local_of links current)) links cands) (local_of links current)
      cands

best_of-best_of :
    (self_id : ℕ) (links : Map ClientId ℕ) (current : Option Subscriber)
    (cands : Option (Map ClientId Advert))
    → ((c : Map ClientId Advert) (link : ClientId)
        → cands ≡ some c
        → contains_key link c ≡ true
        → contains_key link links ≡ true)
    → best_of self_id links (best_of self_id links current cands) cands
      ≡ best_of self_id links current cands
unfolding best_of chosen
best_of-best_of self_id links current cands l = go (select self_id (reg_of own) links cands) refl
  where
    own : Option Subscriber
    own = local_of links current

    go :
        (c : Choice)
        → select self_id (reg_of own) links cands ≡ c
        → best_of self_id links (best_of self_id links current cands) cands
          ≡ best_of self_id links current cands
    go local e = ground (arith, local_of-local_of links current)
    go (remote link) e = ground (
      arith,
      select_without_local self_id (reg_of own) links cands,
      local_of-offered links cands link (λ c. l c link),
    )
    go unreachable e = ground (arith, select_without_local self_id (reg_of own) links cands)

pub best_entry-best_of :
    (inner : Inner) (issi : ℕ)
    → best_entry inner issi
      ≡ best_of inner.fed.self_id inner.fed.links
          (lookup issi inner.subscribers)
          (lookup issi inner.fed.rib_in)
unfolding best_entry best_of
best_entry-best_of inner issi = refl

-- The table is settled for an ISSI: its entry is the best one.
abbrev pub Settled : Inner → ℕ → Type 0
Settled inner issi = same (lookup issi inner.subscribers) (best_entry inner issi) ≡ true

set_effective-Settled :
    (inner : Inner) (issi : ℕ)
    → Linked inner issi
    → Settled (set_effective inner issi (best_entry inner issi)) issi
set_effective-Settled inner issi l =
    let best = best_entry inner issi in
    let after = set_effective inner issi best in
    let entry : lookup issi after.subscribers ≡ best =
      ground (arith, lookup-set_effective inner issi issi best, nat_beq_iff issi issi) in
    let again : best_entry after issi ≡ best =
      best_entry-best_of after issi
      ∙ (rw (entry, (lookup-set_effective inner issi issi best).1)
          (rw (best_entry-best_of inner issi) (
            best_of-best_of inner.fed.self_id inner.fed.links (lookup issi inner.subscribers)
              (lookup issi inner.fed.rib_in) (λ c link p q. l c link p q)))) in
    rw (entry, again) (same_refl best)

-- After `reroute` the entry of the ISSI is the best one, and to run it again changes nothing, given
-- that offers are held for negotiated links only.
pub reroute_settles :
    (inner : Inner) (issi : ℕ)
    → Linked inner issi
    → Settled (reroute inner issi).0 issi
      × ((reroute (reroute inner issi).0 issi) ≡ ((reroute inner issi).0, false))
unfolding reroute
reroute_settles inner issi l = ground (arith, set_effective-Settled inner issi l)
