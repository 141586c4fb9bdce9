-- ===== src/Router/Subscribers/Keeps.antt =====
-- Registrations and affiliations keep the federation state right (src/router.rs,
-- `handle_subscriber`).
use brew_server.Common.{
  ℕ, ◌<◌, ◌≡◌, refl, true, false, inl, inr, Bool-cases, Option-cases, Option, none, some, List, [],
  arith, nat_beq, nat_eq, nat_beq_iff, list_eq, lookup, contains_key,
}
use brew_server.State.{ClientId, Inner, FedState, Subscriber}
use brew_server.Protocol.{sub_deregister, sub_affiliate, sub_deaffiliate}
use brew_server.Protocol.Parse.{SubscriberMessage}
use brew_server.Fedroute.Clock.{tick, u64_max}
use brew_server.Fedroute.Select.{local, select}
use brew_server.Fedroute.Handle.Invariant.{FedInv, GoodRib-Linked}
use brew_server.Fedroute.Handle.Keeps.{SameRoutes, SameRoutes-FedInv}
use brew_server.Fedroute.Handle.Below.{Below, newest_is_local}
use brew_server.Router.LateEntry.{late_entry}
use brew_server.Router.Subscribers.{
  Change, refused, becomes, local_entry, groups_of, change_of, joined, apply_change, settle_change,
  follow_change, handle_subscriber, is_register,
}
use brew_server.Router.Subscribers.Local.{
  best-local, Stamped, Stamped-FedInv, store-local, drop-reroute,
}

-- The clock of a registration here is above all the offers.
tick-above : (fed : FedState) (now : ℕ) → fed.clock < u64_max → fed.clock < (tick fed now).clock
unfolding tick
tick-above fed now h = omega arith

local_entry-Stamped :
    (inner : Inner) (source : ClientId) (groups : List ℕ) (now : ℕ)
    → Stamped inner (local_entry inner source groups now).0
unfolding local_entry tick
local_entry-Stamped inner source groups now = record {
  self_id = refl;
  links = refl;
  rib_in = refl;
  subscribers = refl;
  group_clients = refl;
}

-- What a change of the entry to an entry of this server promises.
record IsLocal (inner stamped : Inner) (issi : ℕ) (s : Subscriber) : Type 0 where
  stamp : Stamped inner stamped
  own : contains_key s.client_id inner.fed.links ≡ false
  chosen :
      select inner.fed.self_id (some s.route.reg) inner.fed.links (lookup issi inner.fed.rib_in)
      ≡ local

registers-IsLocal :
    (inner : Inner) (source : ClientId) (groups more : List ℕ) (issi now : ℕ)
    → contains_key source inner.fed.links ≡ false
    → Below inner
    → inner.fed.clock < u64_max
    → IsLocal inner
        (local_entry inner source groups now).0
        issi
        (record (local_entry inner source groups now).1 { groups = more })
unfolding local_entry
registers-IsLocal inner source groups more issi now n b room = record {
  stamp = local_entry-Stamped inner source groups now;
  own = n;
  chosen =
      newest_is_local inner.fed.self_id (tick inner.fed now).clock inner.fed.clock inner.fed.links
        issi inner.fed.rib_in b.rib (tick-above inner.fed now room);
}

keeps-IsLocal :
    (inner : Inner) (source : ClientId) (issi : ℕ) (o : Subscriber) (more : List ℕ)
    → contains_key source inner.fed.links ≡ false
    → lookup issi inner.subscribers ≡ some o
    → nat_eq.test o.client_id source ≡ true
    → FedInv inner
    → IsLocal inner inner issi (record o { groups = more })
keeps-IsLocal inner source issi o more n e c v =
    let own : contains_key o.client_id inner.fed.links ≡ false =
      rw ((nat_beq_iff o.client_id source).0 c) n in
    record {
      stamp = record {
        self_id = refl;
        links = refl;
        rib_in = refl;
        subscribers = refl;
        group_clients = refl;
      };
      own = own;
      chosen = best-local inner issi o (GoodRib-Linked inner v.rib issi) own e (v.settled issi);
    }

-- What a message makes of the entry is nothing, no entry, or an entry of this server.
data Changed (inner : Inner) (issi : ℕ) : Change → Type 0 where
  nothing : Changed inner issi refused
  goes : Changed inner issi (becomes inner none)
  stays :
      {stamped : Inner} {s : Subscriber}
      → IsLocal inner stamped issi s
      → Changed inner issi (becomes stamped (some s))

change_of-Changed :
    (inner : Inner) (source : ClientId) (msg : SubscriberMessage) (now : ℕ)
    → contains_key source inner.fed.links ≡ false
    → Below inner
    → inner.fed.clock < u64_max
    → FedInv inner
    → Changed inner msg.issi (change_of inner source msg now)
unfolding change_of
change_of-Changed inner source msg now n b room v = elim (Bool-cases (is_register msg.msg_type)) [
  | inl r ↦
      let groups = groups_of (lookup msg.issi inner.subscribers) in
      rw (r, change_of) (stays (registers-IsLocal inner source groups groups msg.issi now n b room))
  | inr r ↦ elim (Bool-cases (nat_beq msg.msg_type sub_deregister)) [
    | inl d ↦ elim (Option-cases (lookup msg.issi inner.subscribers)) [
      | inl m ↦ rw (r, d, m, change_of) nothing
      | inr (o, e) ↦ elim (Bool-cases (nat_eq.test o.client_id source)) [
        | inl c ↦ rw (r, d, e, c, change_of) goes
        | inr c ↦ rw (r, d, e, c, change_of) nothing
      ]
    ]
    | inr d ↦ elim (Bool-cases (nat_beq msg.msg_type sub_affiliate)) [
      | inl a ↦ elim (Option-cases (lookup msg.issi inner.subscribers)) [
        | inl m ↦
            rw (r, d, a, m, change_of)
              (stays (registers-IsLocal inner source [] _ msg.issi now n b room))
        | inr (o, e) ↦ elim (Bool-cases (nat_eq.test o.client_id source)) [
          | inl c ↦
              rw (r, d, a, e, c, change_of)
                (stays (keeps-IsLocal inner source msg.issi o _ n e c v))
          | inr c ↦ rw (r, d, a, e, c, change_of) nothing
        ]
      ]
      | inr a ↦ elim (Bool-cases (nat_beq msg.msg_type sub_deaffiliate)) [
        | inl f ↦ elim (Option-cases (lookup msg.issi inner.subscribers)) [
          | inl m ↦ rw (r, d, a, f, m, change_of) nothing
          | inr (o, e) ↦ elim (Bool-cases (nat_eq.test o.client_id source)) [
            | inl c ↦
                rw (r, d, a, f, e, c, change_of)
                  (stays (keeps-IsLocal inner source msg.issi o _ n e c v))
            | inr c ↦ rw (r, d, a, f, e, c, change_of) nothing
          ]
        ]
        | inr f ↦ rw (r, d, a, f, change_of) nothing
      ]
    ]
  ]
]

apply_change-FedInv :
    (inner : Inner) (issi : ℕ) (s : Subscriber) (stamped : Inner)
    → IsLocal inner stamped issi s
    → FedInv inner
    → FedInv (apply_change stamped issi (some s))
unfolding apply_change
apply_change-FedInv inner issi s stamped k v =
    let f = k.stamp in
    store-local stamped issi s (rw f.links k.own) (rw (f.self_id, f.links, f.rib_in) k.chosen)
      (Stamped-FedInv inner stamped f v)

late_entry-SameRoutes :
    (inner : Inner) (client : ClientId) (groups : List ℕ)
    → SameRoutes inner (late_entry inner client groups).0
unfolding late_entry
late_entry-SameRoutes inner client groups = record {
  self_id = ground arith;
  links = ground arith;
  rib_in = ground arith;
  subscribers = ground arith;
  group_clients = ground arith;
}

settle_change-FedInv :
    (stamped : Inner) (source : ClientId) (msg : SubscriberMessage) (old new : Option Subscriber)
    → FedInv (apply_change stamped msg.issi new)
    → FedInv (settle_change stamped source msg old new).inner
unfolding settle_change
settle_change-FedInv stamped source msg old new v =
    let after = apply_change stamped msg.issi new in
    SameRoutes-FedInv after _ (late_entry-SameRoutes after source (joined after source msg)) v

changed-FedInv :
    (inner : Inner) (source : ClientId) (msg : SubscriberMessage) (c : Change)
    (old : Option Subscriber)
    → Changed inner msg.issi c
    → FedInv inner
    → FedInv (follow_change inner source msg old c).inner
unfolding follow_change apply_change
changed-FedInv inner source msg refused old nothing v = v
changed-FedInv inner source msg (becomes _ none) old goes v =
    settle_change-FedInv inner source msg old none (drop-reroute inner msg.issi v)
changed-FedInv inner source msg (becomes stamped (some s)) old (stays k) v =
    settle_change-FedInv stamped source msg old (some s)
      (apply_change-FedInv inner msg.issi s stamped k v)

-- A registration, deregistration, affiliation or deaffiliation, from whatever connection, keeps the
-- federation state right: the group memberships of every connection, and for every ISSI the entry
-- that is best. This is when no offer held is newer than the clock, and the clock has room.
pub handle_subscriber-FedInv :
    (inner : Inner) (source : ClientId) (msg : SubscriberMessage) (now : ℕ)
    → Below inner
    → inner.fed.clock < u64_max
    → FedInv inner
    → FedInv (handle_subscriber inner source msg now).inner
unfolding handle_subscriber
handle_subscriber-FedInv inner source msg now b room v =
    elim (Bool-cases (contains_key source inner.fed.links)) [
      | inl l ↦ rw (l, handle_subscriber) v
      | inr n ↦
          rw (n, handle_subscriber)
            (changed-FedInv inner source msg (change_of inner source msg now)
              (lookup msg.issi inner.subscribers)
              (change_of-Changed inner source msg now n b room v) v)
    ]
