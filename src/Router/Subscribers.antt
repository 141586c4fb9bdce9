-- ===== src/Router/Subscribers.antt =====
-- Registrations and group affiliations over Brew (src/router.rs, `handle_subscriber`).
pub mod Local
pub mod Keeps
use brew_server.Common.{
  ℕ, Bool, true, false, not, ◌&&◌, ◌||◌, Option, none, some, List, [], ◌∷◌, ◌++◌, if◌then◌else◌,
  nat_beq, ◌==◌, nat_eq, Map, lookup, contains, contains_key, add, discard,
}
use brew_server.State.{ClientId, Inner, Subscriber, basestation, ClientMode}
use brew_server.Protocol.{
  sub_register, sub_reregister, sub_deregister, sub_affiliate, sub_deaffiliate,
}
use brew_server.Protocol.Parse.{SubscriberMessage}
use brew_server.Fedroute.Clock.{tick}
use brew_server.Fedroute.Handle.{Outcome, quiet}
use brew_server.Fedroute.Publish.{publish}
use brew_server.Fedroute.Table.{reroute, set_effective}
use brew_server.Router.LateEntry.{late_entry}

-- The mode of the connection, the default for one that is not there.
unfoldable pub mode_of : Inner → ClientId → ClientMode
mode_of inner source = elim (lookup source inner.clients) [ none ↦ basestation | some c ↦ c.mode ]

-- A registration here, stamped with the next time of this server's clock.
unfoldable pub local_entry : Inner → ClientId → List ℕ → ℕ → Inner × Subscriber
unfolding tick mode_of
local_entry inner source groups now =
    let fed = tick inner.fed now in
    (
      record inner { fed = fed },
      record {
        client_id = source;
        groups = groups;
        mode = mode_of inner source;
        route = record { reg = fed.clock; path = [] };
      },
    )

abbrev pub groups_of : Option Subscriber → List ℕ
groups_of none = []
groups_of (some o) = o.groups

-- The loops over the message's groups.
unfoldable pub affiliated : List ℕ → List ℕ → List ℕ
affiliated groups [] = groups
affiliated groups (g ∷ gs) = affiliated (add g groups) gs

unfoldable pub deaffiliated : List ℕ → List ℕ → List ℕ
deaffiliated groups [] = groups
deaffiliated groups (g ∷ gs) = deaffiliated (discard g groups) gs

-- What a message makes of the entry: nothing, or the new entry (`none`: it goes).
pub data Change : Type 0 where
  refused : Change
  becomes : Inner → Option Subscriber → Change

abbrev pub is_register : ℕ → Bool
is_register t = nat_beq t sub_register || nat_beq t sub_reregister

abbrev registers : Inner × Subscriber → Change
registers (inner, sub) = becomes inner (some sub)

abbrev joins_groups : List ℕ → Inner × Subscriber → Change
joins_groups gs (inner, sub) =
    becomes inner (some (record sub { groups = affiliated sub.groups gs }))

-- The match on the message type.
unfoldable pub change_of : Inner → ClientId → SubscriberMessage → ℕ → Change
unfolding local_entry affiliated deaffiliated
change_of inner source msg now =
    let old = lookup msg.issi inner.subscribers in
    if is_register msg.msg_type
    then registers (local_entry inner source (groups_of old) now)
    else if nat_beq msg.msg_type sub_deregister
    then elim old [
      | none ↦ refused
      | some o ↦ if o.client_id == source then becomes inner none else refused
    ]
    else if nat_beq msg.msg_type sub_affiliate
    then elim old [
      | none ↦ joins_groups msg.groups (local_entry inner source [] now)
      | some o ↦ if o.client_id == source then joins_groups msg.groups (inner, o) else refused
    ]
    else if nat_beq msg.msg_type sub_deaffiliate
    then elim old [
      | none ↦ refused
      | some o ↦
          if o.client_id == source
          then becomes inner (some (record o { groups = deaffiliated o.groups msg.groups }))
          else refused
    ]
    else refused

-- The groups that the connection may have joined.
unfoldable pub joined : Inner → ClientId → SubscriberMessage → List ℕ
joined inner source msg =
    if is_register msg.msg_type || nat_beq msg.msg_type sub_affiliate
    then elim (lookup msg.issi inner.subscribers) [
      | none ↦ []
      | some s ↦ if s.client_id == source then s.groups else []
    ]
    else []

-- The table after the change: a deregistered ISSI may be offered by a peer.
unfoldable pub apply_change : Inner → ℕ → Option Subscriber → Inner
apply_change inner issi new =
    let stored = set_effective inner issi new in
    elim new [ none ↦ (reroute stored issi).0 | some s ↦ stored ]

-- From the change of the entry on: the peers are told, and running calls are joined.
unfoldable pub settle_change :
    Inner → ClientId → SubscriberMessage → Option Subscriber → Option Subscriber → Outcome
unfolding apply_change joined
settle_change inner source msg old new =
    let after = apply_change inner msg.issi new in
    let (told, registered) = publish after msg.issi old in
    let (entered, headers) = late_entry after source (joined after source msg) in
    record {
      inner = entered;
      sends = told ++ headers;
      registered = if registered then some msg.issi else none;
    }

-- What follows from the change.
unfoldable pub follow_change :
    Inner → ClientId → SubscriberMessage → Option Subscriber → Change → Outcome
unfolding settle_change
follow_change inner source msg old refused = quiet inner
follow_change inner source msg old (becomes stamped new) = settle_change stamped source msg old new

unfoldable pub handle_subscriber : Inner → ClientId → SubscriberMessage → ℕ → Outcome
unfolding change_of follow_change
handle_subscriber inner source msg now =
    if contains_key source inner.fed.links
    then quiet inner
    else follow_change inner source msg (lookup msg.issi inner.subscribers)
        (change_of inner source msg now)
