-- ===== src/Router/Floor/Spec.antt =====
-- Floor control as an abstract machine: for each group, who holds the floor. The set-up and the
-- end of a call (src/router.rs, `handle_group_tx` and `end_call`) implement it.
pub mod Request
pub mod Release
use brew_server.Common.{
  ℕ, ◌≡◌, ◌≢◌, refl, Bool, true, false, inl, inr, Bool-cases, Option-cases, not, ◌&&◌, ◌||◌, Option,
  none, some, List, [], ◌∷◌, arith, if◌then◌else◌, ◌==◌, nat_eq, nat_beq_iff, list_eq, list_beq_iff,
  option_eq, option_beq_iff, Map, lookup, insert, remove, lookup-insert, lookup-remove,
}
use brew_server.State.{ClientId, CallId, Inner, ActiveCall, is_group, Send}
use brew_server.Protocol.Parse.{GroupTransmission}
use brew_server.Connections.Floors.{HoldsOwn}
use brew_server.Fedroute.Dedup.{note_call}
use brew_server.Router.{Config, Env, is_emergency_call}
use brew_server.Router.Group.{
  Floor, free, occupied, preempts, wins, floor_for, release, start_call, raised_priority, admit,
  compete, held_back, copied, group_tx,
}
use brew_server.Router.Calls.{may_end, end_call}
use brew_server.Router.Floor.Handlers.{Floor-cases, floor_after}

-- Who holds the floor of a group, and at what priority.
pub record Holder : Type 0 where
  pub call : CallId
  pub talker : ClientId
  pub priority : ℕ

abbrev pub Floors : Type 0
Floors = ℕ → Option Holder

-- A running call as the holder of the group.
abbrev pub holder_of : CallId → ℕ → Option ActiveCall → Option Holder
holder_of id g none = none
holder_of id g (some c) =
    if is_group c.kind && c.destination == g
    then some (record { call = id; talker = c.owner; priority = c.priority })
    else none

abbrev pub held_by : Map CallId ActiveCall → ℕ → Option CallId → Option Holder
held_by calls g none = none
held_by calls g (some id) = holder_of id g (lookup id calls)

-- The abstract state that the tables stand for.
unfoldable pub floors_of : Inner → Floors
floors_of inner g = held_by inner.calls g (lookup g inner.group_floor)

-- The floor is given to whoever holds it already, to anyone if it is free, and to a higher priority.
abbrev pub grants : Config → CallId → ℕ → Option Holder → Bool
grants config id priority none = true
grants config id priority (some h) = h.call == id || wins config priority h.priority

-- A call that takes another group's floor lets its own go.
abbrev pub let_go : CallId → Option Holder → Option Holder
let_go id none = none
let_go id (some h) = if h.call == id then none else some h

-- A request for the floor of `g` at the priority `asked`; it is held at the priority `kept`.
abbrev pub request : Config → CallId → ClientId → ℕ → ℕ → ℕ → Floors → Floors
request config id talker g asked kept f h =
    if grants config id asked (f g)
    then if g == h
      then some (record { call = id; talker = talker; priority = kept })
      else let_go id (f h)
    else f h

-- The talker, and nobody else, gives the floor back.
abbrev pub give_back : CallId → ClientId → Floors → Floors
give_back id by f h = elim (f h) [
  | none ↦ none
  | some k ↦ if k.call == id && k.talker == by then none else some k
]

-- A floor held by a running call is that of the call's group.
abbrev pub Own : Inner → Type 0
Own inner =
    (u : CallId) (c : ActiveCall)
    → lookup u inner.calls ≡ some c
    → HoldsOwn inner.group_floor (u, c)
