-- ===== src/Router/Floor.antt =====
-- The floors of the groups (src/router.rs): who holds them, and what set-ups and ends do to them.
pub mod Handlers
pub mod Parties
pub mod Frames
pub mod Gone
pub mod Bridged
pub mod Spec
pub mod Tables
pub mod Packets
pub mod Reach
use brew_server.Common.{
  ℕ, ◌≡◌, ◌≢◌, ◌⊎◌, refl, sym, ap, ◌∙◌, Bool, true, false, inl, inr, Bool-cases, Option-cases, ◌&&◌,
  Option, none, some, List, [], ◌∷◌, arith, if◌then◌else◌, ◌==◌, nat_eq, nat_beq_iff, list_eq,
  option_eq, option_beq_iff, list_beq_iff, eq_self, Map, lookup, insert, remove, lookup-remove,
  lookup-insert, Uniq, insert-Uniq, remove-Uniq, contains, discard, contains-discard,
}
use brew_server.State.{ClientId, CallId, Inner, ActiveCall, is_group, group, Send}
use brew_server.Protocol.Parse.{
  GroupTransmission, CallPayload, group_transmission, circular_call, cause, empty, short_transfer,
  raw_payload,
}
use brew_server.Router.{Config, Env}
use brew_server.Router.Group.{
  Floor, free, occupied, preempts, floor_for, release, start_call, admit, compete, held_back,
  copied, group_tx, handle_group_tx, targets,
}
use brew_server.Router.Calls.{may_end, end_call, touch}

-- With one call per group: a running group call holds the floor of its group.
abbrev pub Holds : Map CallId ActiveCall → Map ℕ CallId → Type 0
Holds calls floor =
    (id : CallId) (c : ActiveCall)
    → lookup id calls ≡ some c
    → is_group c.kind ≡ true
    → lookup c.destination floor ≡ some id

-- No other call runs in the group.
abbrev pub Clear : Map CallId ActiveCall → CallId → ℕ → Type 0
Clear calls id g =
    (u : CallId) (c : ActiveCall)
    → lookup u calls ≡ some c
    → is_group c.kind ≡ true
    → c.destination ≡ g
    → u ≡ id

pub free-Clear :
    (config : Config) (inner : Inner) (id : CallId) (gt : GroupTransmission)
    → config.allow_multiple_calls_per_group ≡ false
    → Holds inner.calls inner.group_floor
    → floor_for config inner id gt ≡ free
    → Clear inner.calls id gt.destination
unfolding floor_for
free-Clear config inner id gt one h f u c e g d =
    let held : lookup gt.destination inner.group_floor ≡ some u = rw (← d) (h u c e g) in
    ground (arith, list_beq_iff u id)

pub insert-Holds :
    (calls : Map CallId ActiveCall) (floor : Map ℕ CallId) (id : CallId) (call : ActiveCall)
    → Holds calls floor
    → Clear calls id call.destination
    → Holds (insert id call calls) (insert call.destination id floor)
insert-Holds calls floor id call h cl u c e g = ground (
  arith,
  lookup-insert id u call calls,
  list_beq_iff id u,
  lookup-insert call.destination c.destination id floor,
  nat_beq_iff call.destination c.destination,
  h u c,
  cl u c,
)

pub remove-Holds :
    (calls : Map CallId ActiveCall) (floor : Map ℕ CallId) (id : CallId)
    → Holds calls floor
    → Holds (remove id calls) floor
remove-Holds calls floor id h u c e g =
    ground (arith, lookup-remove id u calls, list_beq_iff id u, h u c)

-- A call written over by one of the same kind, group and owner.
replaced-Holds :
    (calls : Map CallId ActiveCall) (floor : Map ℕ CallId) (id : CallId) (old call : ActiveCall)
    → lookup id calls ≡ some old
    → call.kind ≡ old.kind
    → call.destination ≡ old.destination
    → Holds calls floor
    → Holds (insert id call calls) floor
replaced-Holds calls floor id old call e k d h u c f g =
    ground (arith, lookup-insert id u call calls, list_beq_iff id u, h u c, h id old)

-- A pre-empted call leaves the group clear.
pub preempts-Clear :
    (config : Config) (inner : Inner) (id existing : CallId) (gt : GroupTransmission)
    (call : ActiveCall)
    → Holds inner.calls inner.group_floor
    → floor_for config inner id gt ≡ preempts existing call
    → Clear (remove existing inner.calls) id gt.destination
unfolding floor_for
preempts-Clear config inner id existing gt call h f u c e g d =
    let there : lookup u inner.calls ≡ some c =
      ground (arith, lookup-remove existing u inner.calls, list_beq_iff existing u) in
    let held : lookup gt.destination inner.group_floor ≡ some u = rw (← d) (h u c there g) in
    ground (arith, lookup-remove existing u inner.calls, list_beq_iff existing u)

-- No call counts its owner among its peers.
abbrev pub Apart : Map CallId ActiveCall → Type 0
Apart calls =
    (id : CallId) (c : ActiveCall) → lookup id calls ≡ some c → contains c.peers c.owner ≡ false

-- What holds of the calls and the floors between two events.
pub record CallsInv (inner : Inner) : Type 0 where
  pub unique : Uniq inner.calls
  pub holds : Holds inner.calls inner.group_floor
  pub apart : Apart inner.calls

pub insert-Apart :
    (calls : Map CallId ActiveCall) (id : CallId) (call : ActiveCall)
    → Apart calls
    → contains call.peers call.owner ≡ false
    → Apart (insert id call calls)
insert-Apart calls id call a n u c e = ground (arith, lookup-insert id u call calls, a u c)

pub remove-Apart :
    (calls : Map CallId ActiveCall) (id : CallId) → Apart calls → Apart (remove id calls)
remove-Apart calls id a u c e = ground (arith, lookup-remove id u calls, a u c)

pub remove-CallsInv :
    (inner : Inner) (id : CallId)
    → CallsInv inner
    → CallsInv (record inner { calls = remove id inner.calls })
remove-CallsInv inner id v = record {
  unique = remove-Uniq id inner.calls v.unique;
  holds = remove-Holds inner.calls inner.group_floor id v.holds;
  apart = remove-Apart inner.calls id v.apart;
}

pub replaced-CallsInv :
    (inner : Inner) (id : CallId) (old call : ActiveCall)
    → lookup id inner.calls ≡ some old
    → call.kind ≡ old.kind
    → call.destination ≡ old.destination
    → contains call.peers call.owner ≡ false
    → CallsInv inner
    → CallsInv (record inner { calls = insert id call inner.calls })
replaced-CallsInv inner id old call e k d n v = record {
  unique = insert-Uniq id call inner.calls v.unique;
  holds = replaced-Holds inner.calls inner.group_floor id old call e k d v.holds;
  apart = insert-Apart inner.calls id call v.apart n;
}

pub reinserted-CallsInv :
    (inner : Inner) (id : CallId) (call : ActiveCall)
    → lookup id inner.calls ≡ some call
    → CallsInv inner
    → CallsInv (record inner { calls = insert id call (remove id inner.calls) })
reinserted-CallsInv inner id call e v =
    let rest = remove id inner.calls in
    record {
      unique = insert-Uniq id call rest (remove-Uniq id inner.calls v.unique);
      holds = λ u c f g. ground (
        arith,
        lookup-insert id u call rest,
        lookup-remove id u inner.calls,
        list_beq_iff id u,
        v.holds u c,
        v.holds id call,
      );
      apart = λ u c f. ground (
        arith,
        lookup-insert id u call rest,
        lookup-remove id u inner.calls,
        v.apart u c,
        v.apart id call,
      );
    }

pub discard_self : (c : ClientId) (xs : List ClientId) → contains (discard c xs) c ≡ false
discard_self c xs = ground (arith, contains-discard c c xs, nat_beq_iff c c)
