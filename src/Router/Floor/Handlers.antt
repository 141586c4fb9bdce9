-- ===== src/Router/Floor/Handlers.antt =====
-- Every handler of a call keeps the calls and floors right (src/router.rs).
use brew_server.Common.{
  ℕ, ◌≡◌, ◌⊎◌, refl, false, inl, inr, Bool-cases, Option-cases, ◌&&◌, some, List, [], ◌∷◌, arith,
  if◌then◌else◌, ◌==◌, nat_eq, nat_beq_iff, list_eq, option_eq, option_beq_iff, list_beq_iff, Map,
  lookup, remove, lookup-remove, insert-Uniq, remove-Uniq,
}
use brew_server.State.{ClientId, CallId, Inner, ActiveCall, is_group, Send}
use brew_server.Protocol.Parse.{
  GroupTransmission, CallPayload, group_transmission, circular_call, cause, empty, short_transfer,
  raw_payload,
}
use brew_server.Router.{Env}
use brew_server.Router.Group.{
  Floor, free, occupied, preempts, floor_for, release, start_call, admit, compete, held_back,
  copied, group_tx, handle_group_tx, targets,
}
use brew_server.Router.Calls.{may_end, end_call}
use brew_server.Router.Floor.{
  Holds, Clear, CallsInv, free-Clear, insert-Holds, preempts-Clear, insert-Apart, remove-Apart,
  remove-CallsInv, reinserted-CallsInv, discard_self,
}

admit-CallsInv :
    (env : Env) (inner : Inner) (source : ClientId) (id : CallId) (gt : GroupTransmission)
    (raw : List ℕ) (releases : List Send) (ended : List CallId)
    → Clear inner.calls id gt.destination
    → CallsInv inner
    → CallsInv (admit env inner source id gt raw releases ended).inner
unfolding admit start_call targets
admit-CallsInv env inner source id gt raw releases ended cl v = record {
  unique = insert-Uniq id _ inner.calls v.unique;
  holds = insert-Holds inner.calls inner.group_floor id _ v.holds cl;
  apart = insert-Apart inner.calls id _ v.apart (discard_self source _);
}

pub Floor-cases :
    (f : Floor)
    → (f ≡ free) ⊎ (f ≡ occupied) ⊎ ((u : CallId) × (c : ActiveCall) × (f ≡ preempts u c))
Floor-cases free = inl refl
Floor-cases occupied = inr (inl refl)
Floor-cases (preempts u c) = inr (inr (u, c, refl))

compete-CallsInv :
    (env : Env) (inner : Inner) (source : ClientId) (id : CallId) (gt : GroupTransmission)
    (raw : List ℕ)
    → env.config.allow_multiple_calls_per_group ≡ false
    → CallsInv inner
    → CallsInv (compete env inner source id gt raw).inner
unfolding compete
compete-CallsInv env inner source id gt raw one v =
    elim (Floor-cases (floor_for env.config inner id gt)) [
      | inl f ↦
          rw (f, compete)
            (admit-CallsInv env inner source id gt raw [] []
              (free-Clear env.config inner id gt one v.holds f) v)
      | inr (inl f) ↦ rw (f, compete) v
      | inr (inr (u, c, f)) ↦
          rw (f, compete)
            (admit-CallsInv env (record inner { calls = remove u inner.calls }) source id gt raw
              (release env.config inner u c) (u ∷ [])
              (preempts-Clear env.config inner id u gt c v.holds f) (remove-CallsInv inner u v))
    ]

group_tx-CallsInv :
    (env : Env) (inner : Inner) (source : ClientId) (id : CallId) (gt : GroupTransmission)
    (raw : List ℕ)
    → env.config.allow_multiple_calls_per_group ≡ false
    → CallsInv inner
    → CallsInv (group_tx env inner source id gt raw).inner
unfolding group_tx
group_tx-CallsInv env inner source id gt raw one v = elim (Bool-cases (held_back env gt)) [
  | inl b ↦ rw (b, group_tx) v
  | inr n ↦ elim (Bool-cases (copied env inner source id gt.source)) [
    | inl c ↦ rw (n, c, group_tx) v
    | inr o ↦ rw (n, o, group_tx) (compete-CallsInv env inner source id gt raw one v)
  ]
]

-- A set-up of a group call keeps the calls and floors right.
pub handle_group_tx-CallsInv :
    (env : Env) (inner : Inner) (source : ClientId) (id : CallId) (payload : CallPayload)
    (raw : List ℕ)
    → env.config.allow_multiple_calls_per_group ≡ false
    → CallsInv inner
    → CallsInv (handle_group_tx env inner source id payload raw).inner
unfolding handle_group_tx
handle_group_tx-CallsInv env inner source id (group_transmission gt) raw one v =
    group_tx-CallsInv env inner source id gt raw one v
handle_group_tx-CallsInv env inner source id (circular_call c) raw one v = v
handle_group_tx-CallsInv env inner source id (cause c) raw one v = v
handle_group_tx-CallsInv env inner source id empty raw one v = v
handle_group_tx-CallsInv env inner source id (short_transfer s d) raw one v = v
handle_group_tx-CallsInv env inner source id (raw_payload b) raw one v = v

-- The floors after a call with the id ended.
abbrev pub floor_after : CallId → ActiveCall → Map ℕ CallId → Map ℕ CallId
floor_after id call floor =
    if is_group call.kind && lookup call.destination floor == some id
    then remove call.destination floor
    else floor

ended-Holds :
    (calls : Map CallId ActiveCall) (floor : Map ℕ CallId) (id : CallId) (call : ActiveCall)
    → Holds calls floor
    → Holds (remove id calls) (floor_after id call floor)
ended-Holds calls floor id call h u c e g = ground (
  arith,
  lookup-remove id u calls,
  list_beq_iff id u,
  lookup-remove call.destination c.destination floor,
  nat_beq_iff call.destination c.destination,
  option_beq_iff (lookup call.destination floor) (some id),
  h u c,
)

-- So does the end of a call.
pub end_call-CallsInv :
    (env : Env) (inner : Inner) (source : ClientId) (id : CallId) (raw : List ℕ)
    → CallsInv inner
    → CallsInv (end_call env inner source id raw).inner
unfolding end_call
end_call-CallsInv env inner source id raw v = elim (Option-cases (lookup id inner.calls)) [
  | inl n ↦ rw (n, end_call) v
  | inr (call, e) ↦ elim (Bool-cases (may_end source call)) [
    | inl m ↦
        rw (e, m, end_call)
          (record {
            unique = remove-Uniq id inner.calls v.unique;
            holds = ended-Holds inner.calls inner.group_floor id call v.holds;
            apart = remove-Apart inner.calls id v.apart;
          })
    | inr n ↦ rw (e, n, end_call) (reinserted-CallsInv inner id call e v)
  ]
]
