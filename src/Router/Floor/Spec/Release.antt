-- ===== src/Router/Floor/Spec/Release.antt =====
-- The end of a call implements the return of the floor (src/router.rs, `end_call`).
use brew_server.Common.{
  ℕ, ◌≡◌, refl, false, inl, inr, Bool-cases, Option-cases, ◌&&◌, Option, none, some, List, arith,
  if◌then◌else◌, ◌==◌, nat_eq, nat_beq_iff, list_eq, list_beq_iff, option_eq, option_beq_iff, Map,
  lookup, insert, remove, lookup-insert, lookup-remove,
}
use brew_server.State.{ClientId, CallId, Inner, ActiveCall, is_group}
use brew_server.Fedroute.Dedup.{note_call}
use brew_server.Router.{Env}
use brew_server.Router.Calls.{may_end, end_call}
use brew_server.Router.Floor.Handlers.{floor_after}
use brew_server.Router.Floor.Spec.{held_by, floors_of, let_go, give_back}

ended-held :
    (calls : Map CallId ActiveCall) (floor : Map ℕ CallId) (id : CallId) (call : ActiveCall) (g : ℕ)
    → lookup id calls ≡ some call
    → held_by (remove id calls) g (lookup g (floor_after id call floor))
      ≡ let_go id (held_by calls g (lookup g floor))
ended-held calls floor id call g e = elim (Option-cases (lookup g floor)) [
  | inl n ↦ ground (arith, lookup-remove call.destination g floor)
  | inr (u, f) ↦ elim (Bool-cases (list_eq.test id u)) [
    | inl s ↦ ground (
      arith,
      lookup-remove call.destination g floor,
      lookup-remove id u calls,
      list_beq_iff id u,
      list_beq_iff u id,
    )
    | inr d ↦ elim (Option-cases (lookup u calls)) [
      | inl n ↦ ground (
        arith,
        lookup-remove call.destination g floor,
        lookup-remove id u calls,
        option_beq_iff (lookup call.destination floor) (some id),
        nat_beq_iff call.destination g,
      )
      | inr (c, p) ↦ ground (
        arith,
        lookup-remove call.destination g floor,
        lookup-remove id u calls,
        option_beq_iff (lookup call.destination floor) (some id),
        nat_beq_iff call.destination g,
        list_beq_iff id u,
        list_beq_iff u id,
      )
    ]
  ]
]

unknown_call :
    (inner : Inner) (source : ClientId) (id : CallId) (g : ℕ)
    → lookup id inner.calls ≡ none
    → floors_of inner g ≡ give_back id source (floors_of inner) g
unfolding floors_of
unknown_call inner source id g n = elim (Option-cases (lookup g inner.group_floor)) [
  | inl m ↦ ground arith
  | inr (u, f) ↦ elim (Option-cases (lookup u inner.calls)) [
    | inl m ↦ ground arith
    | inr (c, p) ↦ ground (arith, list_beq_iff u id)
  ]
]

-- Only the talker of a group call holds a floor by it.
held-talker :
    (calls : Map CallId ActiveCall) (floor : Map ℕ CallId) (id : CallId) (call : ActiveCall)
    (source : ClientId) (g : ℕ)
    → lookup id calls ≡ some call
    → (elim (held_by calls g (lookup g floor)) [
      | none ↦ none
      | some k ↦ if k.call == id && k.talker == source then none else some k
    ])
      ≡ (if is_group call.kind && call.owner == source
          then let_go id (held_by calls g (lookup g floor))
          else held_by calls g (lookup g floor))
held-talker calls floor id call source g e = elim (Option-cases (lookup g floor)) [
  | inl n ↦ ground arith
  | inr (u, f) ↦ elim (Option-cases (lookup u calls)) [
    | inl n ↦ ground arith
    | inr (c, p) ↦ ground (arith, list_beq_iff u id)
  ]
]

-- A private call holds no floor.
private_let_go :
    (calls : Map CallId ActiveCall) (floor : Map ℕ CallId) (id : CallId) (call : ActiveCall) (g : ℕ)
    → lookup id calls ≡ some call
    → is_group call.kind ≡ false
    → let_go id (held_by calls g (lookup g floor)) ≡ held_by calls g (lookup g floor)
private_let_go calls floor id call g e k = elim (Option-cases (lookup g floor)) [
  | inl n ↦ ground arith
  | inr (u, f) ↦ elim (Option-cases (lookup u calls)) [
    | inl n ↦ ground arith
    | inr (c, p) ↦ ground (arith, list_beq_iff u id)
  ]
]

reinserted-held :
    (calls : Map CallId ActiveCall) (id : CallId) (call : ActiveCall) (g : ℕ) (o : Option CallId)
    → lookup id calls ≡ some call
    → held_by (insert id call (remove id calls)) g o ≡ held_by calls g o
reinserted-held calls id call g none e = refl
reinserted-held calls id call g (some u) e =
    ground (
      arith,
      lookup-insert id u call (remove id calls),
      lookup-remove id u calls,
      list_beq_iff id u,
    )

-- The end of a call, whoever sends it and whatever its id, is the return of the floor that the
-- sender holds by that call, and changes no other floor.
pub end_call-refines :
    (env : Env) (inner : Inner) (source : ClientId) (id : CallId) (raw : List ℕ) (g : ℕ)
    → floors_of (end_call env inner source id raw).inner g ≡ give_back id source (floors_of inner) g
unfolding end_call floors_of note_call
end_call-refines env inner source id raw g = elim (Option-cases (lookup id inner.calls)) [
  | inl n ↦ rw (n, end_call) (unknown_call inner source id g n)
  | inr (call, e) ↦
      let floor = inner.group_floor in
      let talker = held-talker inner.calls floor id call source g e in
      elim (Bool-cases (may_end source call)) [
        | inl m ↦
            let went : held_by (remove id inner.calls) g (lookup g (floor_after id call floor))
                ≡ _ =
              ended-held inner.calls floor id call g e in
            rw (e, m, end_call)
              (rw talker (ground (arith, went, private_let_go inner.calls floor id call g e)))
        | inr n ↦
            rw (e, n, end_call)
              (rw talker (
                ground (
                  arith,
                  reinserted-held inner.calls id call g (lookup g floor) e,
                  private_let_go inner.calls floor id call g e,
                )))
      ]
]
