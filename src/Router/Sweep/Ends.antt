-- ===== src/Router/Sweep/Ends.antt =====
-- The sweep ends the calls that are due, and no others (src/router.rs, `run_call_duration_sweep`).
use brew_server.Common.{
  ◌*◌, ◌≡◌, refl, sym, subst, ◌∙◌, Bool, true, false, inl, inr, Bool-cases, Option-cases, ◌||◌,
  Option, none, some, List, [], ◌∷◌, ◌++◌, arith, if◌then◌else◌, nat_beq, ◌==◌, nat_eq, nat_beq_iff,
  list_eq, list_beq_iff, All, Map, lookup, lookup-remove, Uniq,
}
use brew_server.State.{CallId, Inner, ActiveCall}
use brew_server.Fedroute.Dedup.{note_call}
use brew_server.Router.{Env}
use brew_server.Router.Calls.{may_end, end_call}
use brew_server.Router.Sweep.{
  Due, due_where, is_expired, expired_calls, is_idle, idle_calls, is_bridged, lists, append_new,
  overdue, end_due, end_all, sweep,
}
use brew_server.Router.Sweep.Fate.{Fate, absent, is_overdue, entry-Fate}

abbrev call_meets : (ActiveCall → Bool) → Option ActiveCall → Bool
call_meets p none = false
call_meets p (some c) = p c

lists-due_where :
    (p : ActiveCall → Bool) (calls : Map CallId ActiveCall) (u : CallId)
    → Uniq calls
    → lists (due_where p calls) u ≡ call_meets p (lookup u calls)
unfolding lists due_where lookup
lists-due_where p [] u q = refl
lists-due_where p ((id, call) ∷ calls) u (n, q) =
    let rest = lists-due_where p calls u q in
    elim (Bool-cases (list_eq.test id u)) [
      | inl e ↦
          let same : id ≡ u = (list_beq_iff id u).0 e in
          let none_left : lookup u calls ≡ none = rw (← same) n in
          elim (Bool-cases (p call)) [
            | inl y ↦ rw (y, e, y) refl
            | inr y ↦ rw (y, e, y, rest, none_left) refl
          ]
      | inr e ↦ elim (Bool-cases (p call)) [ inl y ↦ rw (y, e) rest | inr y ↦ rw (y, e) rest ]
    ]

lists-append : (v ds : List Due) (u : CallId) → lists (v ++ ds) u ≡ (lists v u || lists ds u)
unfolding lists
lists-append [] ds u = refl
lists-append (d ∷ v) ds u = ground (arith, lists-append v ds u)

lists-append_new :
    (v ds : List Due) (u : CallId) → lists (append_new v ds) u ≡ (lists v u || lists ds u)
unfolding append_new lists
lists-append_new v [] u = ground arith
lists-append_new v (d ∷ ds) u = elim (Bool-cases (lists v d.id)) [
  | inl e ↦ rw e (ground (arith, lists-append_new v ds u, list_beq_iff d.id u))
  | inr e ↦ rw e (ground (arith, lists-append_new (v ++ (d ∷ [])) ds u, lists-append v (d ∷ []) u))
]

-- The call is in the table, with that owner.
abbrev Owned : Map CallId ActiveCall → Due → Type 0
Owned calls d = (c : ActiveCall) × (lookup d.id calls ≡ some c) × (c.owner ≡ d.owner)

-- What is left of that once calls have ended.
abbrev Right : Map CallId ActiveCall → Due → Type 0
Right calls d = (c : ActiveCall) → lookup d.id calls ≡ some c → c.owner ≡ d.owner

All-map : {P Q : Due → Type 0} (ds : List Due) → ((d : Due) → P d → Q d) → All P ds → All Q ds
All-map [] f h = tt
All-map (d ∷ ds) f (h, hs) = (f d h, All-map ds f hs)

All-append : (P : Due → Type 0) (v ds : List Due) → All P v → All P ds → All P (v ++ ds)
All-append P [] ds h k = k
All-append P (d ∷ v) ds (h, hs) k = (h, All-append P v ds hs k)

All-append_new : (P : Due → Type 0) (v ds : List Due) → All P v → All P ds → All P (append_new v ds)
unfolding append_new
All-append_new P v [] h k = h
All-append_new P v (d ∷ ds) h (k, ks) = elim (Bool-cases (lists v d.id)) [
  | inl e ↦ rw e (All-append_new P v ds h ks)
  | inr e ↦ rw e (All-append_new P (v ++ (d ∷ [])) ds (All-append P v (d ∷ []) h (k, tt)) ks)
]

Owned-cons :
    (id : CallId) (call : ActiveCall) (calls : Map CallId ActiveCall) (d : Due)
    → lookup id calls ≡ none
    → Owned calls d
    → Owned ((id, call) ∷ calls) d
unfolding lookup
Owned-cons id call calls d n (c, e, o) = (c, ground (arith, list_beq_iff id d.id), o)

due_where-Owned :
    (p : ActiveCall → Bool) (calls : Map CallId ActiveCall)
    → Uniq calls
    → All (Owned calls) (due_where p calls)
unfolding due_where lookup
due_where-Owned p [] q = tt
due_where-Owned p ((id, call) ∷ calls) (n, q) =
    let rest =
      All-map (due_where p calls) (λ d. Owned-cons id call calls d n) (due_where-Owned p calls q) in
    elim (Bool-cases (p call)) [
      | inl y ↦ rw y ((call, ground (arith, list_beq_iff id id), refl), rest)
      | inr y ↦ rw y rest
    ]

-- The owner ends the call.
end_due-lookup :
    (env : Env) (inner : Inner) (d : Due) (u : CallId)
    → Right inner.calls d
    → lookup u (end_due env inner d).inner.calls
      ≡ (if d.id == u then none else lookup u inner.calls)
unfolding end_due end_call note_call
end_due-lookup env inner d u r = elim (Option-cases (lookup d.id inner.calls)) [
  | inl n ↦ rw (n, end_call) (ground (arith, list_beq_iff d.id u))
  | inr (call, e) ↦
      let own = r call e in
      let m : may_end d.owner call ≡ true = ground (arith, nat_beq_iff call.owner d.owner) in
      rw (e, m, end_call) (lookup-remove d.id u inner.calls)
]

end_due-Right :
    (env : Env) (inner : Inner) (d : Due) (ds : List Due)
    → Right inner.calls d
    → All (Right inner.calls) ds
    → All (Right (end_due env inner d).inner.calls) ds
end_due-Right env inner d ds r h =
    All-map ds (λ k s c e. s c (ground (arith, end_due-lookup env inner d k.id r))) h

end_all-lookup :
    (env : Env) (inner : Inner) (ds : List Due) (u : CallId)
    → All (Right inner.calls) ds
    → lookup u (end_all env inner ds).inner.calls
      ≡ (if lists ds u then none else lookup u inner.calls)
unfolding end_all lists
end_all-lookup env inner [] u h = refl
end_all-lookup env inner (d ∷ ds) u (h, hs) = ground (
  arith,
  end_all-lookup env (end_due env inner d).inner ds u (end_due-Right env inner d ds h hs),
  end_due-lookup env inner d u h,
)

if-All : (P : Due → Type 0) (b : Bool) (ds : List Due) → All P ds → All P (if b then [] else ds)
if-All P true ds h = tt
if-All P false ds h = h

overdue-Right :
    (env : Env) (inner : Inner) → Uniq inner.calls → All (Right inner.calls) (overdue env inner)
unfolding overdue expired_calls idle_calls
overdue-Right env inner q =
    let limit = env.config.max_call_duration_seconds * 1000 in
    let idle_ms = env.config.call_inactivity_timeout_seconds * 1000 in
    All-map (overdue env inner) (λ d (c, e, o) b f. ground (arith))
      (All-append_new (Owned inner.calls) (expired_calls inner.calls limit env.now)
        (idle_calls inner.calls idle_ms (is_bridged inner.clients) env.now)
        (if-All (Owned inner.calls) (nat_beq limit 0) _
          (due_where-Owned (is_expired limit env.now) inner.calls q))
        (if-All (Owned inner.calls) (nat_beq idle_ms 0) _
          (due_where-Owned (is_idle idle_ms (is_bridged inner.clients) env.now) inner.calls q)))

lists-overdue :
    (env : Env) (inner : Inner) (u : CallId)
    → Uniq inner.calls
    → lists (overdue env inner) u ≡ call_meets (is_overdue env inner) (lookup u inner.calls)
unfolding overdue expired_calls idle_calls lists
lists-overdue env inner u q =
    let limit = env.config.max_call_duration_seconds * 1000 in
    let idle_ms = env.config.call_inactivity_timeout_seconds * 1000 in
    lists-append_new (expired_calls inner.calls limit env.now)
      (idle_calls inner.calls idle_ms (is_bridged inner.clients) env.now) u
    ∙ ground (
      arith,
      lists-due_where (is_expired limit env.now) inner.calls u q,
      lists-due_where (is_idle idle_ms (is_bridged inner.clients) env.now) inner.calls u q,
    )

-- With no id twice in the table of calls: one turn of the sweep ends each call that has run for
-- the longest duration allowed, or has carried nothing for the longest time allowed and has no
-- SIP connection as owner or peer. It leaves every other call as it was and adds none; a limit of
-- 0 is none.
pub sweep_ends :
    (env : Env) (inner : Inner) (u : CallId)
    → Uniq inner.calls
    → Fate env inner (lookup u inner.calls) (lookup u (sweep env inner).inner.calls)
unfolding sweep
sweep_ends env inner u q =
    subst (Fate env inner (lookup u inner.calls))
      (sym (end_all-lookup env inner (overdue env inner) u (overdue-Right env inner q)))
      (rw (lists-overdue env inner u q) (elim (Option-cases (lookup u inner.calls)) [
        | inl n ↦ rw n absent
        | inr (c, e) ↦ rw e (entry-Fate env inner c)
      ]))
