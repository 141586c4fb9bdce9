-- ===== src/Router/Floor/Frames.antt =====
-- Operations that change who hears a call, but not whose it is (src/router.rs: `late_entry`,
-- `emergency_raised`; src/fedroute.rs, `handle` on a prune).
use brew_server.Common.{
  ℕ, ◌≡◌, refl, ◌∙◌, Bool, false, inl, inr, Bool-cases, Option-cases, ◌&&◌, not, ◌||◌, none, some,
  List, [], ◌∷◌, arith, if◌then◌else◌, nat_eq, nat_beq_iff, list_eq, list_beq_iff, Map, lookup,
  Uniq, contains, add, contains-add, contains-discard,
}
use brew_server.State.{ClientId, CallId, Inner, ActiveCall, is_group}
use brew_server.Fedroute.Handle.{on_prune}
use brew_server.Fedroute.Table.{is_empty}
use brew_server.Router.{extend, only, is_peer}
use brew_server.Router.LateEntry.{
  joins, join_calls, late_entry, escalates, newcomers, escalate, escalate_calls, emergency_raised,
}
use brew_server.Router.Floor.{CallsInv, replaced-CallsInv}

-- A change of one call that leaves its kind, group and owner, and does not make the owner a peer.
pub record Like (c d : ActiveCall) : Type 0 where
  pub kind : d.kind ≡ c.kind
  pub destination : d.destination ≡ c.destination
  pub owner : d.owner ≡ c.owner
  pub apart : contains c.peers c.owner ≡ false → contains d.peers d.owner ≡ false

-- Such a change of every call.
pub changed : (CallId → ActiveCall → ActiveCall) → Map CallId ActiveCall → Map CallId ActiveCall
changed f [] = []
changed f ((id, c) ∷ calls) = (id, f id c) ∷ changed f calls

lookup-changed :
    (f : CallId → ActiveCall → ActiveCall) (u : CallId) (calls : Map CallId ActiveCall)
    → lookup u (changed f calls) ≡ (elim (lookup u calls) [ none ↦ none | some c ↦ some (f u c) ])
unfolding changed lookup
lookup-changed f u [] = refl
lookup-changed f u ((id, c) ∷ calls) = elim (Bool-cases (list_eq.test id u)) [
  | inl e ↦ rw (e, (list_beq_iff id u).0 e) refl
  | inr n ↦ rw n (lookup-changed f u calls)
]

changed-Uniq :
    (f : CallId → ActiveCall → ActiveCall) (calls : Map CallId ActiveCall)
    → Uniq calls
    → Uniq (changed f calls)
unfolding changed
changed-Uniq f [] u = tt
changed-Uniq f ((id, c) ∷ calls) (n, u) =
    (lookup-changed f id calls ∙ rw n refl, changed-Uniq f calls u)

changed-CallsInv :
    (f : CallId → ActiveCall → ActiveCall) (inner after : Inner)
    → ((id : CallId) (c : ActiveCall) → Like c (f id c))
    → after.calls ≡ changed f inner.calls
    → after.group_floor ≡ inner.group_floor
    → CallsInv inner
    → CallsInv after
changed-CallsInv f inner after like e g v = record {
  unique = rw e (changed-Uniq f inner.calls v.unique);
  holds = λ u d h k. elim (Option-cases (lookup u inner.calls)) [
    | inl n ↦ absurd (ground (arith, lookup-changed f u inner.calls))
    | inr (c, p) ↦
        let l = like u c in
        let is : f u c ≡ d = ground (arith, lookup-changed f u inner.calls) in
        rw (g, ← is, l.destination) (v.holds u c p (rw (← l.kind) (rw is k)))
  ];
  apart = λ u d h. elim (Option-cases (lookup u inner.calls)) [
    | inl n ↦ absurd (ground (arith, lookup-changed f u inner.calls))
    | inr (c, p) ↦
        let is : f u c ≡ d = ground (arith, lookup-changed f u inner.calls) in
        rw (← is) ((like u c).apart (v.apart u c p))
  ];
}

entered : ClientId → List ℕ → CallId → ActiveCall → ActiveCall
entered client groups id c =
    if joins client groups c then record c { peers = add client c.peers } else c

entered-Like :
    (client : ClientId) (groups : List ℕ) (id : CallId) (c : ActiveCall)
    → Like c (entered client groups id c)
unfolding entered
entered-Like client groups id c = elim (Bool-cases (joins client groups c)) [
  | inl j ↦
      rw (j, entered)
        (record {
          kind = refl;
          destination = refl;
          owner = refl;
          apart = λ n. ground (
            arith,
            contains-add client c.owner c.peers,
            nat_beq_iff client c.owner,
            nat_beq_iff c.owner client,
          );
        })
  | inr n ↦
      rw (n, entered) (record { kind = refl; destination = refl; owner = refl; apart = λ n. n })
]

join_calls-changed :
    (client : ClientId) (groups : List ℕ) (calls : Map CallId ActiveCall)
    → join_calls client groups calls ≡ changed (entered client groups) calls
unfolding join_calls changed entered
join_calls-changed client groups [] = refl
join_calls-changed client groups ((id, c) ∷ calls) = elim (Bool-cases (joins client groups c)) [
  | inl j ↦ rw (j, join_calls-changed client groups calls) refl
  | inr n ↦ rw (n, join_calls-changed client groups calls) refl
]

pub late_entry-CallsInv :
    (inner : Inner) (client : ClientId) (groups : List ℕ)
    → CallsInv inner
    → CallsInv (late_entry inner client groups).0
unfolding late_entry
late_entry-CallsInv inner client groups v =
    elim (Bool-cases (is_empty groups || is_peer inner client)) [
      | inl e ↦ rw (e, late_entry) v
      | inr e ↦ elim (Option-cases (lookup client inner.clients)) [
        | inl n ↦ rw (e, n, late_entry) v
        | inr (c, p) ↦
            rw (e, p, late_entry)
              (changed-CallsInv (entered client groups) inner _ (entered-Like client groups)
                (join_calls-changed client groups inner.calls) refl v)
      ]
    ]

contains-extend :
    (c : ClientId) (xs ys : List ClientId)
    → contains (extend xs ys) c ≡ (contains xs c || contains ys c)
unfolding extend contains
contains-extend c xs [] = ground arith
contains-extend c xs (y ∷ ys) =
    ground (arith, contains-add y c (extend xs ys), contains-extend c xs ys)

contains-only :
    (p : ClientId → Bool) (c : ClientId) (xs : List ClientId)
    → contains (only p xs) c ≡ (p c && contains xs c)
unfolding only contains
contains-only p c [] = ground arith
contains-only p c (x ∷ xs) = elim (Bool-cases (nat_eq.test x c)) [
  | inl e ↦ rw ((nat_beq_iff x c).0 e) (ground (arith, contains-only p c xs, nat_beq_iff c c))
  | inr n ↦ ground (arith, contains-only p c xs)
]

raised : ℕ → List ClientId → CallId → ActiveCall → ActiveCall
raised issi consoles id c = if escalates issi c then escalate consoles c else c

raised-Like :
    (issi : ℕ) (consoles : List ClientId) (id : CallId) (c : ActiveCall)
    → Like c (raised issi consoles id c)
unfolding raised escalate newcomers
raised-Like issi consoles id c = elim (Bool-cases (escalates issi c)) [
  | inl j ↦
      rw (j, raised)
        (record {
          kind = refl;
          destination = refl;
          owner = refl;
          apart = λ n. ground (
            arith,
            contains-extend c.owner c.peers (newcomers consoles c),
            contains-only (λ x. not (nat_eq.test x c.owner) && not (contains c.peers x)) c.owner
                consoles,
            nat_beq_iff c.owner c.owner,
          );
        })
  | inr n ↦
      rw (n, raised) (record { kind = refl; destination = refl; owner = refl; apart = λ n. n })
]

escalate_calls-changed :
    (issi : ℕ) (consoles : List ClientId) (calls : Map CallId ActiveCall)
    → escalate_calls issi consoles calls ≡ changed (raised issi consoles) calls
unfolding escalate_calls changed raised
escalate_calls-changed issi consoles [] = refl
escalate_calls-changed issi consoles ((id, c) ∷ calls) =
    rw (escalate_calls-changed issi consoles calls) refl

pub emergency_raised-CallsInv :
    (inner : Inner) (issi : ℕ) → CallsInv inner → CallsInv (emergency_raised inner issi).inner
unfolding emergency_raised
emergency_raised-CallsInv inner issi v =
    changed-CallsInv _ inner _ (raised-Like issi _) (escalate_calls-changed issi _ inner.calls) refl
      v

pub on_prune-CallsInv :
    (inner : Inner) (source : ClientId) (id : CallId) (talker : ℕ)
    → CallsInv inner
    → CallsInv (on_prune inner source id talker)
unfolding on_prune
on_prune-CallsInv inner source id talker v = elim (Option-cases (lookup id inner.calls)) [
  | inl n ↦ rw (n, on_prune) v
  | inr (c, e) ↦ elim (Bool-cases (is_group c.kind && nat_eq.test c.source_issi talker)) [
    | inl g ↦
        rw (e, g, on_prune)
          (replaced-CallsInv inner id c _ e refl refl
            (ground (arith, contains-discard source c.owner c.peers, v.apart id c)) v)
    | inr g ↦ rw (e, g, on_prune) v
  ]
]
