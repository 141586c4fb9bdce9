-- ===== src/Router/LateEntry/Joined.antt =====
-- Late entry into running calls (src/router.rs, `late_entry`).
use brew_server.Common.{
  ℕ, ◌≡◌, refl, false, inl, inr, Bool-cases, ◌&&◌, ◌||◌, none, some, List, [], ◌∷◌, arith,
  if◌then◌else◌, ◌==◌, nat_eq, nat_beq_iff, list_eq, Map, lookup, contains, contains-add, add,
}
use brew_server.State.{ClientId, CallId, Client, Inner, ActiveCall, is_group}
use brew_server.Fedroute.Table.{is_empty}
use brew_server.Router.{is_peer}
use brew_server.Router.Calls.{is_party}
use brew_server.Router.LateEntry.{joins, join_calls, late_entry}

-- The call as it is for everyone after the entry of the connection.
abbrev pub with_listener : ClientId → List ℕ → ActiveCall → ActiveCall
with_listener client groups c =
    if joins client groups c then record c { peers = add client c.peers } else c

lookup-join_calls :
    (client : ClientId) (groups : List ℕ) (u : CallId) (calls : Map CallId ActiveCall)
    → lookup u (join_calls client groups calls)
      ≡ (elim (lookup u calls) [ none ↦ none | some c ↦ some (with_listener client groups c) ])
unfolding lookup join_calls
lookup-join_calls client groups u [] = refl
lookup-join_calls client groups u ((id, c) ∷ calls) =
    let rest = lookup-join_calls client groups u calls in
    elim (Bool-cases (joins client groups c)) [
      | inl j ↦ elim (Bool-cases (list_eq.test id u)) [
        | inl e ↦ rw (j, e, j) refl
        | inr e ↦ rw (j, e) rest
      ]
      | inr j ↦ elim (Bool-cases (list_eq.test id u)) [
        | inl e ↦ rw (j, e, j) refl
        | inr e ↦ rw (j, e) rest
      ]
    ]

-- After late entry of a connected client that is no peer link, every running call is as it was but
-- for its listeners, the client takes part in every group call to one of its groups, and in any
-- other call exactly as before.
pub late_entry_joins :
    (inner : Inner) (client : ClientId) (groups : List ℕ) (k : Client) (u : CallId) (c : ActiveCall)
    → lookup client inner.clients ≡ some k
    → is_peer inner client ≡ false
    → is_empty groups ≡ false
    → lookup u inner.calls ≡ some c
    → (d : ActiveCall) × (lookup u (late_entry inner client groups).0.calls ≡ some d)
      × (d ≡ record c { peers = d.peers })
      × (is_party client d
          ≡ (is_party client c || is_group c.kind && contains groups c.destination))
      × ((other : ClientId) → (other == client) ≡ false → is_party other d ≡ is_party other c)
unfolding late_entry
late_entry_joins inner client groups k u c there peer_no some_group e =
    let d = with_listener client groups c in
    (
      d,
      ground (arith, lookup-join_calls client groups u inner.calls),
      elim (Bool-cases (joins client groups c)) [ inl j ↦ rw j refl | inr j ↦ rw j refl ],
      ground (arith, contains-add client client c.peers, nat_beq_iff client client),
      λ other n. ground (
        arith,
        contains-add client other c.peers,
        nat_beq_iff client other,
        nat_beq_iff other client,
      ),
    )
