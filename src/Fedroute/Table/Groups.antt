-- ===== src/Fedroute/Table/Groups.antt =====
-- The group memberships of src/fedroute.rs, `set_effective`: a connection is in a group's set
-- exactly while an ISSI routed over it is in the group.
use brew_server.Common.{
  ℕ, ◌≡◌, refl, ◌∙◌, Bool, true, false, not, ◌&&◌, ◌||◌, Option, none, some, List, [], ◌∷◌, arith,
  nat_eq, nat_beq_iff, Map, lookup, insert, remove, Uniq, lookup-insert, lookup-remove, contains,
  add, discard, contains-add, contains-discard, insert-Uniq, remove-Uniq, Option-cases, Bool-cases,
  inl, inr,
}
use brew_server.State.{ClientId, Subscriber, Inner}
use brew_server.Fedroute.Table.{
  routed, members, is_empty, leave, join, leave_unused, join_all, put_entry, leave_old, join_new,
  set_effective, reroute, best_entry, same,
}

-- Whether the connection is in the group's set.
abbrev pub in_group : ℕ → ClientId → Map ℕ (List ClientId) → Bool
in_group g c groups = elim (lookup g groups) [ none ↦ false | some ms ↦ contains ms c ]

contains_empty : (ms : List ℕ) (c : ℕ) → is_empty ms ≡ true → contains ms c ≡ false
unfolding contains
contains_empty [] c e = refl
contains_empty (x ∷ xs) c e = cc

in_group-leave :
    (g h : ℕ) (c d : ClientId) (groups : Map ℕ (List ClientId))
    → in_group h d (leave g c groups)
      ≡ (not (nat_eq.test g h && nat_eq.test c d) && in_group h d groups)
unfolding leave
in_group-leave g h c d groups = elim (Option-cases (lookup g groups)) [
  | inl n ↦ ground (arith, nat_beq_iff g h)
  | inr (ms, e) ↦ elim (Bool-cases (is_empty (discard c ms))) [
    | inl z ↦ ground (
      arith,
      nat_beq_iff g h,
      lookup-remove g h groups,
      contains-discard c d ms,
      contains_empty (discard c ms) d z,
    )
    | inr z ↦
        ground
          (arith, nat_beq_iff g h, lookup-insert g h (discard c ms) groups, contains-discard c d ms)
  ]
]

in_group-join :
    (g h : ℕ) (c d : ClientId) (groups : Map ℕ (List ClientId))
    → in_group h d (join g c groups) ≡ (nat_eq.test g h && nat_eq.test c d || in_group h d groups)
unfolding join contains
in_group-join g h c d groups = ground (
  arith,
  nat_beq_iff g h,
  lookup-insert g h (add c (members g groups)) groups,
  contains-add c d (members g groups),
)

in_group-join_all :
    (c d : ClientId) (gs : List ℕ) (h : ℕ) (groups : Map ℕ (List ClientId))
    → in_group h d (join_all c gs groups)
      ≡ (contains gs h && nat_eq.test c d || in_group h d groups)
unfolding join_all contains
in_group-join_all c d [] h groups = refl
in_group-join_all c d (g ∷ gs) h groups =
    in_group-join_all c d gs h (join g c groups) ∙ ground (arith, in_group-join g h c d groups)

in_group-leave_unused :
    (c d : ClientId) (subs : Map ℕ Subscriber) (gs : List ℕ) (h : ℕ)
    (groups : Map ℕ (List ClientId))
    → in_group h d (leave_unused c subs gs groups)
      ≡ (not (contains gs h && nat_eq.test c d && not (routed h c subs)) && in_group h d groups)
unfolding leave_unused contains
in_group-leave_unused c d subs [] h groups = refl
in_group-leave_unused c d subs (g ∷ gs) h groups = elim (Bool-cases (routed g c subs)) [
  | inl u ↦ ground (arith, nat_beq_iff g h, in_group-leave_unused c d subs gs h groups)
  | inr u ↦ ground (
    arith,
    nat_beq_iff g h,
    in_group-leave_unused c d subs gs h (leave g c groups),
    in_group-leave g h c d groups,
  )
]

abbrev pub entry_in : ℕ → ClientId → Option Subscriber → Bool
entry_in g c none = false
entry_in g c (some s) = nat_eq.test s.client_id c && contains s.groups g

remove_absent :
    (issi : ℕ) (subs : Map ℕ Subscriber) → lookup issi subs ≡ none → remove issi subs ≡ subs
unfolding lookup remove
remove_absent issi [] e = refl
remove_absent issi ((i, s) ∷ subs) e = ground (arith, remove_absent issi subs)

routed-remove :
    (issi g : ℕ) (c : ClientId) (subs : Map ℕ Subscriber)
    → Uniq subs
    → routed g c subs ≡ (entry_in g c (lookup issi subs) || routed g c (remove issi subs))
unfolding routed lookup remove
routed-remove issi g c [] u = refl
routed-remove issi g c ((i, s) ∷ subs) u =
    ground (arith, nat_beq_iff i issi, routed-remove issi g c subs u.1, remove_absent issi subs)

routed-put_entry :
    (issi g : ℕ) (c : ClientId) (new : Option Subscriber) (subs : Map ℕ Subscriber)
    → routed g c (put_entry issi new subs) ≡ (entry_in g c new || routed g c (remove issi subs))
unfolding routed insert
routed-put_entry issi g c none subs = refl
routed-put_entry issi g c (some n) subs = refl

-- A connection's group memberships are those of the ISSIs routed over it.
abbrev pub Consistent : ClientId → Inner → Type 0
Consistent c inner = (g : ℕ) → in_group g c inner.group_clients ≡ routed g c inner.subscribers

abbrev pub TableInv : ClientId → Inner → Type 0
TableInv c inner = Uniq inner.subscribers × Consistent c inner

in_group-join_new :
    (c : ClientId) (new : Option Subscriber) (h : ℕ) (groups : Map ℕ (List ClientId))
    → in_group h c (join_new new groups) ≡ (entry_in h c new || in_group h c groups)
in_group-join_new c none h groups = refl
in_group-join_new c (some n) h groups =
    ground (arith, in_group-join_all n.client_id c n.groups h groups)

in_group-leave_old :
    (c : ClientId) (old : Option Subscriber) (subs : Map ℕ Subscriber) (h : ℕ)
    (groups : Map ℕ (List ClientId))
    → in_group h c (leave_old old subs groups)
      ≡ (not (entry_in h c old && not (routed h c subs)) && in_group h c groups)
in_group-leave_old c none subs h groups = refl
in_group-leave_old c (some o) subs h groups =
    ground
      (arith, nat_beq_iff o.client_id c, in_group-leave_unused o.client_id c subs o.groups h groups)

-- `set_effective` keeps the memberships of every connection right, and the table without a second
-- entry for an ISSI.
pub set_effective-TableInv :
    (c : ClientId) (inner : Inner) (issi : ℕ) (new : Option Subscriber)
    → TableInv c inner
    → TableInv c (set_effective inner issi new)
unfolding set_effective
set_effective-TableInv c inner issi new (u, k) = (unique new, consistent)
  where
    unique : (n : Option Subscriber) → Uniq (put_entry issi n inner.subscribers)
    unique none = remove-Uniq issi inner.subscribers u
    unique (some n) = insert-Uniq issi n inner.subscribers u

    consistent : Consistent c (set_effective inner issi new)
    consistent h =
        let subs = put_entry issi new inner.subscribers in
        let old = lookup issi inner.subscribers in
        ground (
          arith,
          in_group-join_new c new h (leave_old old subs inner.group_clients),
          in_group-leave_old c old subs h inner.group_clients,
          routed-put_entry issi h c new inner.subscribers,
          routed-remove issi h c inner.subscribers u,
          k h,
        )

-- So does `reroute`.
pub reroute-TableInv :
    (c : ClientId) (inner : Inner) (issi : ℕ) → TableInv c inner → TableInv c (reroute inner issi).0
unfolding reroute
reroute-TableInv c inner issi v =
    elim (Bool-cases (same (lookup issi inner.subscribers) (best_entry inner issi))) [
      | inl s ↦ rw (s, reroute) v
      | inr d ↦ rw (d, reroute) (set_effective-TableInv c inner issi (best_entry inner issi) v)
    ]
