-- ===== src/Fedroute/Table.antt =====
-- The effective table (src/fedroute.rs: `same`, `set_effective`, `reroute`, `withdraw_offer`).
pub mod Groups
pub mod Settle
use brew_server.Common.{
  ℕ, Bool, true, false, not, ◌&&◌, ◌||◌, Option, none, some, List, [], ◌∷◌, if◌then◌else◌, ◌==◌,
  nat_eq, list_eq, Map, lookup, insert, remove, contains_key, contains, add, discard, to_set,
}
use brew_server.State.{ClientId, peer, Subscriber, Advert, Route, Inner, FedState}
use brew_server.Fedroute.Select.{Choice, local, remote, unreachable, select}

-- Every element of the first set is in the second.
unfoldable pub within : List ℕ → List ℕ → Bool
within [] ys = true
within (x ∷ xs) ys = contains ys x && within xs ys

-- `==` on hash sets.
abbrev pub same_groups : List ℕ → List ℕ → Bool
same_groups xs ys = within xs ys && within ys xs

unfoldable pub same : Option Subscriber → Option Subscriber → Bool
same none none = true
same none (some b) = false
same (some a) none = false
same (some a) (some b) =
    a.client_id == b.client_id
    && same_groups a.groups b.groups
    && (a.route.reg == b.route.reg && a.route.path == b.route.path)

-- Whether some ISSI routed over the connection is in the group.
unfoldable pub routed : ℕ → ClientId → Map ℕ Subscriber → Bool
routed g c [] = false
routed g c ((issi, s) ∷ m) = s.client_id == c && contains s.groups g || routed g c m

-- The group's set, which is not there while it would be empty.
unfoldable pub members : ℕ → Map ℕ (List ClientId) → List ClientId
members g groups = elim (lookup g groups) [ none ↦ [] | some ms ↦ ms ]

abbrev pub is_empty {ℓ} : {A : Type ℓ} → List A → Bool
is_empty [] = true
is_empty (x ∷ xs) = false

unfoldable pub leave : ℕ → ClientId → Map ℕ (List ClientId) → Map ℕ (List ClientId)
leave g c groups = elim (lookup g groups) [
  | none ↦ groups
  | some ms ↦ if is_empty (discard c ms) then remove g groups else insert g (discard c ms) groups
]

unfoldable pub join : ℕ → ClientId → Map ℕ (List ClientId) → Map ℕ (List ClientId)
unfolding members
join g c groups = insert g (add c (members g groups)) groups

-- The loop over the old entry's groups.
unfoldable pub leave_unused :
    ClientId → Map ℕ Subscriber → List ℕ → Map ℕ (List ClientId) → Map ℕ (List ClientId)
leave_unused c subs [] groups = groups
leave_unused c subs (g ∷ gs) groups =
    leave_unused c subs gs (if routed g c subs then groups else leave g c groups)

unfoldable pub join_all : ClientId → List ℕ → Map ℕ (List ClientId) → Map ℕ (List ClientId)
join_all c [] groups = groups
join_all c (g ∷ gs) groups = join_all c gs (join g c groups)

abbrev pub put_entry : ℕ → Option Subscriber → Map ℕ Subscriber → Map ℕ Subscriber
put_entry issi none subs = remove issi subs
put_entry issi (some n) subs = insert issi n subs

abbrev pub leave_old :
    Option Subscriber → Map ℕ Subscriber → Map ℕ (List ClientId) → Map ℕ (List ClientId)
leave_old none subs groups = groups
leave_old (some old) subs groups = leave_unused old.client_id subs old.groups groups

abbrev pub join_new : Option Subscriber → Map ℕ (List ClientId) → Map ℕ (List ClientId)
join_new none groups = groups
join_new (some n) groups = join_all n.client_id n.groups groups

unfoldable pub set_effective : Inner → ℕ → Option Subscriber → Inner
set_effective inner issi new =
    let subs = put_entry issi new inner.subscribers in
    record inner {
      subscribers = subs;
      group_clients =
          join_new new (leave_old (lookup issi inner.subscribers) subs inner.group_clients);
    }

abbrev pub local_of : Map ClientId ℕ → Option Subscriber → Option Subscriber
local_of links none = none
local_of links (some s) = if contains_key s.client_id links then none else some s

abbrev pub reg_of : Option Subscriber → Option ℕ
reg_of none = none
reg_of (some s) = some s.route.reg

abbrev pub entry_of : ClientId → Advert → Subscriber
entry_of link a = record {
  client_id = link;
  groups = to_set a.groups;
  mode = peer;
  route = record { reg = a.reg; path = a.path };
}

abbrev pub offered : Option (Map ClientId Advert) → ClientId → Option Subscriber
offered none link = none
offered (some c) link = elim (lookup link c) [ none ↦ none | some a ↦ some (entry_of link a) ]

-- The entry that a choice stands for.
unfoldable pub chosen :
    Choice → Option Subscriber → Option (Map ClientId Advert) → Option Subscriber
chosen local own cands = own
chosen (remote link) own cands = offered cands link
chosen unreachable own cands = none

-- What `reroute` finds to be the entry of `issi`.
unfoldable pub best_entry : Inner → ℕ → Option Subscriber
unfolding chosen
best_entry inner issi =
    let own = local_of inner.fed.links (lookup issi inner.subscribers) in
    let cands = lookup issi inner.fed.rib_in in
    chosen (select inner.fed.self_id (reg_of own) inner.fed.links cands) own cands

-- The new state, and whether the effective route changed.
unfoldable pub reroute : Inner → ℕ → Inner × Bool
unfolding best_entry
reroute inner issi =
    if same (lookup issi inner.subscribers) (best_entry inner issi)
    then (inner, false)
    else (set_effective inner issi (best_entry inner issi), true)

-- Drops a link's offer; whether it had one.
unfoldable pub withdraw_offer : Inner → ℕ → ClientId → Inner × Bool
withdraw_offer inner issi link = elim (lookup issi inner.fed.rib_in) [
  | none ↦ (inner, false)
  | some offers ↦
      let rest = remove link offers in
      let rib =
        if is_empty rest then remove issi inner.fed.rib_in else insert issi rest inner.fed.rib_in in
      (record inner { fed = record inner.fed { rib_in = rib } }, contains_key link offers)
]
