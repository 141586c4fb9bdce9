-- ===== src/Fedroute/Publish.antt =====
-- What peers are told of a change of the table (src/fedroute.rs: `fed_update`, `legacy_updates`,
-- `publish`, `sync_messages`).
pub mod Told
use brew_server.Common.{
  ℕ, Bool, true, false, not, ◌&&◌, ◌||◌, Option, none, some, List, [], ◌∷◌, ◌++◌, map,
  if◌then◌else◌, ◌==◌, nat_eq, ltb, leb, nat_beq, length, get_or, Map, lookup, contains, difference,
  keys,
}
use brew_server.State.{ClientId, is_mode, peer, Client, Subscriber, Inner, Send}
use brew_server.Protocol.{
  build_subscriber_message, sub_deregister, sub_register, sub_affiliate, sub_deaffiliate,
}
use brew_server.Fedroute.Messages.{max_path, fed_route}
use brew_server.Fedroute.Messages.Build.{build_route, build_withdraw}
use brew_server.Fedroute.Table.{same, is_empty}

-- `sort_unstable` on u32.
unfoldable pub insert_sorted : ℕ → List ℕ → List ℕ
insert_sorted x [] = x ∷ []
insert_sorted x (y ∷ ys) = if leb x y then x ∷ y ∷ ys else y ∷ insert_sorted x ys

unfoldable pub sorted : List ℕ → List ℕ
unfolding insert_sorted
sorted [] = []
sorted (x ∷ xs) = insert_sorted x (sorted xs)

-- Whether the neighbour may use the entry over the link.
abbrev pub usable : ClientId → ℕ → Subscriber → Bool
usable nbr_link nbr_id e =
    not (e.client_id == nbr_link)
    && not (contains e.route.path nbr_id)
    && ltb (length e.route.path) max_path

unfoldable pub fed_update : ℕ → ClientId → ℕ → ℕ → Option Subscriber → List ℕ
fed_update self_id nbr_link nbr_id issi none = build_withdraw issi
fed_update self_id nbr_link nbr_id issi (some e) =
    if usable nbr_link nbr_id e
    then build_route issi e.route.reg (self_id ∷ e.route.path) (sorted e.groups)
    else build_withdraw issi

-- The entry, unless it runs over the peer itself.
abbrev pub not_over : ClientId → Option Subscriber → Option Subscriber
not_over to none = none
not_over to (some s) = if s.client_id == to then none else some s

abbrev pub affiliate : ℕ → List ℕ → List (List ℕ)
affiliate issi groups =
    if is_empty groups then [] else build_subscriber_message sub_affiliate issi (sorted groups) ∷ []

abbrev pub register : ℕ → List ℕ → List (List ℕ)
register issi groups = build_subscriber_message sub_register issi [] ∷ affiliate issi groups

abbrev pub deaffiliate : ℕ → List ℕ → List (List ℕ)
deaffiliate issi groups =
    if is_empty groups
    then []
    else build_subscriber_message sub_deaffiliate issi (sorted groups) ∷ []

-- The match on what the peer saw before and sees after.
unfoldable pub legacy_changes :
    ℕ → Option Subscriber → Option Subscriber → Option Subscriber → List (List ℕ)
legacy_changes issi new none none = []
legacy_changes issi none (some o) none = build_subscriber_message sub_deregister issi [] ∷ []
legacy_changes issi (some n) (some o) none = []
legacy_changes issi new none (some n) = register issi n.groups
legacy_changes issi new (some o) (some n) =
    (if o.route.reg == n.route.reg
      then affiliate issi (difference n.groups o.groups)
      else register issi n.groups)
    ++ deaffiliate issi (difference o.groups n.groups)

unfoldable pub legacy_updates : ℕ → Option Subscriber → Option Subscriber → ClientId → List (List ℕ)
unfolding legacy_changes
legacy_updates issi old new to = legacy_changes issi new (not_over to old) (not_over to new)

abbrev pub to_link : ClientId → List (List ℕ) → List Send
to_link link [] = []
to_link link (m ∷ ms) = (link, m) ∷ to_link link ms

-- What one connection is told.
unfoldable pub notices :
    Inner → ℕ → Option Subscriber → Option Subscriber → ClientId × Client → List Send
notices inner issi old new (link, client) =
    if is_mode client.mode peer
    then elim (lookup link inner.fed.links) [
      | some nbr_id ↦ (link, fed_update inner.fed.self_id link nbr_id issi new) ∷ []
      | none ↦ to_link link (legacy_updates issi old new link)
    ]
    else []

unfoldable pub notices_all :
    Inner → ℕ → Option Subscriber → Option Subscriber → List (ClientId × Client) → List Send
notices_all inner issi old new [] = []
notices_all inner issi old new (c ∷ cs) =
    notices inner issi old new c ++ notices_all inner issi old new cs

abbrev pub newly : Option Subscriber → Option Subscriber → Bool
newly old none = false
newly none (some n) = true
newly (some o) (some n) = not (o.route.reg == n.route.reg)

-- The packets, and whether a registration appeared.
unfoldable pub publish : Inner → ℕ → Option Subscriber → List Send × Bool
publish inner issi old =
    let new = lookup issi inner.subscribers in
    if same old new
    then ([], false)
    else (notices_all inner issi old new inner.clients, newly old new)

abbrev is_route : List ℕ → Bool
is_route m = nat_beq (get_or m 1 0) fed_route

unfoldable pub sync_fed : Inner → ClientId → ℕ → List ℕ → List (List ℕ)
sync_fed inner link nbr_id [] = []
sync_fed inner link nbr_id (issi ∷ issis) =
    let m = fed_update inner.fed.self_id link nbr_id issi (lookup issi inner.subscribers) in
    let rest = sync_fed inner link nbr_id issis in if is_route m then m ∷ rest else rest

unfoldable pub sync_legacy : Inner → ClientId → List ℕ → List (List ℕ)
sync_legacy inner link [] = []
sync_legacy inner link (issi ∷ issis) =
    legacy_updates issi none (lookup issi inner.subscribers) link ++ sync_legacy inner link issis

unfoldable pub sync_messages : Inner → ClientId → List (List ℕ)
unfolding sync_fed sync_legacy
sync_messages inner link =
    let issis = sorted (keys inner.subscribers) in
    elim (lookup link inner.fed.links) [
      | some nbr_id ↦ sync_fed inner link nbr_id issis
      | none ↦ sync_legacy inner link issis
    ]
