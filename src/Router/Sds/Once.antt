-- ===== src/Router/Sds/Once.antt =====
-- What becomes of a short message's payload (src/router.rs, `handle_sds_transfer`).
use brew_server.Common.{
  ℕ, ◌≤◌, ◌≡◌, refl, Bool, true, false, inl, inr, Option-cases, ◌||◌, Option, none, some, List, [],
  ◌∷◌, arith, nat_eq, list_eq, list_beq_iff, length, lookup, insert, lookup-insert, lookup-remove,
}
use brew_server.State.{ClientId, CallId, Inner, SdsRoute}
use brew_server.Protocol.Parse.{short_transfer}
use brew_server.Fedroute.Dedup.{note_call}
use brew_server.Router.{Env, is_blocked}
use brew_server.Router.Group.{copied}
use brew_server.Router.Sds.{is_lip, pass_sds, handle_sds_transfer, route_sds, handle_sds_header}

-- A payload that arrives: from whom, and when.
pub record Arrival : Type 0 where
  pub env : Env
  pub source : ClientId
  pub raw : List ℕ

-- The messages for the SMS Center out of payloads that arrive under one id.
unfoldable pub stores : Inner → CallId → List Arrival → List (ℕ × ℕ)
unfolding handle_sds_transfer
stores inner id [] = []
stores inner id (a ∷ arrivals) =
    let out = handle_sds_transfer a.env inner a.source id a.raw in
    let rest = stores out.inner id arrivals in elim out.store [ none ↦ rest | some m ↦ m ∷ rest ]

abbrev waits : Option SdsRoute → Bool
waits none = false
waits (some r) = r.store_offline

transfer-waits :
    (env : Env) (inner : Inner) (source : ClientId) (id : CallId) (raw : List ℕ)
    → waits (lookup id inner.sds_routes) ≡ false
    → (waits (lookup id (handle_sds_transfer env inner source id raw).inner.sds_routes) ≡ false)
      × ((handle_sds_transfer env inner source id raw).store ≡ none)
unfolding handle_sds_transfer pass_sds
transfer-waits env inner source id raw w = elim (Option-cases (lookup id inner.sds_routes)) [
  | inl n ↦ ground arith
  | inr (r, e) ↦
      let after : SdsRoute = record r { store_offline = false; held_header = none } in
      ground (
        arith,
        lookup-insert id id after inner.sds_routes,
        lookup-remove id id inner.sds_routes,
        list_beq_iff id id,
      )
]

transfer-stored :
    (env : Env) (inner : Inner) (source : ClientId) (id : CallId) (raw : List ℕ) (m : ℕ × ℕ)
    → (handle_sds_transfer env inner source id raw).store ≡ some m
    → waits (lookup id (handle_sds_transfer env inner source id raw).inner.sds_routes) ≡ false
unfolding handle_sds_transfer pass_sds
transfer-stored env inner source id raw m s = elim (Option-cases (lookup id inner.sds_routes)) [
  | inl n ↦ ground arith
  | inr (r, e) ↦
      let after : SdsRoute = record r { store_offline = false; held_header = none } in
      ground (
        arith,
        lookup-insert id id after inner.sds_routes,
        lookup-remove id id inner.sds_routes,
        list_beq_iff id id,
      )
]

stores-nothing :
    (inner : Inner) (id : CallId) (arrivals : List Arrival)
    → waits (lookup id inner.sds_routes) ≡ false
    → stores inner id arrivals ≡ []
unfolding stores
stores-nothing inner id [] w = refl
stores-nothing inner id (a ∷ arrivals) w =
    let (after, silent) = transfer-waits a.env inner a.source id a.raw w in
    rw (silent, stores)
      (stores-nothing (handle_sds_transfer a.env inner a.source id a.raw).inner id arrivals after)

-- However often the payload of a short message arrives after its header, and from whomever, it is
-- handed to the SMS Center at most once.
pub stores_once :
    (inner : Inner) (id : CallId) (arrivals : List Arrival) → length (stores inner id arrivals) ≤ 1
unfolding stores
stores_once inner id [] = omega arith
stores_once inner id (a ∷ arrivals) =
    let out = handle_sds_transfer a.env inner a.source id a.raw in
    elim (Option-cases out.store) [
      | inl n ↦ rw (n, stores) (stores_once out.inner id arrivals)
      | inr (m, s) ↦
          let rest =
            stores-nothing out.inner id arrivals
              (transfer-stored a.env inner a.source id a.raw m s) in
          rw (s, rest, stores) (omega arith)
    ]

-- A route that only lets LIP through.
abbrev OnlyLip : CallId → Inner → Type 0
OnlyLip id inner = (r : SdsRoute) × (lookup id inner.sds_routes ≡ some r) × (r.lip_only ≡ true)

insert-OnlyLip :
    (inner : Inner) (id : CallId) (r : SdsRoute)
    → r.lip_only ≡ true
    → OnlyLip id (record inner { sds_routes = insert id r inner.sds_routes })
insert-OnlyLip inner id r l =
    (r, ground (arith, lookup-insert id id r inner.sds_routes, list_beq_iff id id), l)

header-OnlyLip :
    (env : Env) (inner : Inner) (source : ClientId) (id : CallId) (source_issi destination : ℕ)
    (raw : List ℕ)
    → copied env inner source id source_issi ≡ false
    → is_blocked env source_issi || is_blocked env destination ≡ true
    → let header =
        handle_sds_header env inner source id (short_transfer source_issi destination) raw in
      (header.sends ≡ []) × OnlyLip id header.inner
unfolding handle_sds_header route_sds note_call
header-OnlyLip env inner source id source_issi destination raw c b =
    rw (c, handle_sds_header)
      (
        rw (b, route_sds) refl,
        insert-OnlyLip (note_call inner id source_issi source env.now) id _ b,
      )

lip_silent :
    (env : Env) (inner : Inner) (source : ClientId) (id : CallId) (raw : List ℕ)
    → OnlyLip id inner
    → is_lip raw ≡ false
    → ((handle_sds_transfer env inner source id raw).sends ≡ [])
      × ((handle_sds_transfer env inner source id raw).store ≡ none)
unfolding handle_sds_transfer
lip_silent env inner source id raw (r, e, l) n = (ground arith, ground arith)

-- A short message from or to a blacklisted ISSI: neither the header, unless it is a copy over a
-- second peer link, nor a payload that is not LIP goes to anyone or to the SMS Center, whoever
-- sends the payload, at whatever time.
pub blocked_sds_silent :
    (env later : Env) (inner : Inner) (source by : ClientId) (id : CallId)
    (source_issi destination : ℕ) (raw payload : List ℕ)
    → copied env inner source id source_issi ≡ false
    → is_blocked env source_issi || is_blocked env destination ≡ true
    → is_lip payload ≡ false
    → let header =
        handle_sds_header env inner source id (short_transfer source_issi destination) raw in
      let transfer = handle_sds_transfer later header.inner by id payload in
      (header.sends ≡ []) × (transfer.sends ≡ []) × (transfer.store ≡ none)
blocked_sds_silent env later inner source by id source_issi destination raw payload c b n =
    let (silent, only) = header-OnlyLip env inner source id source_issi destination raw c b in
    let header =
      handle_sds_header env inner source id (short_transfer source_issi destination) raw in
    let (unsent, unstored) = lip_silent later header.inner by id payload only n in
    (silent, unsent, unstored)
