-- ===== src/Connections.antt =====
-- A connection that goes away (src/state.rs, `AppState::cleanup_client`), and the version that a
-- connection has shown (`promote_client_version`). The SIP legs of the calls that end, and the
-- dashboard's list of them, are told by the caller from `ended`.
pub mod Attach
pub mod Calls
pub mod Floors
pub mod Version
mod Tests
use brew_server.Common.{
  ℕ, Bool, true, false, not, ◌&&◌, ◌||◌, Option, none, some, List, [], ◌∷◌, ◌++◌, if◌then◌else◌,
  ltb, nat_beq, ◌==◌, nat_eq, list_eq, option_eq, Map, lookup, insert, remove, contains,
  contains_key, add, discard, retain,
}
use brew_server.State.{
  ClientId, CallId, Inner, FedState, Client, ConnVersion, as_u8, Subscriber, Advert, ActiveCall,
  CallKind, is_group, group, private, Send, SdsRoute,
}
use brew_server.Protocol.{
  call_group_idle, call_release, cause_swmi_requested_disconnection, build_call_cause,
}
use brew_server.Fedroute.Table.{is_empty, reroute, withdraw_offer}
use brew_server.Fedroute.Publish.{sorted, publish}

-- The new state, and whether the version rose.
unfoldable pub promote_client_version : Inner → ClientId → ConnVersion → Inner × Bool
promote_client_version inner id observed = elim (lookup id inner.clients) [
  | none ↦ (inner, false)
  | some client ↦
      if ltb (as_u8 client.version) (as_u8 observed)
      then (
        record inner { clients = insert id (record client { version = observed }) inner.clients },
        true,
      )
      else (inner, false)
]

-- The ISSIs routed over the connection, and those that it offered.
unfoldable pub owned : ClientId → Map ℕ Subscriber → List ℕ
owned id [] = []
owned id ((issi, sub) ∷ subs) =
    let rest = owned id subs in if sub.client_id == id then issi ∷ rest else rest

unfoldable pub offered_by : ClientId → Map ℕ (Map ClientId Advert) → List ℕ
offered_by id [] = []
offered_by id ((issi, offers) ∷ rib) =
    let rest = offered_by id rib in if contains_key id offers then issi ∷ rest else rest

-- `Vec::dedup`.
unfoldable pub dedup : List ℕ → List ℕ
dedup [] = []
dedup (x ∷ xs) = elim (dedup xs) [
  | [] ↦ x ∷ []
  | y ∷ ys ↦ if nat_beq x y then y ∷ ys else x ∷ y ∷ ys
]

unfoldable pub affected : Inner → ClientId → Bool → List ℕ
affected inner id negotiated = dedup (
    sorted
      (owned id inner.subscribers ++ (if negotiated then offered_by id inner.fed.rib_in else [])))

-- Each affected ISSI with its entry.
unfoldable pub previous : Inner → List ℕ → List (ℕ × Option Subscriber)
previous inner [] = []
previous inner (issi ∷ issis) = (issi, lookup issi inner.subscribers) ∷ previous inner issis

abbrev pub is_over : ClientId → Option Subscriber → Bool
is_over id none = false
is_over id (some s) = s.client_id == id

-- The loop that drops the connection's own offers and entries.
unfoldable pub drop_own : ClientId → List (ℕ × Option Subscriber) → Inner → Inner
drop_own id [] inner = inner
drop_own id ((issi, old) ∷ rest) inner =
    let stored = (withdraw_offer inner issi id).0 in
    drop_own id rest (
      if is_over id old
      then record stored { subscribers = remove issi stored.subscribers }
      else stored)

-- The bulk removal from the groups.
unfoldable pub drop_member : ClientId → Map ℕ (List ClientId) → Map ℕ (List ClientId)
drop_member id [] = []
drop_member id ((g, members) ∷ groups) =
    let rest = drop_member id groups in
    if is_empty (discard id members) then rest else (g, discard id members) ∷ rest

unfoldable pub reroute_all : List (ℕ × Option Subscriber) → Inner → Inner × List Send
reroute_all [] inner = (inner, [])
reroute_all ((issi, old) ∷ rest) inner =
    let after = (reroute inner issi).0 in
    let (final, sends) = reroute_all rest after in (final, (publish after issi old).0 ++ sends)

-- The calls, the floors, the notices to the other parties, and the calls that ended.
pub record Ended : Type 0 where
  pub calls : Map CallId ActiveCall
  pub group_floor : Map ℕ CallId
  pub notices : List Send
  pub ended : List CallId

abbrev pub ends : ClientId → ActiveCall → Bool
ends id call = call.owner == id || not (is_group call.kind) && contains call.peers id

abbrev pub recipients : ClientId → ActiveCall → List ClientId
recipients id call =
    discard id (if is_group call.kind then call.peers else add call.owner call.peers)

unfoldable pub tell : Map ClientId Client → List ℕ → List ClientId → List Send
tell clients msg [] = []
tell clients msg (c ∷ cs) =
    let rest = tell clients msg cs in if contains_key c clients then (c, msg) ∷ rest else rest

-- The loop over the calls: a group call that only loses a listener goes on.
unfoldable pub end_calls :
    ClientId → Map ClientId Client → Map CallId ActiveCall → Map ℕ CallId → Ended
end_calls id clients [] floor = record { calls = []; group_floor = floor; notices = []; ended = [] }
end_calls id clients ((uuid, call) ∷ calls) floor =
    let freed =
      if ends id call && is_group call.kind && lookup call.destination floor == some uuid
      then remove call.destination floor
      else floor in
    let rest = end_calls id clients calls freed in
    let end_state = if is_group call.kind then call_group_idle else call_release in
    let msg = build_call_cause end_state uuid cause_swmi_requested_disconnection in
    if ends id call
    then record rest {
      notices = tell clients msg (recipients id call) ++ rest.notices;
      ended = uuid ∷ rest.ended;
    }
    else record rest { calls = (uuid, record call { peers = discard id call.peers }) ∷ rest.calls }

abbrev pub keeps_sds : ClientId → SdsRoute → Bool
keeps_sds id route = not (route.source_client == id) && not (contains route.targets id)

pub record Cleanup : Type 0 where
  pub inner : Inner
  pub sends : List Send
  pub ended : List CallId

-- The first part: the connection leaves every table, and its ISSIs are routed anew.
unfoldable pub reroute_away : Inner → ClientId → Inner × List Send
reroute_away inner id =
    let fed = inner.fed in
    let gone = record inner {
      clients = remove id inner.clients;
      consoles = discard id inner.consoles;
      fed = record fed {
        links = remove id fed.links;
        bts_links = discard id fed.bts_links;
        ms_links = discard id fed.ms_links;
        em_links = discard id fed.em_links;
      };
    } in
    let entries = previous gone (affected gone id (contains_key id fed.links)) in
    let dropped = drop_own id entries gone in
    reroute_all entries (record dropped { group_clients = drop_member id dropped.group_clients })

unfoldable pub cleanup_client : Inner → ClientId → Cleanup
cleanup_client inner id =
    let (routed, sends) = reroute_away inner id in
    let calls = end_calls id routed.clients routed.calls routed.group_floor in
    record {
      inner = record routed {
        calls = calls.calls;
        group_floor = calls.group_floor;
        sds_routes = retain (λ _ route. keeps_sds id route) routed.sds_routes;
        recent_calls = retain (λ _ noted. not (noted.0 == id)) routed.recent_calls;
      };
      sends = sends ++ calls.notices;
      ended = calls.ended;
    }
