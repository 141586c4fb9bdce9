-- ===== src/Router/Sds.antt =====
-- Short messages (src/router.rs): the header, the payload, and the report of a delivery. Positions
-- found in them go to telemetry, the peers and APRS, and the SMS Center stores what is in `store`:
-- these are other parts' steps.
pub mod Once
use brew_server.Common.{
  ℕ, ◌-◌, Bool, true, false, not, ◌&&◌, ◌||◌, Option, none, some, List, [], ◌∷◌, ◌++◌,
  if◌then◌else◌, ltb, nat_beq, ◌==◌, nat_eq, list_eq, pair_eq, Map, lookup, insert, remove,
  contains, contains_key, add, discard, length, get_elem?,
}
use brew_server.State.{ClientId, CallId, Client, Inner, SdsRoute, Send, Subscriber}
use brew_server.Protocol.Parse.{
  CallPayload, group_transmission, circular_call, cause, empty, short_transfer, raw_payload,
}
use brew_server.Fedroute.Dedup.{note_call, call_dedup_window}
use brew_server.Fedroute.Table.{is_empty, members}
use brew_server.Router.Group.{copied}
use brew_server.Connections.{tell}
use brew_server.Router.{Env, is_blocked, is_peer, extend}

-- What a handler of short messages does: `store` is the source and destination ISSI of a message for
-- the SMS Center.
pub record SdsOutcome : Type 0 where
  pub inner : Inner
  pub sends : List Send
  pub store : Option (ℕ × ℕ)

abbrev pub silent : Inner → SdsOutcome
silent inner = record { inner = inner; sends = []; store = none }

unfoldable pub sds_targets : Inner → ClientId → ℕ → List ClientId
sds_targets inner source destination =
    let one : List ClientId = elim (lookup destination inner.subscribers) [
      | none ↦ []
      | some sub ↦ sub.client_id ∷ []
    ] in
    discard source (extend one (members destination inner.group_clients))

-- The second part of the handler, which takes the lock again: the route, and the header unless it is
-- held.
unfoldable pub route_sds : Env → Inner → ClientId → CallId → ℕ → ℕ → List ℕ → SdsOutcome
unfolding sds_targets
route_sds env inner source id source_issi destination raw =
    let lip_only = is_blocked env source_issi || is_blocked env destination in
    let targets = sds_targets inner source destination in
    let store_offline =
      not lip_only
      && is_empty targets
      && not (contains_key destination inner.group_clients)
      && env.sms_center_wants destination in
    let route : SdsRoute = record {
      source_client = source;
      targets = targets;
      source_issi = source_issi;
      destination = destination;
      created_at = env.now;
      store_offline = store_offline;
      lip_only = lip_only;
      held_header = if lip_only then some raw else none;
    } in
    record {
      inner = record inner { sds_routes = insert id route inner.sds_routes };
      sends = if lip_only then [] else tell inner.clients raw targets;
      store = none;
    }

unfoldable pub handle_sds_header :
    Env → Inner → ClientId → CallId → CallPayload → List ℕ → SdsOutcome
unfolding route_sds note_call
handle_sds_header env inner source id payload raw = elim payload [
  | short_transfer source_issi destination ↦
      if copied env inner source id source_issi
      then silent inner
      else route_sds env (note_call inner id source_issi source env.now) source id source_issi
          destination raw
  | group_transmission gt ↦ silent inner
  | circular_call c ↦ silent inner
  | cause c ↦ silent inner
  | empty ↦ silent inner
  | raw_payload bytes ↦ silent inner
]

-- The protocol id is that of a LIP report.
unfoldable pub is_lip : List ℕ → Bool
is_lip raw = elim (get_elem? raw 20) [ none ↦ false | some pid ↦ pid == 0x0a || pid == 0x83 ]

-- Some copy of the message came over another link lately.
unfoldable pub noted_elsewhere : ClientId → CallId → ℕ → Map (CallId × ℕ) (ClientId × ℕ) → Bool
noted_elsewhere source id now [] = false
noted_elsewhere source id now (((call, issi), (link, at)) ∷ rest) =
    call == id && not (link == source) && ltb (now - at) call_dedup_window
    || noted_elsewhere source id now rest

-- The payload from the connection that sent the header.
unfoldable pub pass_sds : Inner → CallId → SdsRoute → List ℕ → SdsOutcome
pass_sds inner id route raw =
    let held : List Send = elim route.held_header [
      | none ↦ []
      | some header ↦ tell inner.clients header route.targets
    ] in
    let after = record route { store_offline = false; held_header = none } in
    record {
      inner = record inner { sds_routes = insert id after inner.sds_routes };
      sends = held ++ tell inner.clients raw route.targets;
      store = if route.store_offline then some (route.source_issi, route.destination) else none;
    }

unfoldable pub handle_sds_transfer : Env → Inner → ClientId → CallId → List ℕ → SdsOutcome
unfolding pass_sds
handle_sds_transfer env inner source id raw = elim (lookup id inner.sds_routes) [
  | none ↦ silent inner
  | some route ↦
      if route.source_client == source
      then if route.lip_only && not (is_lip raw)
        then silent (record inner { sds_routes = remove id inner.sds_routes })
        else pass_sds inner id route raw
      else silent inner
]

-- Whether a position in the payload is believed, and of which ISSI.
unfoldable pub position_source : Env → Inner → ClientId → CallId → List ℕ → Option ℕ
unfolding noted_elsewhere
position_source env inner source id raw = elim (lookup id inner.sds_routes) [
  | none ↦
      if is_peer inner source && noted_elsewhere source id env.now inner.recent_calls
      then none
      else some 0
  | some route ↦
      if route.source_client == source && not (route.lip_only && not (is_lip raw))
      then some route.source_issi
      else none
]

unfoldable pub handle_sds_report : Inner → ClientId → CallId → List ℕ → SdsOutcome
handle_sds_report inner source id raw = elim (lookup id inner.sds_routes) [
  | none ↦ silent inner
  | some route ↦
      if not (contains route.targets source)
      then silent inner
      else let routes =
          if nat_beq (length route.targets) 1
          then remove id inner.sds_routes
          else inner.sds_routes in
        record {
          inner = record inner { sds_routes = routes };
          sends = tell inner.clients raw (route.source_client ∷ []);
          store = none;
        }
]
