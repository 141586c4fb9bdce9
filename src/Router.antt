-- ===== src/Router.antt =====
-- The packet router (src/router.rs): what its handlers share, and what the rest of the server
-- tells them. The state is `Inner`; a handler's result is the new state, the packets it sends in
-- order, and the calls that ended, which the caller tells the dashboard and the SIP bridge.
pub mod Group
pub mod Calls
pub mod Floor
pub mod Private
pub mod LateEntry
pub mod Sds
pub mod Subscribers
pub mod Sweep
pub mod Packet
pub mod Sip
pub mod Steps
pub mod Voice
pub mod LateCopy
pub mod Tables
mod Tests
use brew_server.Common.{
  ℕ, Bool, true, false, not, ◌&&◌, ◌||◌, Option, none, some, List, [], ◌∷◌, ◌++◌, if◌then◌else◌,
  Text, zero, suc, leb, ◌==◌, nat_eq, list_eq, Map, lookup, contains, contains_key, add, retain,
}
use brew_server.State.{ClientId, CallId, Client, ClientMode, is_mode, peer, Inner, ActiveCall, Send}

-- The settings that the router reads (src/config.rs).
pub record Config : Type 0 where
  pub allow_multiple_calls_per_group : Bool
  pub higher_priority_number_wins : Bool
  pub preempt_cause : ℕ
  pub route_without_affiliations : Bool
  pub fallback_broadcast_when_no_affiliations : Bool
  pub max_call_duration_seconds : ℕ
  pub call_inactivity_timeout_seconds : ℕ

-- What the router asks other parts: the blacklist as enforced now, the ISSIs with an alarm
-- (`TelemetryState::is_emergency`), the destinations that the SMS Center keeps messages for
-- (`SmsCenter::wants`), whether the SIP bridge takes a set-up that names an ISSI, a number and a
-- destination, and the clock in ms.
pub record Env : Type 0 where
  pub config : Config
  pub blocked : List ℕ
  pub is_emergency : ℕ → Bool
  pub sms_center_wants : ℕ → Bool
  pub brew_to_sip : CallId → ℕ → Text → ℕ → Bool
  pub now : ℕ

pub record Outcome : Type 0 where
  pub inner : Inner
  pub sends : List Send
  pub ended : List CallId

abbrev pub quiet : Inner → Outcome
quiet inner = record { inner = inner; sends = []; ended = [] }

-- `AppState::is_blocked` (src/state.rs).
abbrev pub is_blocked : Env → ℕ → Bool
is_blocked env issi = contains env.blocked issi

abbrev pub ambience_listening_service : ℕ
ambience_listening_service = 9

abbrev pub group_tx_priority_at : ℕ
group_tx_priority_at = 26

abbrev pub emergency_priority : ℕ
emergency_priority = 15

unfoldable pub is_emergency_call : Env → ℕ → ℕ → Bool
is_emergency_call env source_issi priority =
    leb emergency_priority priority || env.is_emergency source_issi

-- `if let Some(p) = out.get_mut(i) { *p = b }`.
unfoldable pub set_byte : ℕ → ℕ → List ℕ → List ℕ
set_byte i b [] = []
set_byte zero b (x ∷ xs) = b ∷ xs
set_byte (suc i) b (x ∷ xs) = x ∷ set_byte i b xs

unfoldable pub with_emergency_priority : List ℕ → List ℕ
unfolding set_byte
with_emergency_priority raw = set_byte group_tx_priority_at emergency_priority raw

unfoldable pub is_peer : Inner → ClientId → Bool
is_peer inner client = elim (lookup client inner.clients) [
  | none ↦ false
  | some c ↦ is_mode c.mode peer
]

-- The connections of federation peers.
unfoldable pub peer_links : Map ClientId Client → List ClientId
peer_links [] = []
peer_links ((id, c) ∷ clients) =
    let rest = peer_links clients in if is_mode c.mode peer then id ∷ rest else rest

-- `HashSet::extend`.
unfoldable pub extend : List ClientId → List ClientId → List ClientId
extend xs [] = xs
extend xs (y ∷ ys) = add y (extend xs ys)

-- `iter().filter(p)`.
unfoldable pub only : (ClientId → Bool) → List ClientId → List ClientId
only p [] = []
only p (x ∷ xs) = let rest = only p xs in if p x then x ∷ rest else rest

-- A packet of its own to each of the connections that is still there.
unfoldable pub fan_out :
    Map ClientId Client → (ClientId → Client → List ℕ) → List ClientId → List Send
fan_out clients packet [] = []
fan_out clients packet (id ∷ ids) =
    let rest = fan_out clients packet ids in
    elim (lookup id clients) [ none ↦ rest | some c ↦ (id, packet id c) ∷ rest ]

-- The set-up packets of the calls that still run.
abbrev pub running_headers : Map CallId ActiveCall → Map CallId (List ℕ) → Map CallId (List ℕ)
running_headers calls headers = retain (λ id _. contains_key id calls) headers
