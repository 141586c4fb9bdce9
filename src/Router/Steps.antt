-- ===== src/Router/Steps.antt =====
-- The server as a step relation: what changes the shared state, in any order (src/router.rs,
-- `handle_packet`, `emergency_raised` and `run_call_duration_sweep`; src/server.rs,
-- `client_session`; src/state.rs, `cleanup_client`; src/sip/bridge.rs).
use brew_server.Common.{
  ℕ, ◌≡◌, Bool, true, false, Option, some, List, Text, lookup, list_eq, nat_eq,
}
use brew_server.State.{ClientId, CallId, Client, Inner, ActiveCall, is_group, initial}
use brew_server.Connections.{cleanup_client}
use brew_server.Connections.Attach.{begin_session}
use brew_server.Router.{Config, Env}
use brew_server.Router.LateEntry.{emergency_raised}
use brew_server.Router.Packet.{handle_packet}
use brew_server.Router.Sip.{BridgedLeg, sip_to_private, sip_to_group, private_to_sip, teardown}
use brew_server.Router.Sweep.{sweep}

-- No call runs in the group.
abbrev pub IsQuiet : Inner → ℕ → Type 0
IsQuiet inner gssi =
    (u : CallId) (c : ActiveCall)
    → lookup u inner.calls ≡ some c
    → is_group c.kind ≡ true
    → c.destination ≡ gssi
    → ⊥

module _ (utf8 : List ℕ → Bool) (lossy : List ℕ → Text) (config : Config) where
  -- One step. The settings do not change while the server runs. The virtual connection of a bridged
  -- call is new, and a SIP caller talks to a group where no call runs.
  pub data Step (inner : Inner) : Inner → Type 0 where
    begins :
        (id : ClientId) (client : Client) (neighbour : Option ℕ) (console : Bool)
        → Step inner (begin_session inner id client neighbour console).0
    receives :
        (env : Env) (source : ClientId) (raw : List ℕ)
        → env.config ≡ config
        → Step inner (handle_packet utf8 lossy env inner source raw).inner
    alarms : (issi : ℕ) → Step inner (emergency_raised inner issi).inner
    sweeps : (env : Env) → env.config ≡ config → Step inner (sweep env inner).inner
    rings :
        (id : CallId) (virtual_client target : ClientId) (issi now : ℕ)
        → nat_eq.test target virtual_client ≡ false
        → Step inner (sip_to_private inner id virtual_client target issi now).0
    dials :
        (id : CallId) (client virtual_client : ClientId) (now : ℕ)
        → nat_eq.test virtual_client client ≡ false
        → Step inner (private_to_sip inner id client virtual_client now).0
    seizes :
        (id : CallId) (virtual_client : ClientId) (gssi : ℕ) (has_leg : Bool) (now : ℕ)
        → IsQuiet inner gssi
        → Step inner (sip_to_group config inner id virtual_client gssi has_leg now).0
    hangs_up : (leg : BridgedLeg) → Step inner (teardown inner leg).0
    ends : (id : ClientId) → Step inner (cleanup_client inner id).inner

  -- The states that a server with the id reaches.
  pub data Reaches (self_id : ℕ) : Inner → Type 0 where
    starts : Reaches self_id (initial self_id)
    goes : {inner after : Inner} → Reaches self_id inner → Step inner after → Reaches self_id after
