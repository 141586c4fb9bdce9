-- ===== src/State.antt =====
-- The shared state of the server: src/state.rs (`Client`, `Subscriber`, `ActiveCall`, `SdsRoute`,
-- `Inner`) and the records of src/fedroute.rs that `Inner` holds.
-- A connection is named by its 128-bit id, a call or an SDS by the 16 bytes of its UUID, a string
-- by its bytes, and an f64 by its bit pattern. A sender of a connection is not a value here: what
-- an operation sends is its list of packets. `digest_nonces`, `auth_sessions` and
-- `discovery_hints` are left out.
use brew_server.Common.{ℕ, Bool, true, false, Option, List, [], ◌∷◌, suc, Map, Text, if◌then◌else◌}

abbrev pub ClientId : Type 0
ClientId = ℕ

abbrev pub CallId : Type 0
CallId = List ℕ

pub data ClientMode : Type 0 where
  terminal basestation peer : ClientMode

abbrev pub is_mode : ClientMode → ClientMode → Bool
is_mode terminal terminal = true
is_mode basestation basestation = true
is_mode peer peer = true
is_mode _ _ = false

unfoldable pub wants_registration_updates : ClientMode → Bool
wants_registration_updates terminal = false
wants_registration_updates basestation = true
wants_registration_updates peer = true

-- The negotiated protocol version (src/protocol.rs, `ConnVersion`).
pub data ConnVersion : Type 0 where
  v0 v1 : ConnVersion

unfoldable pub as_u8 : ConnVersion → ℕ
as_u8 v0 = 0
as_u8 v1 = 1

unfoldable pub has_mnemonic : ConnVersion → Bool
has_mnemonic v0 = false
has_mnemonic v1 = true

pub record Client : Type 0 where
  pub mode : ClientMode
  pub version : ConnVersion
  pub version_announced : Bool
  pub remote_addr : Option Text
  pub connected_at_ms : ℕ
  pub username : Option Text

unfoldable pub forward_version : Client → ConnVersion
forward_version c = if c.version_announced then c.version else v1

-- Where an effective route leads: `path` is empty for an ISSI registered here.
pub record Route : Type 0 where
  pub reg : ℕ
  pub path : List ℕ

pub record Subscriber : Type 0 where
  pub client_id : ClientId
  pub groups : List ℕ
  pub mode : ClientMode
  pub route : Route

pub data CallKind : Type 0 where
  group private : CallKind

abbrev pub is_group : CallKind → Bool
is_group group = true
is_group private = false

pub record ActiveCall : Type 0 where
  pub kind : CallKind
  pub owner : ClientId
  pub source_issi : ℕ
  pub destination : ℕ
  pub priority : ℕ
  pub peers : List ClientId
  pub started_at : ℕ
  pub last_activity_ms : ℕ

pub record SdsRoute : Type 0 where
  pub source_client : ClientId
  pub targets : List ClientId
  pub source_issi : ℕ
  pub destination : ℕ
  pub created_at : ℕ
  pub store_offline : Bool
  pub lip_only : Bool
  pub held_header : Option (List ℕ)

-- One neighbour's offer for an ISSI: `path` starts at the neighbour and ends at the origin.
pub record Advert : Type 0 where
  pub reg : ℕ
  pub path : List ℕ
  pub groups : List ℕ

pub record LocalEm : Type 0 where
  pub dest : Option ℕ
  pub bts : Text
  pub seq : ℕ

pub record RemoteEm : Type 0 where
  pub dest : Option ℕ
  pub bts : Text
  pub active : Bool
  pub seq : ℕ
  pub path : List ℕ
  pub seen_ms : ℕ

pub record MsEntry : Type 0 where
  pub lat : ℕ
  pub lon : ℕ
  pub at_ms : ℕ
  pub station : Text
  pub path : List ℕ

pub record LocalBts : Type 0 where
  pub name : Text
  pub lat : ℕ
  pub lon : ℕ
  pub seq : ℕ

pub record RemoteBts : Type 0 where
  pub name : Text
  pub lat : ℕ
  pub lon : ℕ
  pub online : Bool
  pub seq : ℕ
  pub path : List ℕ
  pub seen_ms : ℕ

pub record FedState : Type 0 where
  pub self_id : ℕ
  pub clock : ℕ
  pub links : Map ClientId ℕ
  pub rib_in : Map ℕ (Map ClientId Advert)
  pub bts_links : List ClientId
  pub ms_links : List ClientId
  pub ms_pos : Map ℕ MsEntry
  pub em_links : List ClientId
  pub em_local : Map ℕ LocalEm
  pub em_remote : Map (ℕ × ℕ) RemoteEm
  pub bts_local : Map Text LocalBts
  pub bts_remote : Map (ℕ × Text) RemoteBts

pub record Inner : Type 0 where
  pub clients : Map ClientId Client
  pub subscribers : Map ℕ Subscriber
  pub group_clients : Map ℕ (List ClientId)
  pub calls : Map CallId ActiveCall
  pub group_floor : Map ℕ CallId
  pub group_tx_raw : Map CallId (List ℕ)
  pub sds_routes : Map CallId SdsRoute
  pub recent_calls : Map (CallId × ℕ) (ClientId × ℕ)
  pub fed : FedState
  pub consoles : List ClientId

-- A packet on its way to a connection.
abbrev pub Send : Type 0
Send = ClientId × List ℕ

-- `ms_registration_count` and `basestation_count`.
unfoldable pub ms_registration_count : Map ℕ Subscriber → ℕ
ms_registration_count [] = 0
ms_registration_count ((issi, s) ∷ m) =
    let n = ms_registration_count m in if is_mode s.mode terminal then suc n else n

unfoldable pub basestation_count : Map ClientId Client → ℕ
basestation_count [] = 0
basestation_count ((id, c) ∷ m) =
    let n = basestation_count m in if is_mode c.mode basestation then suc n else n

-- `Inner::default` and `FedState::default`, with the server id that was drawn.
unfoldable pub initial : ℕ → Inner
initial self_id = record {
  clients = [];
  subscribers = [];
  group_clients = [];
  calls = [];
  group_floor = [];
  group_tx_raw = [];
  sds_routes = [];
  recent_calls = [];
  fed = record {
    self_id = self_id;
    clock = 0;
    links = [];
    rib_in = [];
    bts_links = [];
    ms_links = [];
    ms_pos = [];
    em_links = [];
    em_local = [];
    em_remote = [];
    bts_local = [];
    bts_remote = [];
  };
  consoles = [];
}
