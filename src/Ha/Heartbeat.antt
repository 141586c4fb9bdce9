-- ===== src/Ha/Heartbeat.antt =====
-- The heartbeat of src/ha.rs: what `run` announces of its election, and what the peer's election
-- reads of it. `config_sections` (fingerprints shown on the dashboard) is a list of pairs.
use brew_server.Common.{ℕ, Bool, false, Option, none, some, List, Text}
use brew_server.Ha.Election.{Role, PeerView, Election, handover_target, takeover_requested}

pub record Heartbeat : Type 0 where
  pub node : Text
  pub boot_id : ℕ
  pub seq : ℕ
  pub ts_ms : ℕ
  pub role : Role
  pub weight : ℕ
  pub persist : Bool
  pub hold : Bool
  pub handover_to : Option Text
  pub handover_manual : Bool
  pub takeover_request : Bool
  pub config_hash : ℕ
  pub synced : Bool
  pub config_sections : Option (List (Text × ℕ))

-- `PeerView::from`.
unfoldable pub view : Heartbeat → PeerView
view h = record {
  node = h.node;
  role = h.role;
  weight = h.weight;
  persist = h.persist;
  hold = h.hold;
  handover_to = h.handover_to;
  handover_manual = h.handover_manual;
  takeover_request = h.takeover_request;
  synced = h.synced;
}

-- What `run` knows besides its election when it builds a heartbeat.
pub record Context : Type 0 where
  pub boot_id : ℕ
  pub seq : ℕ
  pub config_hash : ℕ
  pub synced : Bool
  pub config_sections : Option (List (Text × ℕ))

-- The heartbeat that `run` builds after a tick at `now_ms`. Its name and weight are those of the
-- configuration, with which the election was made.
unfoldable pub announce : Context → Election → ℕ → Heartbeat
unfolding handover_target takeover_requested
announce c e now_ms = record {
  node = e.node;
  boot_id = c.boot_id;
  seq = c.seq;
  ts_ms = now_ms;
  role = e.role;
  weight = e.weight;
  persist = e.persist;
  hold = e.hold;
  handover_to = elim (handover_target e) [ none ↦ none | some (to, manual) ↦ some to ];
  handover_manual = elim (handover_target e) [ none ↦ false | some (to, manual) ↦ manual ];
  takeover_request = takeover_requested e now_ms;
  config_hash = c.config_hash;
  synced = c.synced;
  config_sections = c.config_sections;
}

-- The last heartbeat of the peer, as the election sees it.
unfoldable pub seen : Context → Election → ℕ → PeerView
unfolding view announce
seen c e now_ms = view (announce c e now_ms)
