-- ===== src/Sms.antt =====
-- The SMS Center (src/sms_center.rs): store and forward for SDS to an ISSI that is not registered.
-- Here its settings (src/config.rs), its queue and the set of known ISSIs. Each operation takes
-- the settings, which do not change. What a change writes to the file is outside the model; the
-- counter of changes that HA replication reads is in it.
pub mod Payload
pub mod Queue
pub mod Lists
pub mod Limits
pub mod Spec
pub mod Replica
pub mod Steps
pub mod Reach
pub mod Splits
pub mod Sweep
mod Tests
use brew_server.Common.{
  ℕ, ◌+◌, ◌-◌, ◌*◌, ◌%◌, ◌^◌, min, Bool, false, not, ◌&&◌, ◌||◌, Option, List, [], ◌∷◌,
  if◌then◌else◌, ◌==◌, nat_eq, Text, contains,
}

pub record SmsCenterConfig : Type 0 where
  pub enabled : Bool
  pub message_ttl_seconds : ℕ
  pub only_known_destinations : Bool
  pub exclude_protocol_ids : List ℕ
  pub max_messages_per_destination : ℕ
  pub max_messages_total : ℕ
  pub retry_interval_seconds : ℕ
  pub ack_timeout_seconds : ℕ
  pub max_attempts : ℕ

pub record StoredSms : Type 0 where
  pub id : ℕ
  pub source_issi : ℕ
  pub destination : ℕ
  pub length_bits : ℕ
  pub data_hex : Text
  pub text : Option Text
  pub stored_at_ms : ℕ
  pub expires_at_ms : ℕ
  pub attempts : ℕ
  pub last_attempt_ms : Option ℕ
  pub in_flight : Option ℕ

pub record SmsCenter : Type 0 where
  pub known_issis : List ℕ
  pub messages : List StoredSms
  pub revision : ℕ

-- What is kept in the file, and what the peer is sent.
pub record SmsFile : Type 0 where
  pub version : ℕ
  pub known_issis : List ℕ
  pub messages : List StoredSms

abbrev pub max_u64 : ℕ
max_u64 = 2 ^ 64 - 1

-- Seconds in ms, by `saturating_mul(1000)`.
abbrev pub seconds : ℕ → ℕ
seconds s = min (s * 1000) max_u64

-- The count of changes; the write of the file is outside.
abbrev pub persist : SmsCenter → SmsCenter
persist center = record center { revision = (center.revision + 1) % 2 ^ 64 }

unfoldable pub note_known : SmsCenterConfig → SmsCenter → ℕ → SmsCenter
note_known cfg center issi =
    if not cfg.enabled || contains center.known_issis issi
    then center
    else persist (record center { known_issis = issi ∷ center.known_issis })

unfoldable pub wants : SmsCenterConfig → SmsCenter → ℕ → Bool
wants cfg center destination =
    cfg.enabled && (not cfg.only_known_destinations || contains center.known_issis destination)

unfoldable pub any_for : ℕ → List StoredSms → Bool
any_for issi [] = false
any_for issi (m ∷ ms) = m.destination == issi || any_for issi ms

unfoldable pub has_pending_for : SmsCenterConfig → SmsCenter → ℕ → Bool
has_pending_for cfg center issi = cfg.enabled && any_for issi center.messages
