-- ===== src/Sms/Reach.antt =====
-- The queue over time: the states it reaches keep its limits (src/sms_center.rs, and the import of
-- src/ha_repl.rs).
use brew_server.Common.{
  ℕ, ◌≤◌, ◌<◌, ◌≡◌, inl, inr, not, ◌||◌, Bool-cases, Option, none, some, Option-cases, List, [],
  arith, length, All, contains, nat_eq,
}
use brew_server.Sms.{SmsCenterConfig, SmsCenter, SmsFile, note_known}
use brew_server.Sms.Replica.{import_queue, export_queue}
use brew_server.Sms.Lists.{count}
use brew_server.Sms.Limits.{
  Within, Tried, store-Within, take_next_due-Within, release-Within, on_report-Within,
  delete-Within,
}
use brew_server.Sms.Sweep.{sweep-Within}
use brew_server.Sms.Queue.{is_for}
use brew_server.Sms.Steps.{OwnStep, registers, stores, delivers, releases, reports, cleans, deletes}

-- The JSON library reads back what it wrote, and refuses an empty text.
pub record ReadsBack (to_json : SmsFile → Option (List ℕ)) (of_json : List ℕ → Option SmsFile)
    : Type 0 where
  pub written :
      (file : SmsFile) (json : List ℕ) → to_json file ≡ some json → of_json json ≡ some file
  pub empty : of_json [] ≡ none

module _ (to_json : SmsFile → Option (List ℕ)) (of_json : List ℕ → Option SmsFile)
    (cfg : SmsCenterConfig) where
  -- The states of a queue that started empty: by what the node does itself, and by imports of what
  -- a peer with the same settings, whose queue started empty too, exports.
  pub data SmsReaches : SmsCenter → Type 0 where
    empty_queue :
        (known : List ℕ) (revision : ℕ)
        → SmsReaches (record { known_issis = known; messages = []; revision = revision })
    then_step :
        {center after : SmsCenter} → SmsReaches center → OwnStep cfg center after → SmsReaches after
    takes_over :
        {center peer : SmsCenter}
        → SmsReaches center
        → SmsReaches peer
        → SmsReaches (import_queue of_json center (export_queue to_json peer)).0

  note_known-Within :
      (center : SmsCenter) (issi : ℕ)
      → Within cfg center.messages
      → Within cfg (note_known cfg center issi).messages
  unfolding note_known
  note_known-Within center issi v =
      elim (Bool-cases (not cfg.enabled || contains center.known_issis issi)) [
        | inl e ↦ rw (e, note_known) v
        | inr e ↦ rw (e, note_known) v
      ]

  step-Within :
      {center after : SmsCenter}
      → OwnStep cfg center after
      → Within cfg center.messages
      → Within cfg after.messages
  step-Within {center} (registers issi) v = note_known-Within center issi v
  step-Within {center} (stores fresh s d l payload now) v =
      store-Within cfg center fresh s d l payload now v
  step-Within {center} (delivers issi force fresh now) v =
      take_next_due-Within cfg center issi force fresh now v
  step-Within {center} (releases u) v = release-Within cfg center u v
  step-Within {center} (reports u) v = on_report-Within cfg center u v
  step-Within {center} (cleans now) v = sweep-Within cfg center now v
  step-Within {center} (deletes id) v = delete-Within cfg center id v

  empty-Within : Within cfg []
  unfolding count
  empty-Within = record { total = omega arith; for_each = λ d. omega arith; tries = λ h. tt }

  import-Within :
      (center peer : SmsCenter)
      → ReadsBack to_json of_json
      → Within cfg center.messages
      → Within cfg peer.messages
      → Within cfg (import_queue of_json center (export_queue to_json peer)).0.messages
  unfolding export_queue import_queue
  import-Within center peer r v w =
      let file : SmsFile = record {
        version = 1;
        known_issis = peer.known_issis;
        messages = peer.messages;
      } in
      elim (Option-cases (to_json file)) [
        | inl n ↦ rw (n, r.empty, import_queue, export_queue) v
        | inr (json, e) ↦ rw (e, r.written file json e, import_queue, export_queue) w
      ]

  reached-Within :
      {center : SmsCenter}
      → ReadsBack to_json of_json
      → SmsReaches center
      → Within cfg center.messages
  reached-Within j (empty_queue known revision) = empty-Within
  reached-Within j (then_step r s) = step-Within s (reached-Within j r)
  reached-Within j (takes_over {center} {peer} r s) =
      import-Within center peer j (reached-Within j r) (reached-Within j s)

-- With a JSON library that reads back what it wrote and refuses an empty text, and two nodes of the same settings, each
-- starting with an empty queue: in every state, imports of the peer's queue included, the queue holds at most as many messages as the settings
-- allow, in total and for each destination, and, where the attempts are limited, no message had
-- more attempts than the limit, and one that waits for no report has an attempt left.
pub reached_within_limits :
    (to_json : SmsFile → Option (List ℕ)) (of_json : List ℕ → Option SmsFile)
    (cfg : SmsCenterConfig) (center : SmsCenter)
    → ReadsBack to_json of_json
    → SmsReaches to_json of_json cfg center
    → (length center.messages ≤ cfg.max_messages_total)
      × ((d : ℕ) → count (is_for d) center.messages ≤ cfg.max_messages_per_destination)
      × (0 < cfg.max_attempts → All (Tried cfg) center.messages)
reached_within_limits to_json of_json cfg center j r =
    let v = reached-Within to_json of_json cfg j r in (v.total, v.for_each, v.tries)
