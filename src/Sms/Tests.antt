-- ===== src/Sms/Tests.antt =====
-- Concrete runs of the SMS Center.
use brew_server.Common.{
  ℕ, suc, ◌+◌, ◌*◌, ◌≤◌, ◌<◌, ◌≡◌, refl, true, Option, none, some, List, [], ◌∷◌, ◌++◌, take, drop,
  get_elem?, length, All,
}
use brew_server.Sms.{SmsCenterConfig, StoredSms, SmsCenter}
use brew_server.Sms.Lists.{count, oldest, update_at}
use brew_server.Sms.Lists.Facts.{IsOldest}
use brew_server.Sms.Payload.{text_preview, hex_encode, sds_tl_info, tl_info}
use brew_server.Sms.Queue.{
  store, take_next_due, on_report, sweep, delete, is_due, attempted, is_for,
}
use brew_server.Sms.Limits.{Tried}
use brew_server.Sms.Sweep.{sweep-Splits}
use brew_server.Sms.Splits.{Splits}
use brew_server.Sms.Spec.{take_next_due-IsOldest, report_completes}
use brew_server.Sms.Steps.{acts, stores, delivers, deletes, step-Counted, Counted}
use brew_server.Sms.Reach.{empty_queue, then_step, takes_over, reached_within_limits, ReadsBack}
use brew_server.Sms.Replica.{import_queue, export_queue}
use brew_server.Sms.{SmsFile}

abbrev settings : SmsCenterConfig
settings = record {
  enabled = true;
  message_ttl_seconds = 3600;
  only_known_destinations = true;
  exclude_protocol_ids = 10 ∷ [];
  max_messages_per_destination = 2;
  max_messages_total = 3;
  retry_interval_seconds = 60;
  ack_timeout_seconds = 30;
  max_attempts = 2;
}

abbrev nothing_queued : SmsCenter
nothing_queued = record { known_issis = 2002 ∷ []; messages = []; revision = 1 }

-- "Hi" as simple text.
abbrev hi : List ℕ
hi = 2 ∷ 1 ∷ 72 ∷ 105 ∷ []

preview : text_preview hi ≡ some (72 ∷ 105 ∷ [])
unfolding text_preview
preview = refl

hex : hex_encode (10 ∷ 255 ∷ []) ≡ 48 ∷ 97 ∷ 102 ∷ 102 ∷ []
unfolding hex_encode
hex = refl

header : sds_tl_info (130 ∷ 4 ∷ 9 ∷ []) ≡ some (tl_info 130 4 9)
unfolding sds_tl_info
header = refl

abbrev at_second : ℕ → ℕ → StoredSms
at_second id s = record {
  id = id;
  source_issi = 1001;
  destination = 2002;
  length_bits = 32;
  data_hex = hex_encode hi;
  text = text_preview hi;
  stored_at_ms = s * 1000;
  expires_at_ms = s * 1000 + 3600000;
  attempts = 0;
  last_attempt_ms = none;
  in_flight = none;
}

abbrev queued : SmsCenter
queued = record nothing_queued { messages = at_second 8 20 ∷ at_second 7 10 ∷ [] }

abbrev attempt_made : Option StoredSms
attempt_made = some (attempted 50 30000 (at_second 7 10))

first_queued : get_elem? queued.messages 0 ≡ some (at_second 8 20)
first_queued = refl

take_next_due-IsOldest_example :
    let after = take_next_due settings queued 2002 true 50 30000 in
    (i : ℕ) × (m : StoredSms) × IsOldest (is_due settings 2002 true 30000) queued.messages i m
    × (after.1 ≡ some (attempted 50 30000 m))
    × (after.0.messages ≡ update_at i (attempted 50 30000) queued.messages)
take_next_due-IsOldest_example =
    take_next_due-IsOldest settings queued 2002 true 50 30000 0 (at_second 8 20) refl refl refl

older_taken : (take_next_due settings queued 2002 true 50 30000).1 ≡ attempt_made
unfolding take_next_due oldest
older_taken = refl

report_completes_example :
    let out = attempted 50 30000 (at_second 7 10) in
    let reported = on_report (take_next_due settings queued 2002 true 50 30000).0 50 in
    (reported.1 ≡ some out)
    × ((i : ℕ) × (m : StoredSms) × (get_elem? queued.messages i ≡ some m)
        × (out ≡ attempted 50 30000 m)
        × (reported.0.messages ≡ take i queued.messages ++ drop (suc i) queued.messages))
report_completes_example =
    report_completes settings queued 2002 true 50 30000 (attempted 50 30000 (at_second 7 10))
      (refl, (refl, tt)) older_taken

sweep-Splits_example :
    let swept = sweep settings queued 3615000 in
    Splits settings 3615000 queued.messages swept.0.messages swept.1.expired swept.1.failed
    × (length swept.0.messages + length swept.1.expired + length swept.1.failed
        ≡ length queued.messages)
sweep-Splits_example = sweep-Splits settings queued 3615000 refl

-- A text of an empty queue: the version and the known ISSIs. Longer queues it does not write.
abbrev plain_to_json : SmsFile → Option (List ℕ)
plain_to_json file = elim file.messages [
  | [] ↦ some (file.version ∷ file.known_issis)
  | (m ∷ ms) ↦ none
]

abbrev plain_of_json : List ℕ → Option SmsFile
plain_of_json [] = none
plain_of_json (v ∷ known) = some (record { version = v; known_issis = known; messages = [] })

abbrev imported : SmsCenter
imported =
    (import_queue plain_of_json (record { known_issis = []; messages = []; revision = 1 })
      (export_queue plain_to_json nothing_queued)).0

plain-written :
    (version : ℕ) (known : List ℕ) (messages : List StoredSms) (json : List ℕ)
    → plain_to_json (record { version = version; known_issis = known; messages = messages })
      ≡ some json
    → plain_of_json json
      ≡ some (record { version = version; known_issis = known; messages = messages })
plain-written version known [] json e = let same : version ∷ known ≡ json = cc in rw (← same) refl
plain-written version known (m ∷ ms) json e = absurd cc

plain-ReadsBack : ReadsBack plain_to_json plain_of_json
plain-ReadsBack = record {
  written = λ file json e. plain-written file.version file.known_issis file.messages json e;
  empty = refl;
}

step-Counted_example : Counted queued (delete queued 7).0
step-Counted_example =
    step-Counted plain_of_json settings queued (delete queued 7).0 (acts (deletes 7))

abbrev one_stored : SmsCenter
one_stored = (store settings imported 7 1001 2002 32 hi 10000).0

abbrev one_sent : SmsCenter
one_sent = (take_next_due settings one_stored 2002 true 50 30000).0

reached_within_limits_example :
    (length one_sent.messages ≤ settings.max_messages_total)
    × ((d : ℕ) → count (is_for d) one_sent.messages ≤ settings.max_messages_per_destination)
    × (0 < settings.max_attempts → All (Tried settings) one_sent.messages)
reached_within_limits_example =
    reached_within_limits plain_to_json plain_of_json settings one_sent plain-ReadsBack (
      then_step
        (then_step (takes_over (empty_queue [] 1) (empty_queue (2002 ∷ []) 1))
          (stores 7 1001 2002 32 hi 10000))
        (delivers 2002 true 50 30000))
