-- ===== src/Sms/Queue.antt =====
-- The operations on the queue (src/sms_center.rs, `SmsCenter`). A fresh UUID is an argument.
-- `sweep` is one pass over the messages, as the loop is.
use brew_server.Common.{
  ℕ, ◌+◌, ◌-◌, ◌/◌, ◌%◌, ◌^◌, min, Bool, true, false, not, ◌&&◌, ◌||◌, Option, none, some, List, [],
  ◌∷◌, ◌++◌, if◌then◌else◌, ltb, leb, nat_beq, ◌==◌, nat_eq, list_eq, Text, length, contains, add,
}
use brew_server.Sms.{SmsCenterConfig, StoredSms, SmsCenter, max_u64, seconds, persist}
use brew_server.Sms.Payload.{text_preview, hex_encode}
use brew_server.Sms.Lists.{count, find, update_first, remove_first, update_at, oldest, filter}

-- Why an SDS is not queued; the source names the reason in words.
pub data SkipReason : Type 0 where
  disabled empty_payload excluded_protocol_id length_exceeds_payload : SkipReason

pub data StoreOutcome : Type 0 where
  stored duplicate : StoredSms → StoreOutcome
  queue_full : StoreOutcome
  skipped : SkipReason → StoreOutcome

abbrev pub duplicate_window_ms : ℕ
duplicate_window_ms = 60000

-- The same SDS, queued less than a minute ago.
abbrev pub is_retransmission : ℕ → ℕ → Text → ℕ → StoredSms → Bool
is_retransmission source_issi destination data_hex now m =
    m.source_issi == source_issi
    && m.destination == destination
    && m.data_hex == data_hex
    && ltb (now - m.stored_at_ms) duplicate_window_ms

abbrev pub is_for : ℕ → StoredSms → Bool
is_for destination m = m.destination == destination

abbrev pub is_full : SmsCenterConfig → SmsCenter → ℕ → Bool
is_full cfg center destination =
    leb cfg.max_messages_per_destination (count (is_for destination) center.messages)
    || leb cfg.max_messages_total (length center.messages)

-- The checks before the queue is read.
unfoldable pub refusal : SmsCenterConfig → ℕ → List ℕ → Option SkipReason
refusal cfg length_bits [] = if not cfg.enabled then some disabled else some empty_payload
refusal cfg length_bits (pid ∷ rest) =
    if not cfg.enabled
    then some disabled
    else if contains cfg.exclude_protocol_ids pid
    then some excluded_protocol_id
    else if ltb (length (pid ∷ rest)) ((length_bits + 7) / 8)
    then some length_exceeds_payload
    else none

unfoldable pub new_message : SmsCenterConfig → ℕ → ℕ → ℕ → ℕ → List ℕ → ℕ → StoredSms
new_message cfg fresh source_issi destination length_bits payload now = record {
  id = fresh;
  source_issi = source_issi;
  destination = destination;
  length_bits = length_bits;
  data_hex = hex_encode payload;
  text = text_preview payload;
  stored_at_ms = now;
  expires_at_ms = min (now + seconds cfg.message_ttl_seconds) max_u64;
  attempts = 0;
  last_attempt_ms = none;
  in_flight = none;
}

unfoldable pub store :
    SmsCenterConfig → SmsCenter → ℕ → ℕ → ℕ → ℕ → List ℕ → ℕ → SmsCenter × StoreOutcome
unfolding new_message refusal
store cfg center fresh source_issi destination length_bits payload now =
    elim (refusal cfg length_bits payload) [
      | some reason ↦ (center, skipped reason)
      | none ↦
          elim (find (is_retransmission source_issi destination (hex_encode payload) now)
            center.messages) [
              | some existing ↦ (center, duplicate existing)
              | none ↦
                  if is_full cfg center destination
                  then (center, queue_full)
                  else let msg =
                      new_message cfg fresh source_issi destination length_bits payload now in
                    (persist (record center { messages = center.messages ++ msg ∷ [] }), stored msg)
            ]
    ]

-- Whether the last attempt is `wait` ms ago, or there was none.
abbrev pub waited : ℕ → ℕ → StoredSms → Bool
waited wait now m = elim m.last_attempt_ms [ none ↦ true | some t ↦ leb wait (now - t) ]

abbrev pub not_in_flight : StoredSms → Bool
not_in_flight m = elim m.in_flight [ none ↦ true | some _ ↦ false ]

abbrev pub is_due : SmsCenterConfig → ℕ → Bool → ℕ → StoredSms → Bool
is_due cfg issi force now m =
    m.destination == issi
    && not_in_flight m
    && ltb now m.expires_at_ms
    && (force || waited (seconds cfg.retry_interval_seconds) now m)

abbrev pub attempted : ℕ → ℕ → StoredSms → StoredSms
attempted fresh now m = record m {
  in_flight = some fresh;
  attempts = (m.attempts + 1) % 2 ^ 32;
  last_attempt_ms = some now;
}

unfoldable pub take_next_due :
    SmsCenterConfig → SmsCenter → ℕ → Bool → ℕ → ℕ → SmsCenter × Option StoredSms
take_next_due cfg center issi force fresh now =
    if not cfg.enabled
    then (center, none)
    else elim (oldest (is_due cfg issi force now) center.messages) [
      | none ↦ (center, none)
      | some (i, m) ↦ (
        persist (record center { messages = update_at i (attempted fresh now) center.messages }),
        some (attempted fresh now m),
      )
    ]

unfoldable pub destinations : List StoredSms → List ℕ
destinations [] = []
destinations (m ∷ ms) = add m.destination (destinations ms)

unfoldable pub due_destinations : SmsCenterConfig → SmsCenter → ℕ → List ℕ
unfolding destinations
due_destinations cfg center now =
    if not cfg.enabled
    then []
    else destinations (
        filter (λ m. not_in_flight m && waited (seconds cfg.retry_interval_seconds) now m)
          center.messages)

abbrev pub is_attempt : ℕ → StoredSms → Bool
is_attempt brew_uuid m = elim m.in_flight [ none ↦ false | some u ↦ u == brew_uuid ]

abbrev pub released : StoredSms → StoredSms
released m = record m { in_flight = none; attempts = m.attempts - 1 }

unfoldable pub release : SmsCenter → ℕ → SmsCenter
release center brew_uuid = elim (find (is_attempt brew_uuid) center.messages) [
  | none ↦ center
  | some _ ↦
      persist
        (record center { messages = update_first (is_attempt brew_uuid) released center.messages })
]

unfoldable pub on_report : SmsCenter → ℕ → SmsCenter × Option StoredSms
on_report center brew_uuid = elim (find (is_attempt brew_uuid) center.messages) [
  | none ↦ (center, none)
  | some msg ↦ (
    persist (record center { messages = remove_first (is_attempt brew_uuid) center.messages }),
    some msg,
  )
]

pub record Swept : Type 0 where
  pub keep : List StoredSms
  pub expired : List StoredSms
  pub failed : List StoredSms
  pub changed : Bool

-- An attempt whose report never arrived.
abbrev pub is_lost : SmsCenterConfig → ℕ → StoredSms → Bool
is_lost cfg now m = not (not_in_flight m) && waited (seconds cfg.ack_timeout_seconds) now m

abbrev pub free_lost : SmsCenterConfig → ℕ → StoredSms → StoredSms
free_lost cfg now m = if is_lost cfg now m then record m { in_flight = none } else m

abbrev pub has_expired : ℕ → StoredSms → Bool
has_expired now m = not_in_flight m && leb m.expires_at_ms now

abbrev pub gives_up : SmsCenterConfig → StoredSms → Bool
gives_up cfg m = not_in_flight m && ltb 0 cfg.max_attempts && leb cfg.max_attempts m.attempts

unfoldable pub sweep_all : SmsCenterConfig → ℕ → List StoredSms → Swept
sweep_all cfg now [] = record { keep = []; expired = []; failed = []; changed = false }
sweep_all cfg now (m ∷ ms) =
    let rest = sweep_all cfg now ms in
    let one = free_lost cfg now m in
    if has_expired now one
    then record rest { expired = one ∷ rest.expired; changed = true }
    else if gives_up cfg one
    then record rest { failed = one ∷ rest.failed; changed = true }
    else record rest { keep = one ∷ rest.keep; changed = is_lost cfg now m || rest.changed }

unfoldable pub sweep : SmsCenterConfig → SmsCenter → ℕ → SmsCenter × Swept
unfolding sweep_all
sweep cfg center now =
    if not cfg.enabled
    then (center, record { keep = []; expired = []; failed = []; changed = false })
    else let swept = sweep_all cfg now center.messages in
      let after = record center { messages = swept.keep } in
      (if swept.changed then persist after else after, swept)

unfoldable pub delete : SmsCenter → ℕ → SmsCenter × Bool
delete center id =
    let kept = filter (λ (m : StoredSms). not (m.id == id)) center.messages in
    if nat_beq (length kept) (length center.messages)
    then (record center { messages = kept }, false)
    else (persist (record center { messages = kept }), true)
