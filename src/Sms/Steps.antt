-- ===== src/Sms/Steps.antt =====
-- Every operation of src/sms_center.rs (`SmsCenter`) that changes the queue, as a step relation, and
-- the count of changes.
use brew_server.Common.{
  ℕ, ◌+◌, ◌%◌, ◌^◌, ◌≤◌, ◌≡◌, refl, ◌⊎◌, inl, inr, Bool, not, ◌||◌, Bool-cases, Option,
  Option-cases, List, [], ◌∷◌, arith, length, contains, nat_beq, nat_eq, ◌==◌,
}
use brew_server.Sms.{SmsCenterConfig, StoredSms, SmsCenter, SmsFile, note_known}
use brew_server.Sms.Replica.{import_queue}
use brew_server.Sms.Payload.{hex_encode}
use brew_server.Sms.Lists.{find, oldest, filter}
use brew_server.Sms.Sweep.{sweep_all-changed}
use brew_server.Sms.Queue.{
  store, take_next_due, release, on_report, sweep, sweep_all, delete, is_attempt, refusal, is_full,
  is_due, is_retransmission,
}

module _ (cfg : SmsCenterConfig) where
  -- What the node does itself.
  pub data OwnStep (center : SmsCenter) : SmsCenter → Type 0 where
    registers : (issi : ℕ) → OwnStep center (note_known cfg center issi)
    stores :
        (fresh source_issi destination length_bits : ℕ) (payload : List ℕ) (now : ℕ)
        → OwnStep center (store cfg center fresh source_issi destination length_bits payload now).0
    delivers :
        (issi : ℕ) (force : Bool) (fresh now : ℕ)
        → OwnStep center (take_next_due cfg center issi force fresh now).0
    releases : (brew_uuid : ℕ) → OwnStep center (release center brew_uuid)
    reports : (brew_uuid : ℕ) → OwnStep center (on_report center brew_uuid).0
    cleans : (now : ℕ) → OwnStep center (sweep cfg center now).0
    deletes : (id : ℕ) → OwnStep center (delete center id).0

  -- That, or an import of whatever the peer sent.
  pub data SmsStep (of_json : List ℕ → Option SmsFile) (center : SmsCenter)
      : SmsCenter → Type 0 where
    acts : {after : SmsCenter} → OwnStep center after → SmsStep of_json center after
    imports : (json : List ℕ) → SmsStep of_json center (import_queue of_json center json).0

-- A change is counted: the same queue and known ISSIs, or the next count.
abbrev pub Counted : SmsCenter → SmsCenter → Type 0
Counted center after =
    ((after.known_issis ≡ center.known_issis) × (after.messages ≡ center.messages))
    ⊎ (after.revision ≡ (center.revision + 1) % 2 ^ 64)

filter-length : (q : StoredSms → Bool) (ms : List StoredSms) → length (filter q ms) ≤ length ms
unfolding filter
filter-length q [] = omega arith
filter-length q (m ∷ ms) = ground (arith, filter-length q ms)

filter-same :
    (q : StoredSms → Bool) (ms : List StoredSms)
    → length (filter q ms) ≡ length ms
    → filter q ms ≡ ms
unfolding filter
filter-same q [] h = refl
filter-same q (m ∷ ms) h = ground (arith, filter-length q ms, filter-same q ms)

module _ (cfg : SmsCenterConfig) (center : SmsCenter) where
  note_known-Counted : (issi : ℕ) → Counted center (note_known cfg center issi)
  unfolding note_known
  note_known-Counted issi =
      elim (Bool-cases (not cfg.enabled || contains center.known_issis issi)) [
        | inl e ↦ rw (e, note_known) (inl (refl, refl))
        | inr e ↦ rw (e, note_known) (inr refl)
      ]

  store-Counted :
      (fresh source_issi destination length_bits : ℕ) (payload : List ℕ) (now : ℕ)
      → Counted center (store cfg center fresh source_issi destination length_bits payload now).0
  unfolding store
  store-Counted fresh source_issi destination length_bits payload now =
      let same = is_retransmission source_issi destination (hex_encode payload) now in
      elim (Option-cases (refusal cfg length_bits payload)) [
        | inr (r, n) ↦ rw (n, store) (inl (refl, refl))
        | inl n ↦ elim (Option-cases (find same center.messages)) [
          | inr (m, e) ↦ rw (n, e, store) (inl (refl, refl))
          | inl e ↦ elim (Bool-cases (is_full cfg center destination)) [
            | inl f ↦ rw (n, e, f, store) (inl (refl, refl))
            | inr f ↦ rw (n, e, f, store) (inr refl)
          ]
        ]
      ]

  take_next_due-Counted :
      (issi : ℕ) (force : Bool) (fresh now : ℕ)
      → Counted center (take_next_due cfg center issi force fresh now).0
  unfolding take_next_due
  take_next_due-Counted issi force fresh now = elim (Bool-cases (not cfg.enabled)) [
    | inl n ↦ rw (n, take_next_due) (inl (refl, refl))
    | inr n ↦ elim (Option-cases (oldest (is_due cfg issi force now) center.messages)) [
      | inl e ↦ rw (n, e, take_next_due) (inl (refl, refl))
      | inr (m, e) ↦ rw (n, e, take_next_due) (inr refl)
    ]
  ]

  release-Counted : (brew_uuid : ℕ) → Counted center (release center brew_uuid)
  unfolding release
  release-Counted brew_uuid = elim (Option-cases (find (is_attempt brew_uuid) center.messages)) [
    | inl e ↦ rw (e, release) (inl (refl, refl))
    | inr (m, e) ↦ rw (e, release) (inr refl)
  ]

  on_report-Counted : (brew_uuid : ℕ) → Counted center (on_report center brew_uuid).0
  unfolding on_report
  on_report-Counted brew_uuid = elim (Option-cases (find (is_attempt brew_uuid) center.messages)) [
    | inl e ↦ rw (e, on_report) (inl (refl, refl))
    | inr (m, e) ↦ rw (e, on_report) (inr refl)
  ]

  sweep-Counted : (now : ℕ) → Counted center (sweep cfg center now).0
  unfolding sweep
  sweep-Counted now = elim (Bool-cases (not cfg.enabled)) [
    | inl n ↦ rw (n, sweep) (inl (refl, refl))
    | inr n ↦ elim (Bool-cases (sweep_all cfg now center.messages).changed) [
      | inl e ↦ rw (n, e, sweep) (inr refl)
      | inr e ↦ rw (n, e, sweep) (inl (refl, sweep_all-changed cfg now center.messages e))
    ]
  ]

  delete-Counted : (id : ℕ) → Counted center (delete center id).0
  unfolding delete
  delete-Counted id =
      let others = λ (m : StoredSms). not (m.id == id) in
      elim (Bool-cases
        (nat_beq (length (filter others center.messages)) (length center.messages))) [
          | inl e ↦ rw (e, delete) (inl (refl, filter-same others center.messages (ground arith)))
          | inr e ↦ rw (e, delete) (inr refl)
        ]

own-Counted :
    (cfg : SmsCenterConfig) (center after : SmsCenter)
    → OwnStep cfg center after
    → Counted center after
own-Counted cfg center after (registers issi) = note_known-Counted cfg center issi
own-Counted cfg center after (stores fresh s d l payload now) =
    store-Counted cfg center fresh s d l payload now
own-Counted cfg center after (delivers issi force fresh now) =
    take_next_due-Counted cfg center issi force fresh now
own-Counted cfg center after (releases u) = release-Counted cfg center u
own-Counted cfg center after (reports u) = on_report-Counted cfg center u
own-Counted cfg center after (cleans now) = sweep-Counted cfg center now
own-Counted cfg center after (deletes id) = delete-Counted cfg center id

import_queue-Counted :
    (of_json : List ℕ → Option SmsFile) (center : SmsCenter) (json : List ℕ)
    → Counted center (import_queue of_json center json).0
unfolding import_queue
import_queue-Counted of_json center json = elim (Option-cases (of_json json)) [
  | inl e ↦ rw (e, import_queue) (inl (refl, refl))
  | inr (f, e) ↦ rw (e, import_queue) (inr refl)
]

-- Whatever an operation on the queue does, an import included, it leaves the queue and the known
-- ISSIs as they were or counts the change, modulo 2^64, so HA replication sends the queue again.
pub step-Counted :
    (of_json : List ℕ → Option SmsFile) (cfg : SmsCenterConfig) (center after : SmsCenter)
    → SmsStep cfg of_json center after
    → Counted center after
step-Counted of_json cfg center after (acts s) = own-Counted cfg center after s
step-Counted of_json cfg center after (imports json) = import_queue-Counted of_json center json
