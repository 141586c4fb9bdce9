-- ===== src/Sms/Splits.antt =====
-- What the housekeeping pass is meant to make of each message, as a relation, and the loop of
-- src/sms_center.rs (`SmsCenter::sweep`) beside it.
use brew_server.Common.{
  ℕ, ◌-◌, ◌*◌, ◌^◌, min, leb, ltb, none, some, ◌⊎◌, Option-cases, ◌≤◌, ◌<◌, ◌≡◌, ap, ◌∙◌, false,
  ◌&&◌, inl, inr, Bool-cases, List, [], ◌∷◌, arith,
}
use brew_server.Sms.{SmsCenterConfig, StoredSms}
use brew_server.Sms.Queue.{sweep_all, free_lost, not_in_flight}

-- A message that waits for the report of its last attempt, and may wait on.
abbrev pub Waits : SmsCenterConfig → ℕ → StoredSms → Type 0
Waits cfg now m =
    (u : ℕ) × (t : ℕ) × (m.in_flight ≡ some u)
    × (m.last_attempt_ms ≡ some t)
    × (now - t < min (cfg.ack_timeout_seconds * 1000) (2 ^ 64 - 1))

-- A message without an attempt, or whose report is overdue.
abbrev pub IsFree : SmsCenterConfig → ℕ → StoredSms → Type 0
IsFree cfg now m =
    (m.in_flight ≡ none)
    ⊎ ((m.last_attempt_ms ≡ none)
        ⊎ ((t : ℕ) × (m.last_attempt_ms ≡ some t)
            × (min (cfg.ack_timeout_seconds * 1000) (2 ^ 64 - 1) ≤ now - t)))

abbrev pub unsent : StoredSms → StoredSms
unsent m = record m { in_flight = none }

-- A queue, and the three parts it is split into: what stays, what has expired, what is given up.
pub data Splits (cfg : SmsCenterConfig) (now : ℕ)
    : List StoredSms → List StoredSms → List StoredSms → List StoredSms → Type 0 where
  nothing : Splits cfg now [] [] [] []
  waits :
      {ms keep expired failed : List StoredSms} (m : StoredSms)
      → Waits cfg now m
      → Splits cfg now ms keep expired failed
      → Splits cfg now (m ∷ ms) (m ∷ keep) expired failed
  expires :
      {ms keep expired failed : List StoredSms} (m : StoredSms)
      → IsFree cfg now m
      → m.expires_at_ms ≤ now
      → Splits cfg now ms keep expired failed
      → Splits cfg now (m ∷ ms) keep (unsent m ∷ expired) failed
  gives_out :
      {ms keep expired failed : List StoredSms} (m : StoredSms)
      → IsFree cfg now m
      → now < m.expires_at_ms
      → 0 < cfg.max_attempts
      → cfg.max_attempts ≤ m.attempts
      → Splits cfg now ms keep expired failed
      → Splits cfg now (m ∷ ms) keep expired (unsent m ∷ failed)
  stays_on :
      {ms keep expired failed : List StoredSms} (m : StoredSms)
      → IsFree cfg now m
      → now < m.expires_at_ms
      → (cfg.max_attempts ≡ 0) ⊎ (m.attempts < cfg.max_attempts)
      → Splits cfg now ms keep expired failed
      → Splits cfg now (m ∷ ms) (unsent m ∷ keep) expired failed

module _ (cfg : SmsCenterConfig) (now : ℕ) where
  never_sent : (m : StoredSms) → m.in_flight ≡ none → free_lost cfg now m ≡ unsent m
  never_sent m n =
      let whole : m ≡ unsent m = ap (λ o. record m { in_flight = o }) n in
      let kept : free_lost cfg now m ≡ m = ground arith in kept ∙ whole

  one_case :
      (m : StoredSms)
      → (IsFree cfg now m × (free_lost cfg now m ≡ unsent m))
        ⊎ (Waits cfg now m × (free_lost cfg now m ≡ m))
  one_case m = elim (Option-cases m.in_flight) [
    | inl n ↦ inl (inl n, never_sent m n)
    | inr (u, f) ↦ elim (Option-cases m.last_attempt_ms) [
      | inl n ↦ inl (inr (inl n), ground arith)
      | inr (t, l) ↦
          elim (Bool-cases (leb (min (cfg.ack_timeout_seconds * 1000) (2 ^ 64 - 1)) (now - t))) [
            | inl e ↦ inl (inr (inr (t, l, ground arith)), ground arith)
            | inr e ↦ inr ((u, t, f, l, ground arith), ground arith)
          ]
    ]
  ]

  attempts_left :
      (m : StoredSms)
      → (ltb 0 cfg.max_attempts && leb cfg.max_attempts m.attempts) ≡ false
      → (cfg.max_attempts ≡ 0) ⊎ (m.attempts < cfg.max_attempts)
  attempts_left m h = elim (Bool-cases (ltb 0 cfg.max_attempts)) [
    | inl e ↦ inr (ground arith)
    | inr e ↦ inl (ground arith)
  ]

  -- What becomes of one message in front of a queue that is split.
  one-Splits :
      (m : StoredSms) (ms : List StoredSms)
      → let rest = sweep_all cfg now ms in
        let swept = sweep_all cfg now (m ∷ ms) in
        Splits cfg now ms rest.keep rest.expired rest.failed
        → Splits cfg now (m ∷ ms) swept.keep swept.expired swept.failed
  unfolding sweep_all
  one-Splits m ms s = elim (one_case m) [
    | inr ((u, t, h, l, k), e) ↦
        let sent : not_in_flight m ≡ false = ground arith in
        rw (e, sent) (waits m (u, t, h, l, k) s)
    | inl (f, e) ↦ elim (Bool-cases (leb m.expires_at_ms now)) [
      | inl x ↦ rw (e, x) (expires m f (ground arith) s)
      | inr x ↦ elim (Bool-cases (ltb 0 cfg.max_attempts && leb cfg.max_attempts m.attempts)) [
        | inl g ↦ rw (e, x, g) (gives_out m f (ground arith) (ground arith) (ground arith) s)
        | inr g ↦ rw (e, x, g) (stays_on m f (ground arith) (attempts_left m g) s)
      ]
    ]
  ]

  pub sweep_all-Splits :
      (ms : List StoredSms)
      → let swept = sweep_all cfg now ms in Splits cfg now ms swept.keep swept.expired swept.failed
  unfolding sweep_all
  sweep_all-Splits [] = nothing
  sweep_all-Splits (m ∷ ms) = one-Splits m ms (sweep_all-Splits ms)
