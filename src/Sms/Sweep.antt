-- ===== src/Sms/Sweep.antt =====
-- The housekeeping pass of the SMS Center (src/sms_center.rs, `SmsCenter::sweep`) beside a
-- relation that says what becomes of each message.
use brew_server.Common.{
  ℕ, ◌+◌, ◌≤◌, ◌<◌, ◌≡◌, refl, sym, Bool, true, false, not, ◌||◌, inl, inr, Bool-cases, List, [],
  ◌∷◌, map, arith, subst, length, All,
}
use brew_server.Sms.{SmsCenterConfig, StoredSms, SmsCenter}
use brew_server.Sms.Lists.{count, filter}
use brew_server.Sms.Lists.Facts.{every}
use brew_server.Sms.Limits.{Tried, Within, fewer-Within}
use brew_server.Sms.Queue.{sweep, sweep_all, free_lost, has_expired, gives_up, is_for}
use brew_server.Sms.Splits.{Splits, sweep_all-Splits}

abbrev pub stays : SmsCenterConfig → ℕ → StoredSms → Bool
stays cfg now m = not (has_expired now m || gives_up cfg m)

module _ (cfg : SmsCenterConfig) (now : ℕ) where
  sweep_all-keep :
      (ms : List StoredSms)
      → (sweep_all cfg now ms).keep ≡ filter (stays cfg now) (map (free_lost cfg now) ms)
  unfolding sweep_all filter
  sweep_all-keep [] = refl
  sweep_all-keep (m ∷ ms) = ground (arith, sweep_all-keep ms)

  -- No change is reported only where there was none.
  pub sweep_all-changed :
      (ms : List StoredSms)
      → (sweep_all cfg now ms).changed ≡ false
      → (sweep_all cfg now ms).keep ≡ ms
  unfolding sweep_all
  sweep_all-changed [] h = refl
  sweep_all-changed (m ∷ ms) h = ground (arith, sweep_all-changed ms)

  sweep_all-count :
      (p : StoredSms → Bool)
      → ((m : StoredSms) → p (free_lost cfg now m) ≡ p m)
      → (ms : List StoredSms) → count p (sweep_all cfg now ms).keep ≤ count p ms
  unfolding sweep_all count
  sweep_all-count p same [] = omega arith
  sweep_all-count p same (m ∷ ms) = ground (arith, same m, sweep_all-count p same ms)

  free_lost-attempts : (m : StoredSms) → (free_lost cfg now m).attempts ≡ m.attempts
  free_lost-attempts m = ground arith

  free_lost-destination : (m : StoredSms) → (free_lost cfg now m).destination ≡ m.destination
  free_lost-destination m = ground arith

  stays-Tried :
      (m : StoredSms)
      → 0 < cfg.max_attempts
      → stays cfg now (free_lost cfg now m) ≡ true
      → Tried cfg m
      → Tried cfg (free_lost cfg now m)
  stays-Tried m h s t = record {
    most = omega (arith, free_lost-attempts m, t.most);
    idle = λ i. ground arith;
  }

  kept-Tried :
      (ms : List StoredSms)
      → 0 < cfg.max_attempts
      → All (Tried cfg) ms
      → All (Tried cfg) (filter (stays cfg now) (map (free_lost cfg now) ms))
  unfolding filter
  kept-Tried [] h a = tt
  kept-Tried (m ∷ ms) h (t, a) = elim (Bool-cases (stays cfg now (free_lost cfg now m))) [
    | inl e ↦ rw e (stays-Tried m h e t, kept-Tried ms h a)
    | inr e ↦ rw e (kept-Tried ms h a)
  ]

  sweep_all-length :
      (ms : List StoredSms)
      → let swept = sweep_all cfg now ms in
        length swept.keep + length swept.expired + length swept.failed ≡ length ms
  unfolding sweep_all
  sweep_all-length [] = refl
  sweep_all-length (m ∷ ms) = ground (arith, sweep_all-length ms)

  sweep_all-Within : (ms : List StoredSms) → Within cfg ms → Within cfg (sweep_all cfg now ms).keep
  sweep_all-Within ms v =
      fewer-Within cfg ms _ (sweep_all-count every (λ m. refl) ms)
        (λ d. sweep_all-count (is_for d) (λ m. ground (free_lost-destination m, arith)) ms)
        (λ h. subst (All (Tried cfg)) (sym (sweep_all-keep ms)) (kept-Tried ms h (v.tries h))) v

-- Both branches of the write.
sweep-messages :
    (cfg : SmsCenterConfig) (center : SmsCenter) (now : ℕ)
    → cfg.enabled ≡ true
    → ((sweep cfg center now).0.messages ≡ (sweep_all cfg now center.messages).keep)
      × ((sweep cfg center now).1 ≡ sweep_all cfg now center.messages)
unfolding sweep
sweep-messages cfg center now h = elim (Bool-cases (sweep_all cfg now center.messages).changed) [
  | inl e ↦ ground arith
  | inr e ↦ ground arith
]

pub sweep-Within :
    (cfg : SmsCenterConfig) (center : SmsCenter) (now : ℕ)
    → Within cfg center.messages
    → Within cfg (sweep cfg center now).0.messages
unfolding sweep
sweep-Within cfg center now v = elim (Bool-cases (not cfg.enabled)) [
  | inl n ↦ rw (n, sweep) v
  | inr n ↦
      subst (Within cfg) (sym (sweep-messages cfg center now (ground arith)).0)
        (sweep_all-Within cfg now center.messages v)
]

-- With the SMS Center enabled: the pass splits the queue into three, each in its order. A message whose
-- report may still come stays as it is. Any other, a message with no attempt under way or whose report
-- is overdue, has no attempt after it; it has expired when its time is past, and else is given up when
-- the attempts are limited and used up, and else stays. No message is lost or doubled.
pub sweep-Splits :
    (cfg : SmsCenterConfig) (center : SmsCenter) (now : ℕ)
    → cfg.enabled ≡ true
    → let swept = sweep cfg center now in
      Splits cfg now center.messages swept.0.messages swept.1.expired swept.1.failed
      × (length swept.0.messages + length swept.1.expired + length swept.1.failed
          ≡ length center.messages)
sweep-Splits cfg center now h =
    let (kept, split) = sweep-messages cfg center now h in
    let ms = center.messages in
    (rw (kept, split) (sweep_all-Splits cfg now ms), rw (kept, split) (sweep_all-length cfg now ms))
