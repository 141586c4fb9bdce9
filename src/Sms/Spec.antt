-- ===== src/Sms/Spec.antt =====
-- A delivery from the SMS Center's queue (src/sms_center.rs, `take_next_due` and `on_report`).
use brew_server.Common.{
  ℕ, zero, suc, ◌≡◌, refl, ap, ◌∙◌, Bool, true, false, not, inl, inr, Bool-cases, Option-cases,
  some, List, [], ◌∷◌, ◌++◌, take, drop, arith, subst, get_elem?, All, nat_eq,
}
use brew_server.Sms.{SmsCenterConfig, StoredSms, SmsCenter}
use brew_server.Sms.Lists.{find, remove_first, update_at, oldest}
use brew_server.Sms.Lists.Facts.{IsOldest, Found, oldest-Found}
use brew_server.Sms.Queue.{take_next_due, on_report, is_due, attempted, is_attempt}

-- No attempt has the UUID.
abbrev pub IsFresh : ℕ → List StoredSms → Type 0
IsFresh fresh = All (λ (m : StoredSms). is_attempt fresh m ≡ false)

module _ (fresh now : ℕ) (m : StoredSms) where
  attempted-is_attempt : is_attempt fresh (attempted fresh now m) ≡ true
  attempted-is_attempt = ground arith

  find-attempted :
      (ms : List StoredSms) (i : ℕ)
      → IsFresh fresh ms
      → get_elem? ms i ≡ some m
      → find (is_attempt fresh) (update_at i (attempted fresh now) ms)
        ≡ some (attempted fresh now m)
  unfolding find update_at
  find-attempted [] i a e = cc
  find-attempted (x ∷ xs) zero (h, a) e =
      let same : x ≡ m = cc in rw same (rw attempted-is_attempt refl)
  find-attempted (x ∷ xs) (suc i) (h, a) e = rw h (find-attempted xs i a e)

  remove-attempted :
      (ms : List StoredSms) (i : ℕ)
      → IsFresh fresh ms
      → get_elem? ms i ≡ some m
      → remove_first (is_attempt fresh) (update_at i (attempted fresh now) ms)
        ≡ take i ms ++ drop (suc i) ms
  unfolding remove_first update_at
  remove-attempted [] i a e = cc
  remove-attempted (x ∷ xs) zero (h, a) e =
      let same : x ≡ m = cc in rw same (rw attempted-is_attempt refl)
  remove-attempted (x ∷ xs) (suc i) (h, a) e = rw h (ap (λ l. x ∷ l) (remove-attempted xs i a e))

module _ (cfg : SmsCenterConfig) (center : SmsCenter) (issi : ℕ) (force : Bool)
    (fresh now : ℕ) where
  -- What is delivered: the oldest message that is due, where it stands, as it is before the attempt.
  abbrev pub Delivers : ℕ → StoredSms → Type 0
  Delivers i m = IsOldest (is_due cfg issi force now) center.messages i m

  -- Where the result comes from.
  taken :
      (out : StoredSms)
      → (take_next_due cfg center issi force fresh now).1 ≡ some out
      → (i : ℕ) × (m : StoredSms) × Delivers i m
        × (out ≡ attempted fresh now m)
        × ((take_next_due cfg center issi force fresh now).0.messages
            ≡ update_at i (attempted fresh now) center.messages)
  unfolding take_next_due
  taken out e = elim (Bool-cases (not cfg.enabled)) [
    | inl n ↦ absurd (ground arith)
    | inr n ↦ elim (Option-cases (oldest (is_due cfg issi force now) center.messages)) [
      | inl o ↦ absurd (ground arith)
      | inr ((i, m), o) ↦ (
        i,
        m,
        subst (Found (is_due cfg issi force now) center.messages) o
            (oldest-Found (is_due cfg issi force now) center.messages),
        ground arith,
        rw (n, o, take_next_due) refl,
      )
    ]
  ]

-- With the SMS Center enabled and a message due for the ISSI, one is delivered: the oldest of
-- those that are due, the first of them at a tie. It alone is changed in the queue, to an attempt
-- under the UUID.
pub take_next_due-IsOldest :
    (cfg : SmsCenterConfig) (center : SmsCenter) (issi : ℕ) (force : Bool) (fresh now j : ℕ)
    (o : StoredSms)
    → cfg.enabled ≡ true
    → get_elem? center.messages j ≡ some o
    → is_due cfg issi force now o ≡ true
    → let after = take_next_due cfg center issi force fresh now in
      (i : ℕ) × (m : StoredSms) × IsOldest (is_due cfg issi force now) center.messages i m
      × (after.1 ≡ some (attempted fresh now m))
      × (after.0.messages ≡ update_at i (attempted fresh now) center.messages)
unfolding take_next_due
take_next_due-IsOldest cfg center issi force fresh now j o h g d =
    let p = is_due cfg issi force now in
    let found = oldest-Found p center.messages in
    elim (Option-cases (oldest p center.messages)) [
      | inl n ↦ absurd (let due = subst (Found p center.messages) n found j o g in ground arith)
      | inr ((i, m), q) ↦ (
        i,
        m,
        subst (Found p center.messages) q found,
        rw (h, q, take_next_due) refl,
        rw (h, q, take_next_due) refl,
      )
    ]

-- Where a message is delivered under a UUID that no attempt has: the report on the UUID gives the
-- message back and takes it, and no other, out of the queue, in its place.
pub report_completes :
    (cfg : SmsCenterConfig) (center : SmsCenter) (issi : ℕ) (force : Bool) (fresh now : ℕ)
    (out : StoredSms)
    → IsFresh fresh center.messages
    → (take_next_due cfg center issi force fresh now).1 ≡ some out
    → let reported = on_report (take_next_due cfg center issi force fresh now).0 fresh in
      (reported.1 ≡ some out)
      × ((i : ℕ) × (m : StoredSms) × (get_elem? center.messages i ≡ some m)
          × (out ≡ attempted fresh now m)
          × (reported.0.messages ≡ take i center.messages ++ drop (suc i) center.messages))
unfolding on_report
report_completes cfg center issi force fresh now out f e =
    let (i, m, d, same, queue) = taken cfg center issi force fresh now out e in
    let found = find-attempted fresh now m center.messages i f d.there in
    let rest = remove-attempted fresh now m center.messages i f d.there in
    (
      rw (on_report, queue, found, same) refl,
      (
        i,
        m,
        d.there,
        same,
        rw (on_report, queue, found) (ap (remove_first (is_attempt fresh)) queue ∙ rest),
      ),
    )
