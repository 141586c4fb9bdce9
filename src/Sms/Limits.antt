-- ===== src/Sms/Limits.antt =====
-- The limits of the SMS Center's queue, and the attempts it makes (src/sms_center.rs, each operation of
-- `SmsCenter` on the queue; the sweep and `import` are in Sms/Sweep and Sms/Reach).
use brew_server.Common.{
  ℕ, ◌≤◌, ◌<◌, ◌≡◌, refl, Bool, true, false, not, inl, inr, Bool-cases, Option-cases, some, List,
  [], ◌∷◌, ◌++◌, arith, subst, eq_of_beq, ◌==◌, nat_eq, nat_beq, length, length-append, All,
}
use brew_server.Sms.{SmsCenterConfig, StoredSms, SmsCenter}
use brew_server.Sms.Payload.{hex_encode}
use brew_server.Sms.Lists.{count, find, update_at, oldest, filter}
use brew_server.Sms.Lists.Facts.{
  count-append, count-filter, count-remove_first, count-update_first, count-update_at, every,
  count-every, All-append, All-filter, All-remove_first, All-update_first, All-update_at,
  oldest-Found, IsOldest, Found,
}
use brew_server.Sms.Queue.{
  store, take_next_due, release, on_report, delete, is_for, is_full, not_in_flight, is_attempt,
  attempted, released, refusal, is_retransmission, new_message, is_due,
}

-- An idle message has an attempt left.
pub record Tried (cfg : SmsCenterConfig) (m : StoredSms) : Type 0 where
  pub most : m.attempts ≤ cfg.max_attempts
  pub idle : not_in_flight m ≡ true → m.attempts < cfg.max_attempts

pub record Within (cfg : SmsCenterConfig) (ms : List StoredSms) : Type 0 where
  pub total : length ms ≤ cfg.max_messages_total
  pub for_each : (d : ℕ) → count (is_for d) ms ≤ cfg.max_messages_per_destination
  pub tries : 0 < cfg.max_attempts → All (Tried cfg) ms

module _ (cfg : SmsCenterConfig) where
  -- A part of the queue keeps the limits.
  pub fewer-Within :
      (xs ys : List StoredSms)
      → count every ys ≤ count every xs
      → ((d : ℕ) → count (is_for d) ys ≤ count (is_for d) xs)
      → (0 < cfg.max_attempts → All (Tried cfg) ys)
      → Within cfg xs
      → Within cfg ys
  fewer-Within xs ys shorter fewer tries v = record {
    total = omega (arith, shorter, count-every xs, count-every ys, v.total);
    for_each = λ d. omega (arith, fewer d, v.for_each d);
    tries = tries;
  }

  added-count :
      (center : SmsCenter) (m : StoredSms)
      → is_full cfg center m.destination ≡ false
      → count (is_for m.destination) (center.messages ++ m ∷ []) ≤ cfg.max_messages_per_destination
  unfolding count
  added-count center m f =
      ground (arith, count-append (is_for m.destination) center.messages (m ∷ []))

  added-Within :
      (center : SmsCenter) (m : StoredSms)
      → is_full cfg center m.destination ≡ false
      → (0 < cfg.max_attempts → Tried cfg m)
      → Within cfg center.messages
      → Within cfg (center.messages ++ m ∷ [])
  unfolding count
  added-Within center m f t v = record {
    total = ground (arith, length-append center.messages (m ∷ []));
    for_each = λ d. elim (Bool-cases (m.destination == d)) [
      | inl e ↦
          subst
            (λ k. count (is_for k) (center.messages ++ m ∷ []) ≤ cfg.max_messages_per_destination)
            (eq_of_beq e) (added-count center m f)
      | inr e ↦ ground (arith, count-append (is_for d) center.messages (m ∷ []), v.for_each d)
    ];
    tries = λ h. All-append (Tried cfg) center.messages (m ∷ []) (v.tries h) (t h, tt);
  }

  pub store-Within :
      (center : SmsCenter) (fresh source_issi destination length_bits : ℕ) (payload : List ℕ)
      (now : ℕ)
      → Within cfg center.messages
      → Within cfg
          (store cfg center fresh source_issi destination length_bits payload now).0.messages
  unfolding store
  store-Within center fresh source_issi destination length_bits payload now v =
      elim (Option-cases (refusal cfg length_bits payload)) [
        | inr (r, n) ↦ rw (n, store) v
        | inl n ↦
            elim (Option-cases (
              find (is_retransmission source_issi destination (hex_encode payload) now)
                center.messages)) [
                  | inr (m, e) ↦ rw (n, e, store) v
                  | inl e ↦ elim (Bool-cases (is_full cfg center destination)) [
                    | inl f ↦ rw (n, e, f, store) v
                    | inr f ↦
                        rw (n, e, f, store)
                          (added-Within center
                            (new_message cfg fresh source_issi destination length_bits payload now)
                            f (λ h. record { most = omega arith; idle = λ i. h }) v)
                  ]
                ]
      ]

  taken-Within :
      (center : SmsCenter) (issi : ℕ) (force : Bool) (fresh now i : ℕ) (m : StoredSms)
      → oldest (is_due cfg issi force now) center.messages ≡ some (i, m)
      → Within cfg center.messages
      → Within cfg (update_at i (attempted fresh now) center.messages)
  taken-Within center issi force fresh now i m e v =
      let found : IsOldest (is_due cfg issi force now) center.messages i m =
        subst (Found (is_due cfg issi force now) center.messages) e
          (oldest-Found (is_due cfg issi force now) center.messages) in
      fewer-Within center.messages _
        (omega (arith, count-update_at every (attempted fresh now) (λ x. refl) i center.messages))
        (λ d.
          omega
            (arith, count-update_at (is_for d) (attempted fresh now) (λ x. refl) i center.messages))
        (λ h.
          All-update_at (Tried cfg) (attempted fresh now) i center.messages m found.there
            (λ t. record {
              most = ground (arith, t.most, t.idle, found.passes);
              idle = λ q. absurd cc;
            })
            (v.tries h))
        v

  pub take_next_due-Within :
      (center : SmsCenter) (issi : ℕ) (force : Bool) (fresh now : ℕ)
      → Within cfg center.messages
      → Within cfg (take_next_due cfg center issi force fresh now).0.messages
  unfolding take_next_due
  take_next_due-Within center issi force fresh now v = elim (Bool-cases (not cfg.enabled)) [
    | inl n ↦ rw (n, take_next_due) v
    | inr n ↦ elim (Option-cases (oldest (is_due cfg issi force now) center.messages)) [
      | inl e ↦ rw (n, e, take_next_due) v
      | inr ((i, m), e) ↦
          rw (n, e, take_next_due) (taken-Within center issi force fresh now i m e v)
    ]
  ]

  pub release-Within :
      (center : SmsCenter) (brew_uuid : ℕ)
      → Within cfg center.messages
      → Within cfg (release center brew_uuid).messages
  unfolding release
  release-Within center brew_uuid v =
      elim (Option-cases (find (is_attempt brew_uuid) center.messages)) [
        | inl e ↦ rw (e, release) v
        | inr (m, e) ↦
            rw (e, release)
              (fewer-Within center.messages _
                (omega (
                  arith,
                  count-update_first every released (λ x. refl) (is_attempt brew_uuid)
                      center.messages,
                ))
                (λ d. omega (
                  arith,
                  count-update_first (is_for d) released (λ x. refl) (is_attempt brew_uuid)
                      center.messages,
                ))
                (λ h.
                  All-update_first (Tried cfg) released (is_attempt brew_uuid) center.messages
                    (λ x q t. record {
                      most = omega (arith, t.most);
                      idle = λ i. omega (arith, t.most);
                    })
                    (v.tries h))
                v)
      ]

  pub on_report-Within :
      (center : SmsCenter) (brew_uuid : ℕ)
      → Within cfg center.messages
      → Within cfg (on_report center brew_uuid).0.messages
  unfolding on_report
  on_report-Within center brew_uuid v =
      elim (Option-cases (find (is_attempt brew_uuid) center.messages)) [
        | inl e ↦ rw (e, on_report) v
        | inr (m, e) ↦
            rw (e, on_report)
              (fewer-Within center.messages _
                (count-remove_first every (is_attempt brew_uuid) center.messages)
                (λ d. count-remove_first (is_for d) (is_attempt brew_uuid) center.messages)
                (λ h.
                  All-remove_first (Tried cfg) (is_attempt brew_uuid) center.messages (v.tries h))
                v)
      ]

  pub delete-Within :
      (center : SmsCenter) (id : ℕ)
      → Within cfg center.messages
      → Within cfg (delete center id).0.messages
  unfolding delete
  delete-Within center id v =
      let kept = filter (λ (m : StoredSms). not (m.id == id)) center.messages in
      let w =
        fewer-Within center.messages kept
          (count-filter every (λ (m : StoredSms). not (m.id == id)) center.messages)
          (λ d. count-filter (is_for d) (λ (m : StoredSms). not (m.id == id)) center.messages)
          (λ h. All-filter (Tried cfg) _ center.messages (v.tries h)) v in
      elim (Bool-cases (nat_beq (length kept) (length center.messages))) [
        | inl e ↦ rw e w
        | inr e ↦ rw e w
      ]
