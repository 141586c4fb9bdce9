-- ===== src/Protocol/Adapt.antt =====
-- The adaptation of a message for a v0 connection (src/protocol.rs, `adapt_to_version`).
use brew_server.Common.{
  ℕ, ◌+◌, ◌-◌, ◌≤◌, ◌<◌, ◌≡◌, refl, ap, ◌∙◌, Bool, true, false, not, ◌||◌, ◌⊎◌, List, arith, ltb,
  Text, err, length, length-take, length-drop, get_or, take, drop, drop-take, take-take,
  get_or-take, nat_beq, nat_beq_iff, Bool-cases, inl, inr,
}
use brew_server.State.{v0, has_mnemonic}
use brew_server.Protocol.{adapt_to_version, class_call_control, call_group_tx, call_setup_request}
use brew_server.Protocol.Parse.{
  too_short, parse_group_tx, parse_payload, parse_call_control, parse_with_version,
}
use brew_server.Protocol.Nameless.{
  forget, group_tx_cut, setup_cut, payload_short, without_names, other_class, by_payload,
}

-- Cutting a call control message behind its payload's fixed part.
cut_payload :
    (utf8 : List ℕ → Bool) (lossy : List ℕ → Text) (bytes : List ℕ) (k : ℕ)
    → 18 + k < length bytes
    → parse_payload utf8 lossy (get_or bytes 1 0) (take k (drop 18 bytes)) (18 + k) v0
      ≡ forget (parse_payload utf8 lossy (get_or bytes 1 0) (drop 18 bytes) (length bytes) v0)
    → parse_call_control utf8 lossy (take (18 + k) bytes) v0
      ≡ without_names (parse_call_control utf8 lossy bytes v0)
cut_payload utf8 lossy bytes k h p =
    let size : length (take (18 + k) bytes) ≡ 18 + k = omega (arith, length-take (18 + k) bytes) in
    let front : take 16 (drop 2 (take (18 + k) bytes)) ≡ take 16 (drop 2 bytes) =
      ap (take 16) (drop-take 2 (18 + k) bytes)
      ∙ take-take 16 (18 + k - 2) (drop 2 bytes) (omega arith) in
    let left : 18 + k - 18 ≡ k = omega arith in
    by_payload utf8 lossy bytes (take (18 + k) bytes) (get_or-take 1 (18 + k) bytes 0 (omega arith))
      front (ground arith) (λ short. ground arith) (rw (size, drop-take 18 (18 + k) bytes, left) p)

-- What the adaptation of a call control message does.
record Uncut (bytes : List ℕ) : Type 0 where
  same : adapt_to_version bytes v0 ≡ bytes
  group_tx : get_or bytes 1 0 ≡ call_group_tx → length (drop 18 bytes) ≤ 12
  setup : get_or bytes 1 0 ≡ call_setup_request → length (drop 18 bytes) ≤ 51

record CutAt (s k : ℕ) (bytes : List ℕ) : Type 0 where
  state : get_or bytes 1 0 ≡ s
  longer : 18 + k < length bytes
  cut : adapt_to_version bytes v0 ≡ take (18 + k) bytes

adapt-cases :
    (bytes : List ℕ)
    → ltb (length bytes) 2 ≡ false
    → nat_beq (get_or bytes 0 0) class_call_control ≡ true
    → CutAt call_group_tx 12 bytes ⊎ CutAt call_setup_request 51 bytes ⊎ Uncut bytes
unfolding adapt_to_version has_mnemonic
adapt-cases bytes l c = elim (Bool-cases (nat_beq (get_or bytes 1 0) call_group_tx)) [
  | inl g ↦ elim (Bool-cases (ltb 30 (length bytes))) [
    | inl t ↦ inl (ground (arith, nat_beq_iff (get_or bytes 1 0) call_group_tx))
    | inr f ↦ inr (
        inr (record {
          same = ground arith;
          group_tx = λ e. ground (arith, length-drop 18 bytes);
          setup = λ e. ground (arith, nat_beq_iff (get_or bytes 1 0) call_group_tx);
        }))
  ]
  | inr g ↦ elim (Bool-cases (nat_beq (get_or bytes 1 0) call_setup_request)) [
    | inl t ↦ elim (Bool-cases (ltb 69 (length bytes))) [
      | inl m ↦ inr (inl (ground (arith, nat_beq_iff (get_or bytes 1 0) call_setup_request)))
      | inr f ↦ inr (
          inr (record {
            same = ground arith;
            group_tx = λ e. ground (arith, nat_beq_iff (get_or bytes 1 0) call_group_tx);
            setup = λ e. ground (arith, length-drop 18 bytes);
          }))
    ]
    | inr t ↦ inr (
        inr (record {
          same = ground arith;
          group_tx = λ e. ground (arith, nat_beq_iff (get_or bytes 1 0) call_group_tx);
          setup = λ e. ground (arith, nat_beq_iff (get_or bytes 1 0) call_setup_request);
        }))
  ]
]

adapt_call :
    (utf8 : List ℕ → Bool) (lossy : List ℕ → Text) (bytes : List ℕ)
    → ltb (length bytes) 2 ≡ false
    → nat_beq (get_or bytes 0 0) class_call_control ≡ true
    → parse_call_control utf8 lossy (adapt_to_version bytes v0) v0
      ≡ without_names (parse_call_control utf8 lossy bytes v0)
unfolding parse_payload parse_group_tx
adapt_call utf8 lossy bytes l c = elim (adapt-cases bytes l c) [
  | inl k ↦
      let long : 12 < length (drop 18 bytes) = omega (arith, k.longer, length-drop 18 bytes) in
      rw k.cut (
        cut_payload utf8 lossy bytes 12 k.longer (
          rw (k.state, parse_payload)
            (group_tx_cut utf8 lossy (drop 18 bytes) (length bytes) 30 long)))
  | inr (inl k) ↦
      let long : 51 < length (drop 18 bytes) = omega (arith, k.longer, length-drop 18 bytes) in
      rw k.cut (
        cut_payload utf8 lossy bytes 51 k.longer (
          rw (k.state, parse_payload)
            (setup_cut utf8 lossy (drop 18 bytes) (length bytes) 69 long)))
  | inr (inr u) ↦ rw u.same (
      by_payload utf8 lossy bytes bytes refl refl refl (λ short. refl)
        (payload_short utf8 lossy (get_or bytes 1 0) (drop 18 bytes) (length bytes) u.group_tx
          u.setup))
]

-- A call control message goes to `parse_call_control`.
parse_call :
    (utf8 : List ℕ → Bool) (lossy : List ℕ → Text) (bytes : List ℕ)
    → ltb (length bytes) 2 ≡ false
    → nat_beq (get_or bytes 0 0) class_call_control ≡ true
    → parse_with_version utf8 lossy bytes v0 ≡ parse_call_control utf8 lossy bytes v0
unfolding parse_with_version
parse_call utf8 lossy bytes l c = ground arith

-- The cut leaves the first two bytes.
adapt_head :
    (bytes : List ℕ)
    → ltb (length bytes) 2 ≡ false
    → nat_beq (get_or bytes 0 0) class_call_control ≡ true
    → (ltb (length (adapt_to_version bytes v0)) 2 ≡ false)
      × (nat_beq (get_or (adapt_to_version bytes v0) 0 0) class_call_control ≡ true)
adapt_head bytes l c = elim (adapt-cases bytes l c) [
  | inl k ↦
      rw (k.cut, get_or-take 0 30 bytes 0 (omega arith))
        (ground (arith, length-take 30 bytes, k.longer), c)
  | inr (inl k) ↦
      rw (k.cut, get_or-take 0 69 bytes 0 (omega arith))
        (ground (arith, length-take 69 bytes, k.longer), c)
  | inr (inr u) ↦ rw u.same (l, c)
]

adapt_other :
    (bytes : List ℕ)
    → ltb (length bytes) 2 || not (nat_beq (get_or bytes 0 0) class_call_control) ≡ true
    → adapt_to_version bytes v0 ≡ bytes
unfolding adapt_to_version has_mnemonic
adapt_other bytes o = ground arith

parse_too_short :
    (utf8 : List ℕ → Bool) (lossy : List ℕ → Text) (bytes : List ℕ)
    → ltb (length bytes) 2 ≡ true
    → parse_with_version utf8 lossy bytes v0 ≡ err (too_short (length bytes))
unfolding parse_with_version
parse_too_short utf8 lossy bytes l = ground arith

-- A v0 connection reads of a message what was sent, but for the talker's name: the message cut for
-- it is read as the whole message is, with no name and without a rise to v1, and is refused where
-- the whole message is refused.
pub parse_with_version-adapt_to_version :
    (utf8 : List ℕ → Bool) (lossy : List ℕ → Text) (bytes : List ℕ)
    → parse_with_version utf8 lossy (adapt_to_version bytes v0) v0
      ≡ without_names (parse_with_version utf8 lossy bytes v0)
parse_with_version-adapt_to_version utf8 lossy bytes = elim (Bool-cases (ltb (length bytes) 2)) [
  | inl l ↦ rw (adapt_other bytes (ground arith), parse_too_short utf8 lossy bytes l) refl
  | inr l ↦ elim (Bool-cases (nat_beq (get_or bytes 0 0) class_call_control)) [
    | inl c ↦
        let (l', c') = adapt_head bytes l c in
        parse_call utf8 lossy (adapt_to_version bytes v0) l' c'
        ∙ rw (parse_call utf8 lossy bytes l c) (adapt_call utf8 lossy bytes l c)
    | inr c ↦ rw (adapt_other bytes (ground arith)) (other_class utf8 lossy bytes c)
  ]
]
