-- ===== src/Protocol/Nameless.antt =====
-- Messages without the talker names of a v1 layout, and what is read of a payload that is cut in
-- front of the name (src/protocol.rs).
use brew_server.Common.{
  ℕ, ◌≤◌, ◌<◌, ◌≡◌, refl, sym, Bool, true, false, none, List, arith, ltb, Text, Result, ok, err,
  length, length-take, get_or, take, drop, drop-take, take-take, get_or-take, le_at-take, nat_beq,
  nat_beq_iff, Bool-cases, inl, inr, Result-cases,
}
use brew_server.State.{ConnVersion, v0}
use brew_server.Protocol.{class_call_control, call_group_tx, call_setup_request}
use brew_server.Protocol.Parse.{
  BrewMessage, subscriber, call_control, frame, error, service, CallPayload, group_transmission,
  circular_call, cause, empty, short_transfer, raw_payload, ParseError, parse_subscriber,
  parse_frame, parse_service, Seen, circular, parse_group_tx, parse_setup_request, parse_payload,
  parse_call_control, parse_with_version,
}

-- A message without the names of a v1 layout, and the version v0.
abbrev nameless_payload : CallPayload → CallPayload
nameless_payload (group_transmission g) = group_transmission (record g { mnemonic = none })
nameless_payload (circular_call c) = circular_call (record c { mnemonic = none })
nameless_payload (cause c) = cause c
nameless_payload empty = empty
nameless_payload (short_transfer s d) = short_transfer s d
nameless_payload (raw_payload p) = raw_payload p

abbrev pub forget : Seen → Seen
forget (ok (p, version)) = ok (nameless_payload p, v0)
forget (err e) = err e

group_tx_short :
    (utf8 : List ℕ → Bool) (lossy : List ℕ → Text) (payload : List ℕ) (n : ℕ)
    → length payload ≤ 12
    → forget (parse_group_tx utf8 lossy payload n v0) ≡ parse_group_tx utf8 lossy payload n v0
unfolding parse_group_tx
group_tx_short utf8 lossy payload n h = ground arith

setup_short :
    (utf8 : List ℕ → Bool) (lossy : List ℕ → Text) (payload : List ℕ) (n : ℕ)
    → length payload ≤ 51
    → forget (parse_setup_request utf8 lossy payload n v0)
      ≡ parse_setup_request utf8 lossy payload n v0
unfolding parse_setup_request
setup_short utf8 lossy payload n h = ground arith

pub group_tx_cut :
    (utf8 : List ℕ → Bool) (lossy : List ℕ → Text) (payload : List ℕ) (n k : ℕ)
    → 12 < length payload
    → parse_group_tx utf8 lossy (take 12 payload) k v0
      ≡ forget (parse_group_tx utf8 lossy payload n v0)
unfolding parse_group_tx
group_tx_cut utf8 lossy payload n k h = ground (
  arith,
  length-take 12 payload,
  le_at-take 4 0 12 payload (omega arith),
  le_at-take 4 4 12 payload (omega arith),
  le_at-take 2 10 12 payload (omega arith),
  get_or-take 8 12 payload 0 (omega arith),
  get_or-take 9 12 payload 0 (omega arith),
)

circular_cut :
    (utf8 : List ℕ → Bool) (lossy : List ℕ → Text) (payload : List ℕ)
    → circular utf8 lossy (take 51 payload) none ≡ circular utf8 lossy payload none
circular_cut utf8 lossy payload =
    rw
      (
        le_at-take 4 0 51 payload (omega arith),
        le_at-take 4 4 51 payload (omega arith),
        get_or-take 40 51 payload 0 (omega arith),
        get_or-take 41 51 payload 0 (omega arith),
        drop-take 8 51 payload,
        take-take 32 43 (drop 8 payload) (omega arith),
      )
      refl

pub setup_cut :
    (utf8 : List ℕ → Bool) (lossy : List ℕ → Text) (payload : List ℕ) (n k : ℕ)
    → 51 < length payload
    → parse_setup_request utf8 lossy (take 51 payload) k v0
      ≡ forget (parse_setup_request utf8 lossy payload n v0)
unfolding parse_setup_request
setup_cut utf8 lossy payload n k h =
    let size : length (take 51 payload) ≡ 51 = omega (arith, length-take 51 payload) in
    let long : ltb (length payload) 51 ≡ false = ground arith in
    rw (size, long, circular_cut utf8 lossy payload) refl

pub payload_short :
    (utf8 : List ℕ → Bool) (lossy : List ℕ → Text) (s : ℕ) (payload : List ℕ) (n : ℕ)
    → (s ≡ call_group_tx → length payload ≤ 12)
    → (s ≡ call_setup_request → length payload ≤ 51)
    → parse_payload utf8 lossy s payload n v0 ≡ forget (parse_payload utf8 lossy s payload n v0)
unfolding parse_payload
payload_short utf8 lossy s payload n g t = elim (Bool-cases (nat_beq s call_group_tx)) [
  | inl e ↦
      rw (e, parse_payload)
        (sym (group_tx_short utf8 lossy payload n (ground (arith, nat_beq_iff s call_group_tx))))
  | inr e ↦ elim (Bool-cases (nat_beq s call_setup_request)) [
    | inl f ↦
        rw (e, f, parse_payload)
          (sym
            (setup_short utf8 lossy payload n (ground (arith, nat_beq_iff s call_setup_request))))
    | inr f ↦ ground arith
  ]
]

abbrev nameless : BrewMessage → BrewMessage
nameless (call_control c) = call_control (record c { payload = nameless_payload c.payload })
nameless (subscriber m) = subscriber m
nameless (frame m) = frame m
nameless (error t bytes) = error t bytes
nameless (service t json) = service t json

abbrev pub without_names :
    Result ParseError (BrewMessage × ConnVersion) → Result ParseError (BrewMessage × ConnVersion)
without_names (ok (m, version)) = ok (nameless m, v0)
without_names (err e) = err e

-- A message that is not call control is read at v0 as it is.
pub other_class :
    (utf8 : List ℕ → Bool) (lossy : List ℕ → Text) (bytes : List ℕ)
    → nat_beq (get_or bytes 0 0) class_call_control ≡ false
    → parse_with_version utf8 lossy bytes v0
      ≡ without_names (parse_with_version utf8 lossy bytes v0)
unfolding parse_with_version parse_subscriber parse_frame parse_service
other_class utf8 lossy bytes c = ground arith

-- A call control message is read by its payload.
pub by_payload :
    (utf8 : List ℕ → Bool) (lossy : List ℕ → Text) (bytes cut : List ℕ)
    → get_or cut 1 0 ≡ get_or bytes 1 0
    → take 16 (drop 2 cut) ≡ take 16 (drop 2 bytes)
    → ltb (length cut) 18 ≡ ltb (length bytes) 18
    → (ltb (length bytes) 18 ≡ true → length cut ≡ length bytes)
    → parse_payload utf8 lossy (get_or bytes 1 0) (drop 18 cut) (length cut) v0
      ≡ forget (parse_payload utf8 lossy (get_or bytes 1 0) (drop 18 bytes) (length bytes) v0)
    → parse_call_control utf8 lossy cut v0 ≡ without_names (parse_call_control utf8 lossy bytes v0)
unfolding parse_call_control
by_payload utf8 lossy bytes cut s i l n p =
    elim (Result-cases
      (parse_payload utf8 lossy (get_or bytes 1 0) (drop 18 bytes) (length bytes) v0)) [
        | inl (x, e) ↦ ground arith
        | inr (x, e) ↦ ground arith
      ]
