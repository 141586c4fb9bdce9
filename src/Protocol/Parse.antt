-- ===== src/Protocol/Parse.antt =====
-- The parser of Brew messages (src/protocol.rs, `parse_with_version`). `String::from_utf8_lossy` and
-- the validity of UTF-8 are parameters.
use brew_server.Common.{
  ℕ, ◌+◌, ◌-◌, ◌/◌, Bool, not, ◌||◌, Option, none, List, if◌then◌else◌, ltb, leb, nat_beq, Text,
  Result, ok, err, ◌>>=◌, ◌>>◌, refuse_if, length, get_or, take, drop, le_at, words,
}
use brew_server.State.{CallId, ConnVersion, v1}
use brew_server.Protocol.{
  class_subscriber, class_call_control, class_frame, class_error, class_service, call_group_tx,
  call_group_idle, call_setup_request, call_setup_accept, call_setup_reject, call_alert,
  call_connect_request, call_release, call_short_transfer, group_tx_base_len,
  circular_call_base_len, mnemonic_field_len,
}
use brew_server.Protocol.Mnemonic.{decode_mnemonic, ascii_field, until_nul}

pub record SubscriberMessage : Type 0 where
  pub msg_type : ℕ
  pub issi : ℕ
  pub timestamp : ℕ
  pub fraction : ℕ
  pub groups : List ℕ

pub record GroupTransmission : Type 0 where
  pub source : ℕ
  pub destination : ℕ
  pub priority : ℕ
  pub access : ℕ
  pub service : ℕ
  pub mnemonic : Option Text

pub record CircularCall : Type 0 where
  pub source : ℕ
  pub destination : ℕ
  pub number : Text
  pub priority : ℕ
  pub service : ℕ
  pub mnemonic : Option Text

pub data CallPayload : Type 0 where
  group_transmission : GroupTransmission → CallPayload
  circular_call : CircularCall → CallPayload
  cause : ℕ → CallPayload
  empty : CallPayload
  short_transfer : (source destination : ℕ) → CallPayload
  raw_payload : List ℕ → CallPayload

pub record CallControlMessage : Type 0 where
  pub call_state : ℕ
  pub identifier : CallId
  pub payload : CallPayload

pub record FrameMessage : Type 0 where
  pub frame_type : ℕ
  pub identifier : CallId
  pub length_bits : ℕ
  pub bytes : List ℕ

pub data BrewMessage : Type 0 where
  subscriber : SubscriberMessage → BrewMessage
  call_control : CallControlMessage → BrewMessage
  frame : FrameMessage → BrewMessage
  error : (error_type : ℕ) → List ℕ → BrewMessage
  service : (service_type : ℕ) → (json_data : Text) → BrewMessage

pub data ParseError : Type 0 where
  too_short : ℕ → ParseError
  unknown_class : ℕ → ParseError
  invalid_utf8 : ParseError

unfoldable pub parse_subscriber : List ℕ → Result ParseError BrewMessage
parse_subscriber bytes = do
  refuse_if (ltb (length bytes) 18) (too_short (length bytes))
  ok (
      subscriber (record {
        msg_type = get_or bytes 1 0;
        issi = le_at 4 bytes 2;
        timestamp = le_at 8 bytes 6;
        fraction = le_at 4 bytes 14;
        groups = words 4 ((length bytes - 18) / 4) (drop 18 bytes);
      }))

unfoldable pub parse_frame : List ℕ → Result ParseError BrewMessage
parse_frame bytes = do
  refuse_if (ltb (length bytes) 20) (too_short (length bytes))
  ok (
      frame (record {
        frame_type = get_or bytes 1 0;
        identifier = take 16 (drop 2 bytes);
        length_bits = le_at 2 bytes 18;
        bytes = drop 20 bytes;
      }))

-- What a payload turns out to be, with the version that its length shows.
abbrev pub Seen : Type 0
Seen = Result ParseError (CallPayload × ConnVersion)

abbrev pub is_cause : ℕ → Bool
is_cause s = nat_beq s call_group_idle || (nat_beq s call_setup_reject || nat_beq s call_release)

module _ (utf8 : List ℕ → Bool) (lossy : List ℕ → Text) where
  unfoldable pub parse_service : List ℕ → Result ParseError BrewMessage
  parse_service bytes = do
    let json = until_nul (drop 2 bytes)
    refuse_if (not (utf8 json)) invalid_utf8
    ok (service (get_or bytes 1 0) json)

  -- The arm of CALL_GROUP_TX; `n` is the length of the whole message.
  unfoldable pub parse_group_tx : List ℕ → ℕ → ConnVersion → Seen
  parse_group_tx payload n version = do
    refuse_if (ltb (length payload) group_tx_base_len) (too_short n)
    let has_tail = ltb group_tx_base_len (length payload)
    let mnemonic =
        if has_tail
        then decode_mnemonic lossy (take mnemonic_field_len (drop group_tx_base_len payload))
        else none
    ok (
      group_transmission (record {
        source = le_at 4 payload 0;
        destination = le_at 4 payload 4;
        priority = get_or payload 8 0;
        access = get_or payload 9 0;
        service = le_at 2 payload 10;
        mnemonic = mnemonic;
      }),
      if has_tail then v1 else version,
    )

  -- What CALL_SETUP_REQUEST and CALL_CONNECT_REQUEST have in common.
  abbrev pub circular : List ℕ → Option Text → CallPayload
  circular payload mnemonic = circular_call (record {
    source = le_at 4 payload 0;
    destination = le_at 4 payload 4;
    number = ascii_field lossy (take 32 (drop 8 payload));
    priority = get_or payload 40 0;
    service = get_or payload 41 0;
    mnemonic = mnemonic;
  })

  unfoldable pub parse_setup_request : List ℕ → ℕ → ConnVersion → Seen
  parse_setup_request payload n version = do
    refuse_if (ltb (length payload) circular_call_base_len) (too_short n)
    let has_tail = leb (circular_call_base_len + mnemonic_field_len) (length payload)
    let mnemonic =
        if has_tail
        then decode_mnemonic lossy (take mnemonic_field_len (drop circular_call_base_len payload))
        else none
    ok (circular payload mnemonic, if has_tail then v1 else version)

  -- The match on the call state.
  unfoldable pub parse_payload : ℕ → List ℕ → ℕ → ConnVersion → Seen
  parse_payload s payload n version =
      if nat_beq s call_group_tx
      then parse_group_tx payload n version
      else if nat_beq s call_setup_request
      then parse_setup_request payload n version
      else if nat_beq s call_connect_request
      then refuse_if (ltb (length payload) circular_call_base_len) (too_short n)
        >> ok (circular payload none, version)
      else if is_cause s
      then refuse_if (nat_beq (length payload) 0) (too_short n)
        >> ok (cause (get_or payload 0 0), version)
      else if nat_beq s call_setup_accept || nat_beq s call_alert
      then ok (empty, version)
      else if nat_beq s call_short_transfer
      then refuse_if (ltb (length payload) 8) (too_short n)
        >> ok (short_transfer (le_at 4 payload 0) (le_at 4 payload 4), version)
      else ok (raw_payload payload, version)

  unfoldable pub parse_call_control :
      List ℕ → ConnVersion → Result ParseError (BrewMessage × ConnVersion)
  parse_call_control bytes version = do
    refuse_if (ltb (length bytes) 18) (too_short (length bytes))
    (payload, detected) ← parse_payload (get_or bytes 1 0) (drop 18 bytes) (length bytes) version
    ok (
      call_control (record {
        call_state = get_or bytes 1 0;
        identifier = take 16 (drop 2 bytes);
        payload = payload;
      }),
      detected,
    )

  abbrev pub at_version :
      Result ParseError BrewMessage → ConnVersion → Result ParseError (BrewMessage × ConnVersion)
  at_version (ok m) version = ok (m, version)
  at_version (err e) version = err e

  unfoldable pub parse_with_version :
      List ℕ → ConnVersion → Result ParseError (BrewMessage × ConnVersion)
  parse_with_version bytes version =
      let c = get_or bytes 0 0 in
      if ltb (length bytes) 2
      then err (too_short (length bytes))
      else if nat_beq c class_subscriber
      then at_version (parse_subscriber bytes) version
      else if nat_beq c class_call_control
      then parse_call_control bytes version
      else if nat_beq c class_frame
      then at_version (parse_frame bytes) version
      else if nat_beq c class_error
      then ok (error (get_or bytes 1 0) (drop 2 bytes), version)
      else if nat_beq c class_service
      then at_version (parse_service bytes) version
      else err (unknown_class c)
