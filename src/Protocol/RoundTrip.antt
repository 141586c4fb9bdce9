-- ===== src/Protocol/RoundTrip.antt =====
-- What the parser of src/protocol.rs reads of the messages that the server builds.
use brew_server.Common.{
  ℕ, ◌+◌, ◌≡◌, ap, sym, ◌∙◌, Bool, true, none, List, [], ◌∷◌, ◌++◌, arith, Text, ok, length,
  length-append, drop, take-append, drop-append, drop-add, All, Fits, to_le, from_le, le_at, words,
  word_bytes, from_le-to_le, length-to_le, le_at-append, length-word_bytes, words-word_bytes,
}
use mathlib.Core.List.{append-nil}
use mathlib.Core.Path.{ap₂}
use brew_server.State.{CallId, ConnVersion}
use brew_server.Protocol.{
  build_subscriber_message, build_call_cause, call_group_tx, call_short_transfer,
  class_call_control, class_frame,
}
use brew_server.Protocol.Build.{
  build_group_tx, build_short_transfer, build_sds_transfer_frame, frame_sds_transfer, zeros,
}
use brew_server.Protocol.Parse.{
  subscriber, call_control, frame, group_transmission, cause, short_transfer, CallPayload,
  parse_subscriber, parse_frame, is_cause, parse_group_tx, parse_payload, parse_call_control,
  parse_with_version,
}

-- A subscriber message is read back as it was built, its groups included, whatever the version.
pub parse-build_subscriber_message :
    (utf8 : List ℕ → Bool) (lossy : List ℕ → Text) (version : ConnVersion) (msg_type issi : ℕ)
    (groups : List ℕ)
    → Fits 4 issi
    → All (Fits 4) groups
    → parse_with_version utf8 lossy (build_subscriber_message msg_type issi groups) version
      ≡ ok (
        subscriber (record {
          msg_type = msg_type;
          issi = issi;
          timestamp = 0;
          fraction = 0;
          groups = groups;
        }),
        version,
      )
unfolding parse_with_version parse_subscriber build_subscriber_message to_le le_at from_le
parse-build_subscriber_message utf8 lossy version msg_type issi groups hi hg =
    let read : words 4 (length groups) (word_bytes 4 groups) ≡ groups =
      ap (words 4 (length groups)) (sym (append-nil (word_bytes 4 groups)))
      ∙ words-word_bytes 4 groups [] hg in
    ground (arith, read, length-word_bytes 4 groups, from_le-to_le 4 issi hi)

-- A call control message with a 16-byte id is read by its payload.
parse_built :
    (utf8 : List ℕ → Bool) (lossy : List ℕ → Text) (version detected : ConnVersion) (s : ℕ)
    (id : CallId) (payload : List ℕ) (p : CallPayload)
    → length id ≡ 16
    → parse_payload utf8 lossy s payload (18 + length payload) version ≡ ok (p, detected)
    → parse_with_version utf8 lossy (class_call_control ∷ s ∷ (id ++ payload)) version
      ≡ ok (call_control (record { call_state = s; identifier = id; payload = p }), detected)
unfolding parse_with_version parse_call_control
parse_built utf8 lossy version detected s id payload p n h =
    let whole : 2 + length (id ++ payload) ≡ 18 + length payload =
      omega (arith, length-append id payload) in
    ground (arith, whole, take-append id payload (sym n), drop-append id payload (sym n))

-- A group transmission is read back with its talker, its group and its priority; it shows no name
-- and leaves the version as it is.
pub parse-build_group_tx :
    (utf8 : List ℕ → Bool) (lossy : List ℕ → Text) (version : ConnVersion) (id : CallId)
    (source destination priority : ℕ)
    → length id ≡ 16
    → Fits 4 source
    → Fits 4 destination
    → parse_with_version utf8 lossy (build_group_tx id source destination priority) version
      ≡ ok (
        call_control (record {
          call_state = call_group_tx;
          identifier = id;
          payload = group_transmission (record {
            source = source;
            destination = destination;
            priority = priority;
            access = 0;
            service = 0;
            mnemonic = none;
          });
        }),
        version,
      )
unfolding build_group_tx
parse-build_group_tx utf8 lossy version id source destination priority n hs hd =
    parse_built utf8 lossy version version call_group_tx id
      (to_le 4 source ++ (to_le 4 destination ++ (priority ∷ 0 ∷ to_le 2 0))) _ n
      (unfold parse_payload parse_group_tx to_le le_at in
        ap₂
          (λ x y. ok (
            group_transmission (record {
              source = x;
              destination = y;
              priority = priority;
              access = 0;
              service = 0;
              mnemonic = none;
            }),
            version,
          ))
          (from_le-to_le 4 source hs) (from_le-to_le 4 destination hd))

-- A header of a short message is read back with both parties.
pub parse-build_short_transfer :
    (utf8 : List ℕ → Bool) (lossy : List ℕ → Text) (version : ConnVersion) (id : CallId)
    (source destination : ℕ)
    → length id ≡ 16
    → Fits 4 source
    → Fits 4 destination
    → parse_with_version utf8 lossy (build_short_transfer id source destination) version
      ≡ ok (
        call_control (record {
          call_state = call_short_transfer;
          identifier = id;
          payload = short_transfer source destination;
        }),
        version,
      )
unfolding build_short_transfer
parse-build_short_transfer utf8 lossy version id source destination n hs hd =
    parse_built utf8 lossy version version call_short_transfer id
      (to_le 4 source ++ (to_le 4 destination ++ zeros 32)) _ n
      (unfold parse_payload to_le le_at in
        ap₂ (λ x y. ok (short_transfer x y, version)) (from_le-to_le 4 source hs)
          (from_le-to_le 4 destination hd))

-- The end of a call, a rejection and the end of a turn are read back with their cause.
pub parse-build_call_cause :
    (utf8 : List ℕ → Bool) (lossy : List ℕ → Text) (version : ConnVersion) (s : ℕ) (id : CallId)
    (c : ℕ)
    → length id ≡ 16
    → is_cause s ≡ true
    → parse_with_version utf8 lossy (build_call_cause s id c) version
      ≡ ok (call_control (record { call_state = s; identifier = id; payload = cause c }), version)
unfolding build_call_cause
parse-build_call_cause utf8 lossy version s id c n h =
    parse_built utf8 lossy version version s id (c ∷ []) (cause c) n
      (unfold parse_payload in ground arith)

-- The user data of a short message is read back with its length in bits.
pub parse-build_sds_transfer_frame :
    (utf8 : List ℕ → Bool) (lossy : List ℕ → Text) (version : ConnVersion) (id : CallId)
    (length_bits : ℕ) (bytes : List ℕ)
    → length id ≡ 16
    → Fits 2 length_bits
    → parse_with_version utf8 lossy (build_sds_transfer_frame id length_bits bytes) version
      ≡ ok (
        frame (record {
          frame_type = frame_sds_transfer;
          identifier = id;
          length_bits = length_bits;
          bytes = bytes;
        }),
        version,
      )
unfolding parse_with_version parse_frame build_sds_transfer_frame
parse-build_sds_transfer_frame utf8 lossy version id length_bits bytes n h =
    let tail = to_le 2 length_bits ++ bytes in
    let size : length (id ++ tail) ≡ 18 + length bytes = omega (
      arith,
      length-append id tail,
      length-append (to_le 2 length_bits) bytes,
      length-to_le 2 length_bits,
    ) in
    let field : le_at 2 (class_frame ∷ frame_sds_transfer ∷ (id ++ tail)) 18 ≡ length_bits =
      le_at-append 2 length_bits 18 (class_frame ∷ frame_sds_transfer ∷ id) bytes (omega arith) h in
    let left : drop 18 (id ++ tail) ≡ bytes =
      drop-add 16 2 (id ++ tail)
      ∙ ap (drop 2) (drop-append id tail (sym n))
      ∙ drop-append (to_le 2 length_bits) bytes (sym (length-to_le 2 length_bits)) in
    ground (arith, take-append id tail (sym n))
