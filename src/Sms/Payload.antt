-- ===== src/Sms/Payload.antt =====
-- The payload of an SDS as the SMS Center reads it (src/sms_center.rs, `sds_tl_info`,
-- `build_tl_report`, `text_preview` and `hex_encode`). A payload is its bytes.
use brew_server.Common.{
  ℕ, ◌+◌, ◌/◌, ◌%◌, Bool, not, ◌&&◌, ◌||◌, Option, none, some, List, [], ◌∷◌, if◌then◌else◌, ltb,
  leb, nat_beq, Text, length, get_elem?, drop,
}

pub record SdsTlInfo : Type 0 where
  pub protocol_id : ℕ
  pub is_transfer : Bool
  pub report_requested : Bool
  pub message_reference : ℕ

-- The header once its second byte, and the byte of the message reference, are there.
abbrev pub tl_info : ℕ → ℕ → ℕ → SdsTlInfo
tl_info pid flags reference = record {
  protocol_id = pid;
  is_transfer = nat_beq (flags / 16) 0;
  report_requested = nat_beq (flags / 16) 0 && not (nat_beq (flags / 4 % 4) 0);
  message_reference = reference;
}

unfoldable pub sds_tl_info : List ℕ → Option SdsTlInfo
sds_tl_info (pid ∷ flags ∷ second ∷ rest) =
    if ltb pid 128
    then none
    else if nat_beq (flags / 16) 0
    then some (tl_info pid flags second)
    else elim (get_elem? rest 0) [
      | none ↦ none
      | some reference ↦ some (tl_info pid flags reference)
    ]
sds_tl_info payload = none

unfoldable pub build_tl_report : ℕ → ℕ → ℕ → List ℕ
build_tl_report protocol_id delivery_status message_reference =
    protocol_id ∷ 16 ∷ delivery_status ∷ message_reference ∷ []

-- `slice::get(n..)`.
abbrev pub tail_at : ℕ → List ℕ → Option (List ℕ)
tail_at n payload = if leb n (length payload) then some (drop n payload) else none

-- Where the text is, for the protocol identifiers that carry one.
unfoldable pub text_body : List ℕ → Option (List ℕ)
unfolding sds_tl_info
text_body [] = none
text_body (pid ∷ rest) =
    let payload = pid ∷ rest in
    if nat_beq pid 2 || nat_beq pid 9
    then tail_at 2 payload
    else if nat_beq pid 130 || nat_beq pid 137
    then elim (sds_tl_info payload) [
      | none ↦ none
      | some info ↦ elim (get_elem? payload 1) [
        | none ↦ none
        | some flags ↦
            if not info.is_transfer || not (nat_beq (flags % 2) 0)
            then none
            else elim (get_elem? payload 3) [
              | none ↦ none
              | some coding ↦ tail_at (if nat_beq (coding / 128 % 2) 0 then 4 else 7) payload
            ]
      ]
    ]
    else none

-- `char::is_control` and `char::is_whitespace` on the characters up to U+00FF; the second after the
-- first has been filtered out.
abbrev pub is_control : ℕ → Bool
is_control b = ltb b 32 || (leb 127 b && ltb b 160)

abbrev pub is_space : ℕ → Bool
is_space b = nat_beq b 32 || nat_beq b 160

unfoldable pub printable : List ℕ → List ℕ
printable [] = []
printable (b ∷ bs) = if is_control b then printable bs else b ∷ printable bs

-- `str::trim`, at the start and at the end.
unfoldable pub trim_start : List ℕ → List ℕ
trim_start [] = []
trim_start (b ∷ bs) = if is_space b then trim_start bs else b ∷ bs

unfoldable pub trim_end : List ℕ → List ℕ
trim_end [] = []
trim_end (b ∷ bs) = elim (trim_end bs) [
  | [] ↦ if is_space b then [] else b ∷ []
  | (c ∷ cs) ↦ b ∷ c ∷ cs
]

-- The characters up to U+00FF in UTF-8.
unfoldable pub latin_utf8 : List ℕ → Text
latin_utf8 [] = []
latin_utf8 (b ∷ bs) =
    let rest = latin_utf8 bs in
    if ltb b 128 then b ∷ rest else (192 + b / 64) ∷ (128 + b % 64) ∷ rest

unfoldable pub text_preview : List ℕ → Option Text
unfolding text_body trim_end trim_start printable latin_utf8
text_preview payload = elim (text_body payload) [
  | none ↦ none
  | some body ↦ elim (latin_utf8 (trim_end (trim_start (printable body)))) [
    | [] ↦ none
    | (b ∷ bs) ↦ some (b ∷ bs)
  ]
]

-- A digit of `{:02x}`.
abbrev pub hex_digit : ℕ → ℕ
hex_digit n = if ltb n 10 then 48 + n else 87 + n

unfoldable pub hex_encode : List ℕ → Text
hex_encode [] = []
hex_encode (b ∷ bs) = hex_digit (b / 16) ∷ hex_digit (b % 16) ∷ hex_encode bs
