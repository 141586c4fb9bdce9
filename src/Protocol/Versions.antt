-- ===== src/Protocol/Versions.antt =====
-- Protocol versions on a connection (src/protocol.rs, `parse_with_version` and `adapt_to_version`).
use brew_server.Common.{
  ℕ, ◌≤◌, ◌≡◌, Bool, List, arith, Text, ok, length, get_or, drop, inl, inr, Result-cases,
}
use brew_server.State.{ConnVersion, v0, v1, as_u8}
use brew_server.Protocol.Parse.{
  BrewMessage, CallPayload, parse_group_tx, parse_setup_request, parse_payload, parse_call_control,
  parse_with_version,
}

detected_payload :
    (utf8 : List ℕ → Bool) (lossy : List ℕ → Text) (s : ℕ) (payload : List ℕ) (n : ℕ)
    (version : ConnVersion) (p : CallPayload) (detected : ConnVersion)
    → parse_payload utf8 lossy s payload n version ≡ ok (p, detected)
    → as_u8 version ≤ as_u8 detected
unfolding parse_payload parse_group_tx parse_setup_request as_u8
detected_payload utf8 lossy s payload n v0 p detected h = omega arith
detected_payload utf8 lossy s payload n v1 p detected h = ground arith

-- A message never lowers the version of its connection: a v1 connection stays v1.
pub parse_rises :
    (utf8 : List ℕ → Bool) (lossy : List ℕ → Text) (bytes : List ℕ) (version : ConnVersion)
    (m : BrewMessage) (detected : ConnVersion)
    → parse_with_version utf8 lossy bytes version ≡ ok (m, detected)
    → as_u8 version ≤ as_u8 detected
unfolding parse_with_version parse_call_control
parse_rises utf8 lossy bytes version m detected h =
    elim (Result-cases
      (parse_payload utf8 lossy (get_or bytes 1 0) (drop 18 bytes) (length bytes) version)) [
        | inl (x, e) ↦ ground (
          arith,
          detected_payload utf8 lossy (get_or bytes 1 0) (drop 18 bytes) (length bytes) version x.0
              x.1 e,
        )
        | inr (x, e) ↦ ground arith
      ]
