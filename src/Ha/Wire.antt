-- ===== src/Ha/Wire.antt =====
-- The heartbeat on the wire (src/ha.rs, `encode` and `decode`): JSON followed by a 32-byte tag.
-- HMAC-SHA256 under the shared key and the JSON library are parameters.
use brew_server.Common.{
  ℕ, ◌-◌, ◌<◌, ◌≡◌, Bool, true, Option, none, some, List, ◌++◌, arith, leb, if◌then◌else◌, length,
  take, drop, length-append, length-drop, take-append, drop-append, take-append-drop, sym,
}
use brew_server.Ha.Heartbeat.{Heartbeat}

abbrev pub tag_len : ℕ
tag_len = 32

pub record Libraries : Type 0 where
  pub sign : List ℕ → List ℕ
  pub verify : List ℕ → List ℕ → Bool
  pub to_vec : Heartbeat → List ℕ
  pub from_slice : List ℕ → Option Heartbeat

module _ (lib : Libraries) where
  open lib use {sign, verify, to_vec, from_slice}

  unfoldable pub encode : Heartbeat → List ℕ
  encode hb = to_vec hb ++ sign (to_vec hb)

  unfoldable pub decode : List ℕ → Option Heartbeat
  decode buf =
      if leb (length buf) tag_len
      then none
      else let body = take (length buf - tag_len) buf in
        if verify body (drop (length buf - tag_len) buf) then from_slice body else none

  -- A heartbeat that is encoded is decoded as it was, given that tags have 32 bytes and verify,
  -- and that the JSON of this heartbeat is not empty and is read back.
  pub decode-encode :
      (hb : Heartbeat)
      → length (sign (to_vec hb)) ≡ tag_len
      → verify (to_vec hb) (sign (to_vec hb)) ≡ true
      → 0 < length (to_vec hb)
      → from_slice (to_vec hb) ≡ some hb
      → decode (encode hb) ≡ some hb
  unfolding encode decode
  decode-encode hb tag v pos back =
      let n : length (to_vec hb ++ sign (to_vec hb)) - tag_len ≡ length (to_vec hb) =
        omega (arith, length-append (to_vec hb) (sign (to_vec hb))) in
      ground (
        arith,
        take-append (to_vec hb) (sign (to_vec hb)) n,
        drop-append (to_vec hb) (sign (to_vec hb)) n,
        length-append (to_vec hb) (sign (to_vec hb)),
      )

  -- What is decoded was signed: the packet is a body and a tag of 32 bytes that verifies for it,
  -- and the heartbeat is what the body says.
  pub decode_authentic :
      (buf : List ℕ) (hb : Heartbeat)
      → decode buf ≡ some hb
      → (body tag : List ℕ) × (buf ≡ body ++ tag)
        × (length tag ≡ tag_len)
        × (verify body tag ≡ true)
        × (from_slice body ≡ some hb)
  unfolding decode
  decode_authentic buf hb h = (
    take (length buf - tag_len) buf,
    drop (length buf - tag_len) buf,
    sym (take-append-drop (length buf - tag_len) buf),
    ground (arith, length-drop (length buf - tag_len) buf),
    ground arith,
    ground arith,
  )
