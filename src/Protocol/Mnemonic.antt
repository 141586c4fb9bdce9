-- ===== src/Protocol/Mnemonic.antt =====
-- The text fields of src/protocol.rs: `decode_mnemonic`, `decode_7bit_packed`, `ascii_field`.
-- A string is its UTF-8 bytes; `String::from_utf8_lossy` is a parameter.
use brew_server.Common.{
  ℕ, zero, suc, ◌+◌, ◌*◌, ◌/◌, ◌%◌, ◌^◌, ◌-◌, ◌&&◌, ◌||◌, Option, none, some, List, [], ◌∷◌, ◌++◌,
  if◌then◌else◌, ltb, leb, nat_beq, Text, length, get_or, take,
}

-- The character of a byte, `b as char`.
abbrev pub char_of : ℕ → Text
char_of b = if ltb b 128 then b ∷ [] else (192 + b / 64) ∷ (128 + b % 64) ∷ []

unfoldable pub chars_of : List ℕ → Text
chars_of [] = []
chars_of (b ∷ bs) = char_of b ++ chars_of bs

-- The loop of `decode_7bit_packed`: `n` characters from a bit position. The two parts of a
-- character have no bit in common, so `|` is a sum.
unfoldable pub septets : ℕ → List ℕ → ℕ → Text
septets zero bytes bit_pos = []
septets (suc n) bytes bit_pos =
    let byte_idx = bit_pos / 8 in
    let bit_off = bit_pos % 8 in
    let low = get_or bytes byte_idx 0 / 2 ^ bit_off in
    let high = get_or bytes (byte_idx + 1) 0 * 2 ^ (8 - bit_off) in
    let value = if ltb 1 bit_off && ltb (byte_idx + 1) (length bytes) then low + high else low in
    let rest = septets n bytes (bit_pos + 7) in
    if leb (length bytes) byte_idx then [] else value % 128 ∷ rest

unfoldable pub decode_7bit_packed : List ℕ → ℕ → Text
decode_7bit_packed bytes len_bits = septets (len_bits / 7) bytes 0

-- `trim_end_matches(['\0', ' '])`.
unfoldable pub trim_end : Text → Text
trim_end [] = []
trim_end (b ∷ bs) = elim (trim_end bs) [
  | [] ↦ if nat_beq b 0 || nat_beq b 32 then [] else b ∷ []
  | c ∷ cs ↦ b ∷ c ∷ cs
]

-- The bytes in front of the first NUL.
unfoldable pub until_nul : List ℕ → List ℕ
until_nul [] = []
until_nul (b ∷ bs) = let rest = until_nul bs in if nat_beq b 0 then [] else b ∷ rest

module _ (lossy : List ℕ → Text) where
  unfoldable pub decode_mnemonic : List ℕ → Option Text
  decode_mnemonic [] = none
  decode_mnemonic (b ∷ []) = none
  decode_mnemonic (scheme ∷ len_bits ∷ text) =
      let decoded =
        if nat_beq (scheme % 128) 0
        then chars_of (take (len_bits / 8) text)
        else if nat_beq (scheme % 128) 1
        then decode_7bit_packed text len_bits
        else lossy (take ((len_bits + 7) / 8) text) in
      if nat_beq len_bits 0
      then none
      else elim (trim_end decoded) [ [] ↦ none | c ∷ cs ↦ some (c ∷ cs) ]

  unfoldable pub ascii_field : List ℕ → Text
  ascii_field bytes = lossy (until_nul bytes)
