-- ===== src/Protocol/Tests.antt =====
-- Messages of src/protocol.rs on concrete bytes.
use brew_server.Common.{ℕ, ◌≡◌, ◌≤◌, refl, Bool, true, some, List, [], ◌∷◌, le_at, Text, ok, take}
use brew_server.State.{v0, v1, as_u8}
use brew_server.Protocol.{adapt_to_version}
use brew_server.Protocol.Mnemonic.{decode_mnemonic, chars_of, trim_end}
use brew_server.Protocol.Parse.{
  BrewMessage, call_control, group_transmission, parse_with_version, parse_call_control,
  parse_payload, parse_group_tx,
}
use brew_server.Protocol.Versions.{parse_rises}
use brew_server.Protocol.Nameless.{without_names}
use brew_server.Protocol.Adapt.{parse_with_version-adapt_to_version}

abbrev any_text : List ℕ → Bool
any_text bytes = true

abbrev as_is : List ℕ → Text
as_is bytes = bytes

abbrev call : List ℕ
call = 1 ∷ 2 ∷ 3 ∷ 4 ∷ 5 ∷ 6 ∷ 7 ∷ 8 ∷ 9 ∷ 10 ∷ 11 ∷ 12 ∷ 13 ∷ 14 ∷ 15 ∷ 16 ∷ []

-- A turn with the name "Al" behind it, as a v1 talker sends it.
abbrev named : List ℕ
named =
    0xf1 ∷ 2 ∷ 1 ∷ 2 ∷ 3 ∷ 4 ∷ 5 ∷ 6 ∷ 7 ∷ 8 ∷ 9 ∷ 10 ∷ 11 ∷ 12 ∷ 13 ∷ 14 ∷ 15 ∷ 16 ∷ 7 ∷ 0 ∷ 0 ∷ 0
    ∷ 9 ∷ 0 ∷ 0 ∷ 0 ∷ 3 ∷ 0 ∷ 0 ∷ 0 ∷ 0 ∷ 16 ∷ 65 ∷ 108 ∷ []

abbrev turn : BrewMessage
turn = call_control (record {
  call_state = 2;
  identifier = call;
  payload = group_transmission (record {
    source = 7;
    destination = 9;
    priority = 3;
    access = 0;
    service = 0;
    mnemonic = some (65 ∷ 108 ∷ []);
  });
})

named_read : parse_with_version any_text as_is named v0 ≡ ok (turn, v1)
unfolding parse_with_version parse_call_control parse_payload parse_group_tx decode_mnemonic
    chars_of trim_end le_at
named_read = refl

named_cut : adapt_to_version named v0 ≡ take 30 named
unfolding adapt_to_version
named_cut = refl

parse_rises_example : as_u8 v0 ≤ as_u8 v1
parse_rises_example = parse_rises any_text as_is named v0 turn v1 named_read

parse_with_version-adapt_to_version_example :
    parse_with_version any_text as_is (adapt_to_version named v0) v0
    ≡ without_names (parse_with_version any_text as_is named v0)
parse_with_version-adapt_to_version_example =
    parse_with_version-adapt_to_version any_text as_is named
