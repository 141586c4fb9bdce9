-- ===== src/Protocol.antt =====
-- The Brew wire format (src/protocol.rs): message classes and types, and the builders.
pub mod Mnemonic
pub mod Build
pub mod Parse
pub mod Versions
pub mod Nameless
pub mod Adapt
pub mod RoundTrip
mod Tests
use brew_server.Common.{
  ℕ, List, [], ◌∷◌, ◌++◌, Bool, true, false, ◌||◌, ltb, if◌then◌else◌, not, nat_beq, to_le,
  word_bytes, length, take, get_or, ◌+◌,
}
use brew_server.State.{CallId, ConnVersion, has_mnemonic}

abbrev pub class_subscriber : ℕ
class_subscriber = 0xf0

abbrev pub class_call_control : ℕ
class_call_control = 0xf1

abbrev pub class_frame : ℕ
class_frame = 0xf2

abbrev pub class_error : ℕ
class_error = 0xf3

abbrev pub class_service : ℕ
class_service = 0xf4

abbrev pub class_federation : ℕ
class_federation = 0xfe

abbrev pub sub_deregister : ℕ
sub_deregister = 0

abbrev pub sub_register : ℕ
sub_register = 1

abbrev pub sub_reregister : ℕ
sub_reregister = 2

abbrev pub sub_affiliate : ℕ
sub_affiliate = 8

abbrev pub sub_deaffiliate : ℕ
sub_deaffiliate = 9

abbrev pub call_group_tx : ℕ
call_group_tx = 2

abbrev pub call_group_idle : ℕ
call_group_idle = 3

abbrev pub call_setup_request : ℕ
call_setup_request = 4

abbrev pub call_setup_accept : ℕ
call_setup_accept = 5

abbrev pub call_setup_reject : ℕ
call_setup_reject = 6

abbrev pub call_alert : ℕ
call_alert = 7

abbrev pub call_connect_request : ℕ
call_connect_request = 8

abbrev pub call_connect_confirm : ℕ
call_connect_confirm = 9

abbrev pub call_simplex_granted : ℕ
call_simplex_granted = 12

abbrev pub call_simplex_idle : ℕ
call_simplex_idle = 13

abbrev pub call_short_transfer : ℕ
call_short_transfer = 11

abbrev pub call_release : ℕ
call_release = 10

abbrev pub cause_called_party_not_reachable : ℕ
cause_called_party_not_reachable = 3

abbrev pub cause_swmi_requested_disconnection : ℕ
cause_swmi_requested_disconnection = 14

abbrev pub group_tx_base_len : ℕ
group_tx_base_len = 12

abbrev pub circular_call_base_len : ℕ
circular_call_base_len = 51

abbrev pub mnemonic_field_len : ℕ
mnemonic_field_len = 34

-- The issi, timestamp and fraction, then the groups to the end.
unfoldable pub build_subscriber_message : ℕ → ℕ → List ℕ → List ℕ
build_subscriber_message msg_type issi groups =
    class_subscriber
    ∷ msg_type
    ∷ (to_le 4 issi ++ (to_le 8 0 ++ (to_le 4 0 ++ word_bytes 4 groups)))

unfoldable pub build_call_cause : ℕ → CallId → ℕ → List ℕ
build_call_cause call_state id cause = class_call_control ∷ call_state ∷ (id ++ (cause ∷ []))

-- How long the v0 form of a message is; `none` where every version has one form.
abbrev v0_len : ℕ → Bool → Bool → ℕ
v0_len n true _ = 18 + group_tx_base_len
v0_len n false true = 18 + circular_call_base_len
v0_len n false false = n

-- The message as a connection of the version may receive it.
unfoldable pub adapt_to_version : List ℕ → ConnVersion → List ℕ
unfolding has_mnemonic
adapt_to_version raw version =
    if has_mnemonic version
      || ltb (length raw) 2
      || not (nat_beq (get_or raw 0 0) class_call_control)
    then raw
    else let n =
        v0_len (length raw) (nat_beq (get_or raw 1 0) call_group_tx)
          (nat_beq (get_or raw 1 0) call_setup_request) in
      if ltb n (length raw) then take n raw else raw
