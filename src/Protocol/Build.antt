-- ===== src/Protocol/Build.antt =====
-- The builders of Brew messages that the server originates (src/protocol.rs).
use brew_server.Common.{ℕ, zero, suc, List, [], ◌∷◌, ◌++◌, Text, to_le}
use brew_server.State.{CallId}
use brew_server.Protocol.{
  class_call_control, class_frame, class_service, call_group_tx, call_setup_request,
  call_connect_request, call_connect_confirm, call_short_transfer,
}

abbrev pub frame_sds_transfer : ℕ
frame_sds_transfer = 1

abbrev pub frame_dtmf : ℕ
frame_dtmf = 3

-- `[0u8; n]`.
abbrev pub zeros : ℕ → List ℕ
zeros zero = []
zeros (suc n) = 0 ∷ zeros n

unfoldable pub build_service : ℕ → Text → List ℕ
build_service service_type json = class_service ∷ service_type ∷ (json ++ (0 ∷ []))

unfoldable pub build_call_control_empty : ℕ → CallId → List ℕ
build_call_control_empty call_state id = class_call_control ∷ call_state ∷ id

unfoldable pub build_call_connect_confirm : CallId → ℕ → ℕ → List ℕ
build_call_connect_confirm id grant permission =
    class_call_control ∷ call_connect_confirm ∷ (id ++ (grant ∷ permission ∷ []))

unfoldable pub build_short_transfer : CallId → ℕ → ℕ → List ℕ
build_short_transfer id source destination =
    class_call_control
    ∷ call_short_transfer
    ∷ (id ++ (to_le 4 source ++ (to_le 4 destination ++ zeros 32)))

unfoldable pub build_sds_transfer_frame : CallId → ℕ → List ℕ → List ℕ
build_sds_transfer_frame id length_bits bytes =
    class_frame ∷ frame_sds_transfer ∷ (id ++ (to_le 2 length_bits ++ bytes))

unfoldable pub build_circular_call : ℕ → CallId → ℕ → ℕ → ℕ → List ℕ
build_circular_call call_state id source destination priority =
    class_call_control
    ∷ call_state
    ∷ (id
        ++ (to_le 4 source
            ++ (to_le 4 destination
                ++ (zeros 32 ++ (priority ∷ 0 ∷ 0 ∷ 1 ∷ 1 ∷ 0 ∷ 0 ∷ 0 ∷ 0 ∷ 0 ∷ 0 ∷ [])))))

unfoldable pub build_circular_call_setup : CallId → ℕ → ℕ → ℕ → List ℕ
unfolding build_circular_call
build_circular_call_setup id source destination priority =
    build_circular_call call_setup_request id source destination priority

unfoldable pub build_circular_connect_request : CallId → ℕ → ℕ → ℕ → List ℕ
unfolding build_circular_call
build_circular_connect_request id source destination priority =
    build_circular_call call_connect_request id source destination priority

unfoldable pub build_group_tx : CallId → ℕ → ℕ → ℕ → List ℕ
build_group_tx id source destination priority =
    class_call_control
    ∷ call_group_tx
    ∷ (id ++ (to_le 4 source ++ (to_le 4 destination ++ (priority ∷ 0 ∷ to_le 2 0))))

unfoldable pub build_dtmf_frame : CallId → ℕ → List ℕ
build_dtmf_frame id digit = class_frame ∷ frame_dtmf ∷ (id ++ (to_le 2 8 ++ (digit ∷ [])))
