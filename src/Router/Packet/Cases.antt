-- ===== src/Router/Packet/Cases.antt =====
-- The dispatch of a message, case by case (src/router.rs, `handle_packet`).
use brew_server.Common.{ℕ, inl, inr, Bool-cases, ◌||◌, List, nat_beq}
use brew_server.State.{ClientId, Inner}
use brew_server.Protocol.{
  call_group_tx, call_short_transfer, call_setup_request, call_group_idle, call_release,
}
use brew_server.Protocol.Build.{frame_sds_transfer, frame_dtmf}
use brew_server.Protocol.Parse.{CallControlMessage, FrameMessage}
use brew_server.Router.{Env}
use brew_server.Router.Group.{handle_group_tx}
use brew_server.Router.Calls.{end_call, route_private_control, route_frame}
use brew_server.Router.Private.{handle_private_setup}
use brew_server.Router.Sds.{handle_sds_header, handle_sds_transfer, handle_sds_report}
use brew_server.Router.Packet.{
  on_call_control, on_frame, is_private_control, frame_sds_report, frame_traffic_channel,
}

-- What every handler of call control does to the state, `on_call_control` does.
pub on_call_control-cases :
    (P : Inner → Type 0) (env : Env) (inner : Inner) (source : ClientId) (cc : CallControlMessage)
    (raw : List ℕ)
    → P (handle_group_tx env inner source cc.identifier cc.payload raw).inner
    → P (handle_sds_header env inner source cc.identifier cc.payload raw).inner
    → P (handle_private_setup env inner source cc.identifier cc.payload raw).inner
    → P (route_private_control env inner source cc.identifier raw).inner
    → P (end_call env inner source cc.identifier raw).inner
    → P inner
    → P (on_call_control env inner source cc raw).inner
unfolding on_call_control
on_call_control-cases P env inner source cc raw tx sds setup control ended other =
    elim (Bool-cases (nat_beq cc.call_state call_group_tx)) [
      | inl a ↦ rw (a, on_call_control) tx
      | inr a ↦ elim (Bool-cases (nat_beq cc.call_state call_short_transfer)) [
        | inl b ↦ rw (a, b, on_call_control) sds
        | inr b ↦ elim (Bool-cases (nat_beq cc.call_state call_setup_request)) [
          | inl c ↦ rw (a, b, c, on_call_control) setup
          | inr c ↦ elim (Bool-cases (is_private_control cc.call_state)) [
            | inl d ↦ rw (a, b, c, d, on_call_control) control
            | inr d ↦
                elim (Bool-cases
                  (nat_beq cc.call_state call_group_idle || nat_beq cc.call_state call_release)) [
                    | inl e ↦ rw (a, b, c, d, e, on_call_control) ended
                    | inr e ↦ rw (a, b, c, d, e, on_call_control) other
                  ]
          ]
        ]
      ]
    ]

pub on_frame-cases :
    (P : Inner → Type 0) (env : Env) (inner : Inner) (source : ClientId) (f : FrameMessage)
    (raw : List ℕ)
    → P (handle_sds_transfer env inner source f.identifier raw).inner
    → P (handle_sds_report inner source f.identifier raw).inner
    → P (route_frame env inner source f.identifier raw).inner
    → P inner
    → P (on_frame env inner source f raw).inner
unfolding on_frame
on_frame-cases P env inner source f raw transfer report voice other =
    elim (Bool-cases (nat_beq f.frame_type frame_sds_transfer)) [
      | inl a ↦ rw (a, on_frame) transfer
      | inr a ↦ elim (Bool-cases (nat_beq f.frame_type frame_sds_report)) [
        | inl b ↦ rw (a, b, on_frame) report
        | inr b ↦
            elim (Bool-cases
              (nat_beq f.frame_type frame_traffic_channel || nat_beq f.frame_type frame_dtmf)) [
                | inl c ↦ rw (a, b, c, on_frame) voice
                | inr c ↦ rw (a, b, c, on_frame) other
              ]
      ]
    ]
