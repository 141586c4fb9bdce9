-- ===== src/Router/Calls.antt =====
-- Running calls (src/router.rs): their end, their control messages, and their voice and DTMF frames.
use brew_server.Common.{
  ℕ, Bool, not, ◌&&◌, ◌||◌, none, some, List, [], ◌∷◌, if◌then◌else◌, ◌==◌, nat_eq, list_eq,
  option_eq, lookup, insert, remove, contains, add, discard, get_elem?,
}
use brew_server.State.{ClientId, CallId, Inner, ActiveCall, is_group}
use brew_server.Protocol.{call_setup_reject}
use brew_server.Fedroute.Dedup.{note_call}
use brew_server.Connections.{tell}
use brew_server.Router.{Env, Outcome, quiet}

abbrev pub is_party : ClientId → ActiveCall → Bool
is_party c call = call.owner == c || contains call.peers c

-- Who may end the call: a party of a private call, the talker of a group call.
abbrev pub may_end : ClientId → ActiveCall → Bool
may_end c call = is_party c call && not (is_group call.kind && not (call.owner == c))

-- Who else hears of it: the owner of a group call is its talker.
abbrev pub others : ClientId → ActiveCall → List ClientId
others source call =
    discard source (if is_group call.kind then call.peers else add call.owner call.peers)

unfoldable pub end_call : Env → Inner → ClientId → CallId → List ℕ → Outcome
unfolding note_call
end_call env inner source id raw = elim (lookup id inner.calls) [
  | none ↦ quiet inner
  | some call ↦
      let rest = remove id inner.calls in
      if not (may_end source call)
      then quiet (record inner { calls = insert id call rest })
      else let floor =
          if is_group call.kind && lookup call.destination inner.group_floor == some id
          then remove call.destination inner.group_floor
          else inner.group_floor in
        let ended = record inner { calls = rest; group_floor = floor } in
        record {
          inner = note_call ended id call.source_issi call.owner env.now;
          sends = tell inner.clients raw (others source call);
          ended = id ∷ [];
        }
]

-- `ActiveCall::touch` (src/state.rs) on a call of the table.
unfoldable pub touch : Inner → CallId → ActiveCall → ℕ → Inner
touch inner id call now = record inner {
  calls = insert id (record call { last_activity_ms = now }) inner.calls;
}

abbrev pub is_reject : List ℕ → Bool
is_reject raw = get_elem? raw 1 == some call_setup_reject

unfoldable pub route_private_control : Env → Inner → ClientId → CallId → List ℕ → Outcome
unfolding end_call touch
route_private_control env inner source id raw =
    if is_reject raw then end_call env inner source id raw else elim (lookup id inner.calls) [
      | none ↦ quiet inner
      | some call ↦ if is_group call.kind then quiet inner else record {
        inner = touch inner id call env.now;
        sends = tell inner.clients raw (discard source (add call.owner call.peers));
        ended = [];
      }
    ]

-- Who may send a frame of the call.
abbrev pub may_talk : ClientId → ActiveCall → Bool
may_talk source call = if is_group call.kind then call.owner == source else is_party source call

-- `call_frame_recipients`, with the frame sent to each of them, as `route_call_frame` and
-- `route_dtmf_frame` do.
unfoldable pub route_frame : Env → Inner → ClientId → CallId → List ℕ → Outcome
unfolding touch
route_frame env inner source id raw = elim (lookup id inner.calls) [
  | none ↦ quiet inner
  | some call ↦ if not (may_talk source call) then quiet inner else record {
    inner = touch inner id call env.now;
    sends = tell inner.clients raw (others source call);
    ended = [];
  }
]
