-- ===== src/Router/Floor/Parties.antt =====
-- Private calls, control messages and frames keep the calls and floors right (src/router.rs).
use brew_server.Common.{
  ℕ, ◌≡◌, refl, false, inl, inr, Bool-cases, Option-cases, some, List, arith, nat_eq, list_eq,
  option_eq, lookup, insert, lookup-insert, insert-Uniq, contains,
}
use brew_server.State.{ClientId, CallId, Inner, ActiveCall, is_group}
use brew_server.Protocol.Parse.{CallPayload}
use brew_server.Router.{Env}
use brew_server.Router.Group.{copied}
use brew_server.Router.Calls.{touch}
use brew_server.Router.Floor.{CallsInv, insert-Apart, replaced-CallsInv}
use brew_server.Router.Private.{
  setup_of, start_private, reject_setup, place_private, barred, handle_private_setup, Setup,
}
use brew_server.Router.Calls.{is_reject, route_private_control, route_frame, may_talk}
use brew_server.Router.{is_peer}
use brew_server.Fedroute.Dedup.{note_call}
use brew_server.Router.Floor.Handlers.{end_call-CallsInv}

pub insert_private-CallsInv :
    (inner : Inner) (id : CallId) (call : ActiveCall)
    → is_group call.kind ≡ false
    → contains call.peers call.owner ≡ false
    → CallsInv inner
    → CallsInv (record inner { calls = insert id call inner.calls })
insert_private-CallsInv inner id call k n v = record {
  unique = insert-Uniq id call inner.calls v.unique;
  holds = λ u c e g. ground (arith, lookup-insert id u call inner.calls, v.holds u c);
  apart = insert-Apart inner.calls id call v.apart n;
}

start_private-CallsInv :
    (env : Env) (inner : Inner) (source target : ClientId) (id : CallId) (s : Setup) (raw : List ℕ)
    → nat_eq.test target source ≡ false
    → CallsInv inner
    → CallsInv (start_private env inner source id s target raw).inner
unfolding start_private contains
start_private-CallsInv env inner source target id s raw n v =
    insert_private-CallsInv inner id _ refl (ground arith) v

place_private-CallsInv :
    (env : Env) (inner : Inner) (source : ClientId) (id : CallId) (s : Setup) (raw : List ℕ)
    → CallsInv inner
    → CallsInv (place_private env inner source id s raw).inner
unfolding place_private reject_setup
place_private-CallsInv env inner source id s raw v = elim (Bool-cases (barred env s)) [
  | inl b ↦ rw (b, place_private) v
  | inr n ↦ elim (Option-cases (lookup s.destination inner.subscribers)) [
    | inl m ↦ elim (Bool-cases (env.brew_to_sip id s.source_issi s.number s.destination)) [
      | inl t ↦ rw (n, m, t, place_private) v
      | inr t ↦ rw (n, m, t, place_private) v
    ]
    | inr (sub, e) ↦ elim (Bool-cases (nat_eq.test sub.client_id source)) [
      | inl t ↦ elim (Bool-cases (is_peer inner source)) [
        | inl p ↦ rw (n, e, t, p, place_private) v
        | inr p ↦ rw (n, e, t, p, place_private) v
      ]
      | inr t ↦
          rw (n, e, t, place_private)
            (start_private-CallsInv env inner source sub.client_id id s raw t v)
    ]
  ]
]

-- So does a set-up of a private call.
pub handle_private_setup-CallsInv :
    (env : Env) (inner : Inner) (source : ClientId) (id : CallId) (payload : CallPayload)
    (raw : List ℕ)
    → CallsInv inner
    → CallsInv (handle_private_setup env inner source id payload raw).inner
unfolding handle_private_setup note_call
handle_private_setup-CallsInv env inner source id payload raw v =
    elim (Option-cases (setup_of payload)) [
      | inl n ↦ rw (n, handle_private_setup) v
      | inr (s, e) ↦ elim (Bool-cases (copied env inner source id s.source_issi)) [
        | inl c ↦ rw (e, c, handle_private_setup) v
        | inr c ↦
            let noted = note_call inner id s.source_issi source env.now in
            rw (e, c, handle_private_setup)
              (place_private-CallsInv env noted source id s raw
                (record { unique = v.unique; holds = v.holds; apart = v.apart }))
      ]
    ]

touch-CallsInv :
    (inner : Inner) (id : CallId) (call : ActiveCall) (now : ℕ)
    → lookup id inner.calls ≡ some call
    → CallsInv inner
    → CallsInv (touch inner id call now)
unfolding touch
touch-CallsInv inner id call now e v =
    replaced-CallsInv inner id call _ e refl refl (v.apart id call e) v

pub route_frame-CallsInv :
    (env : Env) (inner : Inner) (source : ClientId) (id : CallId) (raw : List ℕ)
    → CallsInv inner
    → CallsInv (route_frame env inner source id raw).inner
unfolding route_frame
route_frame-CallsInv env inner source id raw v = elim (Option-cases (lookup id inner.calls)) [
  | inl n ↦ rw (n, route_frame) v
  | inr (call, e) ↦ elim (Bool-cases (may_talk source call)) [
    | inl m ↦ rw (e, m, route_frame) (touch-CallsInv inner id call env.now e v)
    | inr m ↦ rw (e, m, route_frame) v
  ]
]

pub route_private_control-CallsInv :
    (env : Env) (inner : Inner) (source : ClientId) (id : CallId) (raw : List ℕ)
    → CallsInv inner
    → CallsInv (route_private_control env inner source id raw).inner
unfolding route_private_control
route_private_control-CallsInv env inner source id raw v = elim (Bool-cases (is_reject raw)) [
  | inl r ↦ rw (r, route_private_control) (end_call-CallsInv env inner source id raw v)
  | inr r ↦ elim (Option-cases (lookup id inner.calls)) [
    | inl n ↦ rw (r, n, route_private_control) v
    | inr (call, e) ↦ elim (Bool-cases (is_group call.kind)) [
      | inl g ↦ rw (r, e, g, route_private_control) v
      | inr g ↦ rw (r, e, g, route_private_control) (touch-CallsInv inner id call env.now e v)
    ]
  ]
]
