-- ===== src/Router/Voice.antt =====
-- Who hears a call (src/router.rs, `call_frame_recipients` and `late_entry`).
use brew_server.Common.{
  ℕ, ◌≡◌, refl, Bool, false, inl, inr, Bool-cases, Option-cases, not, ◌&&◌, ◌||◌, none, some, List,
  [], ◌∷◌, arith, if◌then◌else◌, ◌==◌, nat_eq, nat_beq_iff, list_eq, All, Map, lookup, contains_key,
  contains, contains-add, contains-discard, add,
}
use brew_server.State.{ClientId, CallId, Client, Inner, ActiveCall, is_group, Send}
use brew_server.Connections.{tell}
use brew_server.Router.{Env}
use brew_server.Router.Calls.{is_party, may_talk, others, route_frame}

-- Whether the connection is sent something.
unfoldable pub sent_to : List Send → ClientId → Bool
sent_to [] c = false
sent_to ((d, msg) ∷ sends) c = d == c || sent_to sends c

sent_to-tell :
    (clients : Map ClientId Client) (msg : List ℕ) (cs : List ClientId) (c : ClientId)
    → sent_to (tell clients msg cs) c ≡ (contains cs c && contains_key c clients)
unfolding tell sent_to contains
sent_to-tell clients msg [] c = refl
sent_to-tell clients msg (d ∷ cs) c = ground (arith, nat_beq_iff d c, sent_to-tell clients msg cs c)

tell_same :
    (clients : Map ClientId Client) (msg : List ℕ) (cs : List ClientId)
    → All (λ (s : Send). s.1 ≡ msg) (tell clients msg cs)
unfolding tell
tell_same clients msg [] = tt
tell_same clients msg (d ∷ cs) = elim (Bool-cases (contains_key d clients)) [
  | inl e ↦ rw e (refl, tell_same clients msg cs)
  | inr e ↦ rw e (tell_same clients msg cs)
]

-- Whether `c` hears what `source` says in the call: in a group call the listeners hear the talker,
-- in a private call each party the other.
abbrev pub hears : ClientId → ClientId → ActiveCall → Bool
hears source c call =
    not (source == c)
    && (if is_group call.kind
        then call.owner == source && contains call.peers c
        else is_party source call && is_party c call)

-- A voice or DTMF frame goes unchanged to exactly those connected parties that hear its sender in
-- the call, and to nobody if there is no such call.
pub route_frame_reaches :
    (env : Env) (inner : Inner) (source : ClientId) (id : CallId) (raw : List ℕ) (c : ClientId)
    → (sent_to (route_frame env inner source id raw).sends c ≡ (elim (lookup id inner.calls) [
      | none ↦ false
      | some call ↦ hears source c call && contains_key c inner.clients
    ]))
      × All (λ (s : Send). s.1 ≡ raw) (route_frame env inner source id raw).sends
unfolding route_frame sent_to
route_frame_reaches env inner source id raw c = elim (Option-cases (lookup id inner.calls)) [
  | inl n ↦ rw (n, route_frame) (refl, tt)
  | inr (call, e) ↦ elim (Bool-cases (may_talk source call)) [
    | inl m ↦
        rw (e, m, route_frame)
          (
            ground (
              arith,
              sent_to-tell inner.clients raw (others source call) c,
              contains-discard source c call.peers,
              contains-discard source c (add call.owner call.peers),
              contains-add call.owner c call.peers,
            ),
            tell_same inner.clients raw (others source call),
          )
    | inr m ↦ rw (e, m, route_frame) (ground arith, tt)
  ]
]
