-- ===== src/Router/Sweep/Fate.antt =====
-- What the sweep is meant to make of a call, apart from how src/router.rs finds the calls that are due
-- (`expired_calls`, `idle_calls`).
use brew_server.Common.{
  ◌+◌, ◌*◌, ◌≤◌, ◌<◌, ◌≡◌, refl, contains, Bool, true, inl, inr, Bool-cases, Option-cases, not,
  ◌&&◌, ◌||◌, Option, none, some, List, [], ◌∷◌, arith, if◌then◌else◌, nat_beq, nat_eq, nat_beq_iff,
  list_eq, lookup,
}
use brew_server.State.{
  ClientId, Client, Inner, ActiveCall, ClientMode, terminal, basestation, peer, is_mode,
}
use brew_server.Router.{Env}
use brew_server.Router.Calls.{is_party}
use brew_server.Router.Sweep.{is_expired, is_idle, is_bridged, any_of}

-- Whether a call has run too long, or carried nothing for too long.
abbrev pub is_overdue : Env → Inner → ActiveCall → Bool
is_overdue env inner call =
    let limit = env.config.max_call_duration_seconds * 1000 in
    let idle_ms = env.config.call_inactivity_timeout_seconds * 1000 in
    not (nat_beq limit 0) && is_expired limit env.now call
    || not (nat_beq idle_ms 0) && is_idle idle_ms (is_bridged inner.clients) env.now call

-- A connection that the SIP bridge plays: a terminal without an address.
abbrev pub PlaysSip : Inner → ClientId → Type 0
PlaysSip inner id =
    (client : Client) × (lookup id inner.clients ≡ some client)
    × (client.mode ≡ terminal)
    × (client.remote_addr ≡ none)

-- The call has run for the longest duration allowed.
abbrev pub RanLong : Env → ActiveCall → Type 0
RanLong env c =
    (0 < env.config.max_call_duration_seconds)
    × (c.started_at + env.config.max_call_duration_seconds * 1000 ≤ env.now)

-- The call has carried nothing for the longest time allowed, and SIP has no part in it.
abbrev pub FellSilent : Env → Inner → ActiveCall → Type 0
FellSilent env inner c =
    (0 < env.config.call_inactivity_timeout_seconds)
    × (c.last_activity_ms + env.config.call_inactivity_timeout_seconds * 1000 ≤ env.now)
    × ((id : ClientId) → is_party id c ≡ true → PlaysSip inner id → ⊥)

-- What the sweep makes of an entry of the table.
pub data Fate (env : Env) (inner : Inner) : Option ActiveCall → Option ActiveCall → Type 0 where
  absent : Fate env inner none none
  ran_long : (c : ActiveCall) → RanLong env c → Fate env inner (some c) none
  fell_silent : (c : ActiveCall) → FellSilent env inner c → Fate env inner (some c) none
  goes_on :
      (c : ActiveCall)
      → (RanLong env c → ⊥)
      → (FellSilent env inner c → ⊥)
      → Fate env inner (some c) (some c)

mode_of_terminal : (m : ClientMode) → is_mode m terminal ≡ true → m ≡ terminal
mode_of_terminal terminal h = refl
mode_of_terminal basestation h = absurd cc
mode_of_terminal peer h = absurd cc

is_bridged-PlaysSip :
    (inner : Inner) (id : ClientId) → is_bridged inner.clients id ≡ true → PlaysSip inner id
unfolding is_bridged
is_bridged-PlaysSip inner id b = elim (Option-cases (lookup id inner.clients)) [
  | inl n ↦ absurd (ground arith)
  | inr (c, e) ↦ (
    c,
    e,
    mode_of_terminal c.mode (ground arith),
    elim (Option-cases c.remote_addr) [ inl n ↦ n | inr (a, h) ↦ absurd (ground arith) ],
  )
]

PlaysSip-is_bridged :
    (inner : Inner) (id : ClientId) → PlaysSip inner id → is_bridged inner.clients id ≡ true
unfolding is_bridged
PlaysSip-is_bridged inner id (client, e, m, a) = rw (is_bridged, e, m, a) refl

any_of-found :
    (p : ClientId → Bool) (ids : List ClientId) (id : ClientId)
    → contains ids id ≡ true
    → p id ≡ true
    → any_of p ids ≡ true
unfolding any_of contains
any_of-found p [] id c h = cc
any_of-found p (x ∷ xs) id c h = ground (arith, nat_beq_iff x id, any_of-found p xs id)

any_of-finds :
    (p : ClientId → Bool) (ids : List ClientId)
    → any_of p ids ≡ true
    → (id : ClientId) × (contains ids id ≡ true) × (p id ≡ true)
unfolding any_of contains
any_of-finds p [] h = absurd cc
any_of-finds p (x ∷ xs) h = elim (Bool-cases (p x)) [
  | inl e ↦ (x, ground (arith, nat_beq_iff x x), e)
  | inr e ↦ let (id, c, q) = any_of-finds p xs (ground arith) in (id, ground arith, q)
]

-- Whether SIP has a part in the call, as the code asks it.
abbrev has_sip : Inner → ActiveCall → Bool
has_sip inner c = is_bridged inner.clients c.owner || any_of (is_bridged inner.clients) c.peers

has_sip-finds :
    (inner : Inner) (c : ActiveCall)
    → has_sip inner c ≡ true
    → (id : ClientId) × (is_party id c ≡ true) × PlaysSip inner id
has_sip-finds inner c h = elim (Bool-cases (is_bridged inner.clients c.owner)) [
  | inl e ↦
      (c.owner, ground (arith, nat_beq_iff c.owner c.owner), is_bridged-PlaysSip inner c.owner e)
  | inr e ↦
      let (id, k, q) = any_of-finds (is_bridged inner.clients) c.peers (ground arith) in
      (id, ground arith, is_bridged-PlaysSip inner id q)
]

has_sip-found :
    (inner : Inner) (c : ActiveCall) (id : ClientId)
    → is_party id c ≡ true
    → PlaysSip inner id
    → has_sip inner c ≡ true
has_sip-found inner c id k s = ground (
  arith,
  nat_beq_iff c.owner id,
  PlaysSip-is_bridged inner id s,
  any_of-found (is_bridged inner.clients) c.peers id,
)

silent-FellSilent :
    (env : Env) (inner : Inner) (c : ActiveCall)
    → not (nat_beq (env.config.call_inactivity_timeout_seconds * 1000) 0)
        && is_idle
            (env.config.call_inactivity_timeout_seconds * 1000)
            (is_bridged inner.clients)
            env.now
            c
      ≡ true
    → FellSilent env inner c
silent-FellSilent env inner c h =
    (ground arith, ground arith, λ id k s. let sip = has_sip-found inner c id k s in ground arith)

FellSilent-silent :
    (env : Env) (inner : Inner) (c : ActiveCall)
    → FellSilent env inner c
    → not (nat_beq (env.config.call_inactivity_timeout_seconds * 1000) 0)
        && is_idle
            (env.config.call_inactivity_timeout_seconds * 1000)
            (is_bridged inner.clients)
            env.now
            c
      ≡ true
FellSilent-silent env inner c (t, u, f) = elim (Bool-cases (has_sip inner c)) [
  | inl e ↦ let (id, k, s) = has_sip-finds inner c e in absurd (f id k s)
  | inr e ↦ ground arith
]

pub entry-Fate :
    (env : Env) (inner : Inner) (c : ActiveCall)
    → Fate env inner (some c) (if is_overdue env inner c then none else some c)
entry-Fate env inner c = elim (Bool-cases (is_overdue env inner c)) [
  | inr e ↦
      rw e (
        goes_on c (λ r. ground arith)
          (λ f. let s = FellSilent-silent env inner c f in ground arith))
  | inl e ↦
      rw e
        (elim (Bool-cases (
          not (nat_beq (env.config.max_call_duration_seconds * 1000) 0)
          && is_expired (env.config.max_call_duration_seconds * 1000) env.now c)) [
            | inl l ↦ ran_long c (ground arith, ground arith)
            | inr l ↦ fell_silent c (silent-FellSilent env inner c (ground arith))
          ])
]
