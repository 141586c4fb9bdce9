-- ===== src/Fedroute/Dedup.antt =====
-- Copies of one call or short message over several peer links (src/fedroute.rs, `is_duplicate` and
-- `note_call`). Instants are milliseconds of a clock that does not go back.
use brew_server.Common.{
  ℕ, ◌-◌, ◌≡◌, Bool, false, not, ◌&&◌, ◌||◌, Option, none, some, arith, ltb, ◌==◌, nat_eq, list_eq,
  pair_eq, nat_beq_iff, eq_self, lookup, insert, lookup-insert,
}
use brew_server.State.{ClientId, CallId, Inner, ActiveCall}

abbrev pub call_dedup_window : ℕ
call_dedup_window = 5000

-- The talker and the link of the call or short message that runs under the id.
unfoldable pub live : Inner → CallId → Option (ℕ × ClientId)
live inner id = elim (lookup id inner.calls) [
  | some c ↦ some (c.source_issi, c.owner)
  | none ↦ elim (lookup id inner.sds_routes) [
    | some r ↦ some (r.source_issi, r.source_client)
    | none ↦ none
  ]
]

abbrev pub is_other : Option (ℕ × ClientId) → ℕ → ClientId → Bool
is_other none src link = false
is_other (some (s, owner)) src link = s == src && not (owner == link)

abbrev pub is_recent : Option (ClientId × ℕ) → ClientId → ℕ → Bool
is_recent none link now = false
is_recent (some (first, at)) link now = not (first == link) && ltb (now - at) call_dedup_window

unfoldable pub is_duplicate : Inner → CallId → ℕ → ClientId → ℕ → Bool
unfolding live
is_duplicate inner id src link now =
    is_other (live inner id) src link || is_recent (lookup (id, src) inner.recent_calls) link now

unfoldable pub note_call : Inner → CallId → ℕ → ClientId → ℕ → Inner
note_call inner id src link now = record inner {
  recent_calls = insert (id, src) (link, now) inner.recent_calls;
}

-- While a call runs over the link it was accepted from, its header is a duplicate exactly if it
-- comes over another link, at any time.
pub running_is_duplicate :
    (inner : Inner) (id : CallId) (c : ActiveCall) (other : ClientId) (at now : ℕ)
    → lookup id inner.calls ≡ some c
    → is_duplicate (note_call inner id c.source_issi c.owner at) id c.source_issi other now
      ≡ not (c.owner == other)
unfolding is_duplicate note_call live
running_is_duplicate inner id c other at now e = ground (
  arith,
  nat_beq_iff c.source_issi c.source_issi,
  lookup-insert (id, c.source_issi) (id, c.source_issi) (c.owner, at) inner.recent_calls,
  eq_self {A = CallId × ℕ} (id, c.source_issi),
)
