-- ===== src/Router/Sweep.antt =====
-- Calls that run too long or carry nothing (src/router.rs: `expired_calls`, `idle_calls`, and one
-- turn of `run_call_duration_sweep`).
pub mod Fate
pub mod Ends
use brew_server.Common.{
  ℕ, ◌-◌, ◌*◌, Bool, true, false, not, ◌&&◌, ◌||◌, Option, none, some, List, [], ◌∷◌, ◌++◌,
  if◌then◌else◌, leb, nat_beq, ◌==◌, nat_eq, list_eq, Map, lookup, contains,
}
use brew_server.State.{
  ClientId, CallId, Client, Inner, ActiveCall, CallKind, is_group, is_mode, terminal,
}
use brew_server.Protocol.{build_call_cause, call_group_idle, call_release}
use brew_server.Router.{Env, Outcome, quiet}
use brew_server.Router.Calls.{end_call}

-- A call to end: its id, owner and kind.
pub record Due : Type 0 where
  pub id : CallId
  pub owner : ClientId
  pub kind : CallKind

abbrev pub due : CallId → ActiveCall → Due
due id call = record { id = id; owner = call.owner; kind = call.kind }

unfoldable pub due_where : (ActiveCall → Bool) → Map CallId ActiveCall → List Due
due_where p [] = []
due_where p ((id, call) ∷ calls) =
    let rest = due_where p calls in if p call then due id call ∷ rest else rest

-- The limit is in ms; 0 is none.
abbrev pub is_expired : ℕ → ℕ → ActiveCall → Bool
is_expired limit now call = leb limit (now - call.started_at)

unfoldable pub expired_calls : Map CallId ActiveCall → ℕ → ℕ → List Due
unfolding due_where
expired_calls calls limit now =
    if nat_beq limit 0 then [] else due_where (is_expired limit now) calls

unfoldable pub any_of : (ClientId → Bool) → List ClientId → Bool
any_of p [] = false
any_of p (x ∷ xs) = p x || any_of p xs

abbrev pub is_idle : ℕ → (ClientId → Bool) → ℕ → ActiveCall → Bool
is_idle idle_ms is_bridged now call =
    leb idle_ms (now - call.last_activity_ms)
    && not (is_bridged call.owner)
    && not (any_of is_bridged call.peers)

unfoldable pub idle_calls : Map CallId ActiveCall → ℕ → (ClientId → Bool) → ℕ → List Due
unfolding due_where any_of
idle_calls calls idle_ms is_bridged now =
    if nat_beq idle_ms 0 then [] else due_where (is_idle idle_ms is_bridged now) calls

-- The SIP bridge's virtual connections: terminals without an address.
unfoldable pub is_bridged : Map ClientId Client → ClientId → Bool
is_bridged clients id = elim (lookup id clients) [
  | none ↦ false
  | some c ↦ is_mode c.mode terminal && elim c.remote_addr [ none ↦ true | some a ↦ false ]
]

unfoldable pub lists : List Due → CallId → Bool
lists [] id = false
lists (d ∷ ds) id = d.id == id || lists ds id

-- The idle calls that are not in the list yet.
unfoldable pub append_new : List Due → List Due → List Due
unfolding lists
append_new v [] = v
append_new v (d ∷ ds) = append_new (if lists v d.id then v else v ++ (d ∷ [])) ds

unfoldable pub overdue : Env → Inner → List Due
unfolding expired_calls idle_calls append_new is_bridged
overdue env inner =
    append_new (expired_calls inner.calls (env.config.max_call_duration_seconds * 1000) env.now) (
      idle_calls inner.calls (env.config.call_inactivity_timeout_seconds * 1000)
        (is_bridged inner.clients) env.now)

unfoldable pub end_due : Env → Inner → Due → Outcome
unfolding end_call
end_due env inner d =
    let release_state = if is_group d.kind then call_group_idle else call_release in
    end_call env inner d.owner d.id (build_call_cause release_state d.id 0)

unfoldable pub end_all : Env → Inner → List Due → Outcome
unfolding end_due
end_all env inner [] = quiet inner
end_all env inner (d ∷ ds) =
    let first = end_due env inner d in
    let rest = end_all env first.inner ds in
    record {
      inner = rest.inner;
      sends = first.sends ++ rest.sends;
      ended = first.ended ++ rest.ended;
    }

unfoldable pub sweep : Env → Inner → Outcome
unfolding overdue end_all
sweep env inner = end_all env inner (overdue env inner)
