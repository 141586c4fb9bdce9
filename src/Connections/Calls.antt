-- ===== src/Connections/Calls.antt =====
-- The calls of a connection that goes away (src/state.rs, `cleanup_client`).
use brew_server.Common.{
  ℕ, ◌≡◌, false, inl, inr, Bool-cases, ◌||◌, [], ◌∷◌, arith, ◌==◌, nat_eq, nat_beq_iff, All, Map,
  contains, discard, contains-discard,
}
use brew_server.State.{ClientId, CallId, Client, Inner, ActiveCall}
use brew_server.Connections.{ends, end_calls, cleanup_client}

-- The connection has no part in the call.
abbrev pub Apart : ClientId → CallId × ActiveCall → Type 0
Apart id x = (x.1.owner == id) || contains x.1.peers id ≡ false

stays-Apart :
    (id : ClientId) (uuid : CallId) (call : ActiveCall)
    → ends id call ≡ false
    → Apart id (uuid, record call { peers = discard id call.peers })
stays-Apart id uuid call n = ground (arith, contains-discard id id call.peers, nat_beq_iff id id)

end_calls-Apart :
    (id : ClientId) (clients : Map ClientId Client) (calls : Map CallId ActiveCall)
    (floor : Map ℕ CallId)
    → All (Apart id) (end_calls id clients calls floor).calls
unfolding end_calls
end_calls-Apart id clients [] floor = tt
end_calls-Apart id clients ((uuid, call) ∷ calls) floor = elim (Bool-cases (ends id call)) [
  | inl e ↦ rw e (end_calls-Apart id clients calls _)
  | inr n ↦ rw n (stays-Apart id uuid call n, end_calls-Apart id clients calls floor)
]

-- No call is left that the connection owns or takes part in, whatever calls were running.
pub cleanup_client-Apart :
    (inner : Inner) (id : ClientId) → All (Apart id) (cleanup_client inner id).inner.calls
unfolding cleanup_client
cleanup_client-Apart inner id = end_calls-Apart id _ _ _
