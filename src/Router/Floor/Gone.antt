-- ===== src/Router/Floor/Gone.antt =====
-- A connection that goes away (src/state.rs, `cleanup_client`) keeps the calls and floors right.
use brew_server.Common.{
  ℕ, ◌≡◌, refl, ap, ◌∙◌, Bool, true, false, inl, inr, Bool-cases, Option-cases, Option, none, some,
  [], ◌∷◌, arith, if◌then◌else◌, nat_eq, nat_beq_iff, list_eq, list_beq_iff, option_eq,
  option_beq_iff, Map, lookup, lookup-remove, Uniq, discard, contains-discard,
}
use brew_server.State.{ClientId, CallId, Client, Inner, ActiveCall}
use brew_server.Connections.{ends, end_calls, cleanup_client, reroute_away}
use brew_server.Connections.Floors.{reroute_away-SameCalls, freed, floor-cons}
use brew_server.Router.Floor.{Holds, Apart, CallsInv}

-- A call as the connection leaves it.
abbrev without : ClientId → ActiveCall → ActiveCall
without id c = record c { peers = discard id c.peers }

-- What is left of the calls.
abbrev left : ClientId → Option ActiveCall → Option ActiveCall
left id none = none
left id (some c) = if ends id c then none else some (without id c)

calls-cons :
    (id : ClientId) (clients : Map ClientId Client) (uuid : CallId) (call : ActiveCall)
    (calls : Map CallId ActiveCall) (floor : Map ℕ CallId)
    → (end_calls id clients ((uuid, call) ∷ calls) floor).calls ≡ (
        if ends id call
        then (end_calls id clients calls (freed id uuid call floor)).calls
        else (uuid, without id call)
          ∷ (end_calls id clients calls (freed id uuid call floor)).calls)
unfolding end_calls
calls-cons id clients uuid call calls floor = elim (Bool-cases (ends id call)) [
  | inl e ↦ rw e refl
  | inr n ↦ rw n refl
]

lookup-end_calls :
    (id : ClientId) (clients : Map ClientId Client) (calls : Map CallId ActiveCall)
    (floor : Map ℕ CallId) (u : CallId)
    → Uniq calls
    → lookup u (end_calls id clients calls floor).calls ≡ left id (lookup u calls)
unfolding lookup end_calls
lookup-end_calls id clients [] floor u q = refl
lookup-end_calls id clients ((uuid, call) ∷ calls) floor u (n, q) =
    let rest = lookup-end_calls id clients calls (freed id uuid call floor) u q in
    ap (lookup u) (calls-cons id clients uuid call calls floor)
    ∙ (elim (Bool-cases (ends id call)) [
      | inl e ↦ rw e (ground (arith, list_beq_iff uuid u))
      | inr e ↦ rw e (ground (arith, list_beq_iff uuid u))
    ])

cons-Uniq :
    (b : Bool) (u : CallId) (c : ActiveCall) (calls : Map CallId ActiveCall)
    → lookup u calls ≡ none
    → Uniq calls
    → Uniq (if b then calls else (u, c) ∷ calls)
cons-Uniq true u c calls n q = q
cons-Uniq false u c calls n q = (n, q)

end_calls-Uniq :
    (id : ClientId) (clients : Map ClientId Client) (calls : Map CallId ActiveCall)
    (floor : Map ℕ CallId)
    → Uniq calls
    → Uniq (end_calls id clients calls floor).calls
unfolding end_calls
end_calls-Uniq id clients [] floor q = tt
end_calls-Uniq id clients ((uuid, call) ∷ calls) floor (n, q) =
    let after = freed id uuid call floor in
    let rest = end_calls-Uniq id clients calls after q in
    rw (calls-cons id clients uuid call calls floor) (
      cons-Uniq (ends id call) uuid (without id call) (end_calls id clients calls after).calls
        (lookup-end_calls id clients calls after uuid q ∙ rw n refl) rest)

-- A floor that a call holds that goes on stays.
lookup-freed-other :
    (id : ClientId) (uuid : CallId) (call : ActiveCall) (floor : Map ℕ CallId) (g : ℕ) (u : CallId)
    → (u ≡ uuid → ends id call ≡ false)
    → lookup g floor ≡ some u
    → lookup g (freed id uuid call floor) ≡ some u
lookup-freed-other id uuid call floor g u stays h = ground (
  arith,
  lookup-remove call.destination g floor,
  nat_beq_iff call.destination g,
  option_beq_iff (lookup call.destination floor) (some uuid),
)

end_calls-keeps :
    (id : ClientId) (clients : Map ClientId Client) (calls : Map CallId ActiveCall)
    (floor : Map ℕ CallId) (g : ℕ) (u : CallId)
    → Uniq calls
    → ((c : ActiveCall) → lookup u calls ≡ some c → ends id c ≡ false)
    → lookup g floor ≡ some u
    → lookup g (end_calls id clients calls floor).group_floor ≡ some u
unfolding end_calls lookup
end_calls-keeps id clients [] floor g u q stays h = h
end_calls-keeps id clients ((uuid, call) ∷ calls) floor g u (n, q) stays h =
    rw (floor-cons id clients uuid call calls floor) (
      end_calls-keeps id clients calls (freed id uuid call floor) g u q
        (λ c e. stays c (ground (arith, list_beq_iff uuid u)))
        (lookup-freed-other id uuid call floor g u
          (λ s. stays call (ground (arith, list_beq_iff uuid u))) h))

-- A connection that goes away keeps the calls and floors right.
pub cleanup_client-CallsInv :
    (inner : Inner) (id : ClientId) → CallsInv inner → CallsInv (cleanup_client inner id).inner
unfolding cleanup_client
cleanup_client-CallsInv inner id v =
    let r = (reroute_away inner id).0 in
    let f = reroute_away-SameCalls inner id in
    let unique : Uniq r.calls = rw f.calls v.unique in
    let holds : Holds r.calls r.group_floor = rw (f.calls, f.floors) v.holds in
    let apart : Apart r.calls = rw f.calls v.apart in
    record {
      unique = end_calls-Uniq id r.clients r.calls r.group_floor unique;
      holds = λ u d e g. elim (Option-cases (lookup u r.calls)) [
        | inl n ↦
            absurd (ground (arith, lookup-end_calls id r.clients r.calls r.group_floor u unique))
        | inr (c, p) ↦
            let after = lookup-end_calls id r.clients r.calls r.group_floor u unique in
            let stays : ends id c ≡ false = ground arith in
            let same : without id c ≡ d = ground arith in
            rw (← same) (
              end_calls-keeps id r.clients r.calls r.group_floor c.destination u unique
                (λ b q. ground arith) (holds u c p (rw (← same) at g)))
      ];
      apart = λ u d e. elim (Option-cases (lookup u r.calls)) [
        | inl n ↦
            absurd (ground (arith, lookup-end_calls id r.clients r.calls r.group_floor u unique))
        | inr (c, p) ↦
            let after = lookup-end_calls id r.clients r.calls r.group_floor u unique in
            let stays : ends id c ≡ false = ground arith in
            let same : without id c ≡ d = ground arith in
            rw (← same) (ground (arith, contains-discard id c.owner c.peers, apart u c p))
      ];
    }
