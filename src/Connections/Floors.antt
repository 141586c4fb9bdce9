-- ===== src/Connections/Floors.antt =====
-- The floors of groups when a connection goes away (src/state.rs, `cleanup_client`).
use brew_server.Common.{
  ℕ, ◌≡◌, refl, sym, ap, ◌∙◌, Bool, true, false, inl, inr, Bool-cases, ◌&&◌, Option, none, some,
  List, [], ◌∷◌, arith, if◌then◌else◌, ◌==◌, nat_eq, nat_beq_iff, list_eq, option_eq, list_beq_iff,
  eq_self, All, Map, lookup, remove, lookup-remove, contains,
}
use brew_server.State.{ClientId, CallId, Client, Inner, ActiveCall, is_group, Subscriber}
use brew_server.Fedroute.Table.{reroute, set_effective, withdraw_offer}
use brew_server.Connections.{
  ends, end_calls, cleanup_client, drop_own, reroute_all, reroute_away, is_over,
}

-- A floor that the call holds is that of its own group, and the call is a group call.
abbrev pub HoldsOwn : Map ℕ CallId → CallId × ActiveCall → Type 0
HoldsOwn floor x =
    (g : ℕ) → lookup g floor ≡ some x.0 → (x.1.destination ≡ g) × (is_group x.1.kind ≡ true)

-- The floors without that of a call that ends.
abbrev pub freed : ClientId → CallId → ActiveCall → Map ℕ CallId → Map ℕ CallId
freed id uuid call floor =
    if ends id call && is_group call.kind && lookup call.destination floor == some uuid
    then remove call.destination floor
    else floor

lookup-freed :
    (id : ClientId) (uuid : CallId) (call : ActiveCall) (floor : Map ℕ CallId) (g : ℕ) (u : CallId)
    → lookup g (freed id uuid call floor) ≡ some u
    → lookup g floor ≡ some u
lookup-freed id uuid call floor g u h = ground (arith, lookup-remove call.destination g floor)

-- The loop on a call and the rest.
pub floor-cons :
    (id : ClientId) (clients : Map ClientId Client) (uuid : CallId) (call : ActiveCall)
    (calls : Map CallId ActiveCall) (floor : Map ℕ CallId)
    → (end_calls id clients ((uuid, call) ∷ calls) floor).group_floor
      ≡ (end_calls id clients calls (freed id uuid call floor)).group_floor
unfolding end_calls
floor-cons id clients uuid call calls floor = elim (Bool-cases (ends id call)) [
  | inl e ↦ rw e refl
  | inr n ↦ rw n refl
]

ended-cons :
    (id : ClientId) (clients : Map ClientId Client) (uuid : CallId) (call : ActiveCall)
    (calls : Map CallId ActiveCall) (floor : Map ℕ CallId)
    → (end_calls id clients ((uuid, call) ∷ calls) floor).ended ≡ (
        if ends id call
        then uuid ∷ (end_calls id clients calls (freed id uuid call floor)).ended
        else (end_calls id clients calls (freed id uuid call floor)).ended)
unfolding end_calls
ended-cons id clients uuid call calls floor = elim (Bool-cases (ends id call)) [
  | inl e ↦ rw e refl
  | inr n ↦ rw n refl
]

-- A floor that is left was held before.
lookup-end_calls :
    (id : ClientId) (clients : Map ClientId Client) (calls : Map CallId ActiveCall)
    (floor : Map ℕ CallId) (g : ℕ) (u : CallId)
    → lookup g (end_calls id clients calls floor).group_floor ≡ some u
    → lookup g floor ≡ some u
unfolding end_calls
lookup-end_calls id clients [] floor g u h = h
lookup-end_calls id clients ((uuid, call) ∷ calls) floor g u h =
    lookup-freed id uuid call floor g u (
      lookup-end_calls id clients calls (freed id uuid call floor) g u
        (rw (← floor-cons id clients uuid call calls floor) h))

All-HoldsOwn :
    (id : ClientId) (uuid : CallId) (call : ActiveCall) (floor : Map ℕ CallId)
    (calls : Map CallId ActiveCall)
    → All (HoldsOwn floor) calls
    → All (HoldsOwn (freed id uuid call floor)) calls
All-HoldsOwn id uuid call floor [] h = tt
All-HoldsOwn id uuid call floor (x ∷ calls) (h, hs) =
    (λ g e. h g (lookup-freed id uuid call floor g x.0 e), All-HoldsOwn id uuid call floor calls hs)

freed-own :
    (id : ClientId) (uuid : CallId) (call : ActiveCall) (floor : Map ℕ CallId) (g : ℕ)
    → HoldsOwn floor (uuid, call)
    → ends id call ≡ true
    → lookup g (freed id uuid call floor) ≡ some uuid
    → ⊥
freed-own id uuid call floor g h e k =
    let held = lookup-freed id uuid call floor g uuid k in
    let (own, grp) = h g held in
    let same : (lookup call.destination floor == some uuid) ≡ true =
      rw (own, held) (eq_self {A = Option CallId} (some uuid)) in
    let none_left : lookup g (remove call.destination floor) ≡ none =
      lookup-remove call.destination g floor ∙ rw own (ground (arith, nat_beq_iff g g)) in
    ground arith

contains_if :
    (b : Bool) (x u : CallId) (xs : List CallId)
    → contains xs u ≡ false
    → (b ≡ true → list_eq.test x u ≡ false)
    → contains (if b then x ∷ xs else xs) u ≡ false
unfolding contains
contains_if true x u xs h d = rw (d refl) h
contains_if false x u xs h d = h

-- No floor that is left belongs to a call that ended.
end_calls-floor :
    (id : ClientId) (clients : Map ClientId Client) (calls : Map CallId ActiveCall)
    (floor : Map ℕ CallId) (g : ℕ) (u : CallId)
    → All (HoldsOwn floor) calls
    → lookup g (end_calls id clients calls floor).group_floor ≡ some u
    → contains (end_calls id clients calls floor).ended u ≡ false
unfolding end_calls contains
end_calls-floor id clients [] floor g u hs h = refl
end_calls-floor id clients ((uuid, call) ∷ calls) floor g u (o, hs) h =
    let after = freed id uuid call floor in
    let h' : lookup g (end_calls id clients calls after).group_floor ≡ some u =
      rw (← floor-cons id clients uuid call calls floor) h in
    let rest : contains (end_calls id clients calls after).ended u ≡ false =
      end_calls-floor id clients calls after g u (All-HoldsOwn id uuid call floor calls hs) h' in
    rw (ended-cons id clients uuid call calls floor) (
      contains_if (ends id call) uuid u (end_calls id clients calls after).ended rest (λ e.
        elim (Bool-cases (list_eq.test uuid u)) [
          | inr d ↦ d
          | inl s ↦
              let same : uuid ≡ u = (list_beq_iff uuid u).0 s in
              let k : lookup g after ≡ some uuid =
                lookup-end_calls id clients calls after g u h' ∙ ap some (sym same) in
              absurd (freed-own id uuid call floor g o e k)
        ]))

-- Rerouting leaves the calls and the floors.
pub record SameCalls (inner after : Inner) : Type 0 where
  pub calls : after.calls ≡ inner.calls
  pub floors : after.group_floor ≡ inner.group_floor

pub reroute-SameCalls : (inner : Inner) (issi : ℕ) → SameCalls inner (reroute inner issi).0
unfolding reroute set_effective
reroute-SameCalls inner issi = record { calls = ground arith; floors = ground arith }

pub withdraw_offer-SameCalls :
    (inner : Inner) (issi : ℕ) (id : ClientId) → SameCalls inner (withdraw_offer inner issi id).0
unfolding withdraw_offer
withdraw_offer-SameCalls inner issi id = record { calls = ground arith; floors = ground arith }

pub SameCalls-trans : (a b c : Inner) → SameCalls a b → SameCalls b c → SameCalls a c
SameCalls-trans a b c f g = record { calls = g.calls ∙ f.calls; floors = g.floors ∙ f.floors }

abbrev dropped : ClientId → ℕ → Option Subscriber → Inner → Inner
dropped id issi old stored =
    if is_over id old
    then record stored { subscribers = remove issi stored.subscribers }
    else stored

drop_own-SameCalls :
    (id : ClientId) (entries : List (ℕ × Option Subscriber)) (inner : Inner)
    → SameCalls inner (drop_own id entries inner)
unfolding drop_own
drop_own-SameCalls id [] inner = record { calls = refl; floors = refl }
drop_own-SameCalls id ((issi, old) ∷ rest) inner =
    let stored = (withdraw_offer inner issi id).0 in
    let next = dropped id issi old stored in
    let f = withdraw_offer-SameCalls inner issi id in
    let g : SameCalls stored next = record { calls = ground arith; floors = ground arith } in
    SameCalls-trans inner next (drop_own id rest next) (SameCalls-trans inner stored next f g)
      (drop_own-SameCalls id rest next)

reroute_all-SameCalls :
    (entries : List (ℕ × Option Subscriber)) (inner : Inner)
    → SameCalls inner (reroute_all entries inner).0
unfolding reroute_all
reroute_all-SameCalls [] inner = record { calls = refl; floors = refl }
reroute_all-SameCalls ((issi, old) ∷ rest) inner =
    let after = (reroute inner issi).0 in
    SameCalls-trans inner after (reroute_all rest after).0 (reroute-SameCalls inner issi)
      (reroute_all-SameCalls rest after)

pub reroute_away-SameCalls :
    (inner : Inner) (id : ClientId) → SameCalls inner (reroute_away inner id).0
unfolding reroute_away
reroute_away-SameCalls inner id =
    let f = drop_own-SameCalls id _ _ in
    let g = reroute_all-SameCalls _ _ in
    record { calls = g.calls ∙ f.calls; floors = g.floors ∙ f.floors }

-- When a connection goes away, no group's floor stays with a call that ended with it, given that
-- every floor was held by a running group call of its group.
pub cleanup_client-floor :
    (inner : Inner) (id : ClientId) (g : ℕ) (u : CallId)
    → All (HoldsOwn inner.group_floor) inner.calls
    → lookup g (cleanup_client inner id).inner.group_floor ≡ some u
    → contains (cleanup_client inner id).ended u ≡ false
unfolding cleanup_client
cleanup_client-floor inner id g u hs h =
    let f = reroute_away-SameCalls inner id in
    let r = (reroute_away inner id).0 in
    end_calls-floor id r.clients r.calls r.group_floor g u (rw (f.calls, f.floors) hs) h
