-- ===== src/Router/Floor/Bridged.antt =====
-- The calls of the SIP bridge and the floors (src/sip/bridge.rs).
use brew_server.Common.{
  ℕ, ◌≡◌, ◌≢◌, ◌⊎◌, refl, Bool, true, false, not, ◌||◌, nat_beq, length, List, [], ◌∷◌, inl, inr,
  Bool-cases, Option-cases, some, arith, if◌then◌else◌, ◌==◌, nat_eq, nat_beq_iff, list_eq,
  list_beq_iff, option_eq, option_beq_iff, Map, lookup, insert, remove, lookup-insert,
  lookup-remove, insert-Uniq, remove-Uniq, contains,
}
use brew_server.State.{ClientId, CallId, Inner, ActiveCall, is_group}
use brew_server.Router.Sip.{
  BridgedLeg, sip_to_private, seize_group, sip_to_group, is_unattended, private_to_sip, leave_group,
  teardown,
}
use brew_server.Fedroute.Table.{members}
use brew_server.Router.{Config}
use brew_server.Router.Floor.{
  Holds, Clear, CallsInv, insert-Holds, insert-Apart, remove-Apart, discard_self,
}
use brew_server.Router.Floor.Parties.{insert_private-CallsInv}

pub sip_to_private-CallsInv :
    (inner : Inner) (id : CallId) (virtual_client target : ClientId) (issi now : ℕ)
    → nat_eq.test target virtual_client ≡ false
    → CallsInv inner
    → CallsInv (sip_to_private inner id virtual_client target issi now).0
unfolding sip_to_private contains
sip_to_private-CallsInv inner id virtual_client target issi now n v =
    let w = insert_private-CallsInv inner id _ refl (ground arith) v in
    record { unique = w.unique; holds = w.holds; apart = w.apart }

pub private_to_sip-CallsInv :
    (inner : Inner) (id : CallId) (client virtual_client : ClientId) (now : ℕ)
    → nat_eq.test virtual_client client ≡ false
    → CallsInv inner
    → CallsInv (private_to_sip inner id client virtual_client now).0
unfolding private_to_sip contains
private_to_sip-CallsInv inner id client virtual_client now n v =
    let w = insert_private-CallsInv inner id _ refl (ground arith) v in
    record { unique = w.unique; holds = w.holds; apart = w.apart }

seize_group-CallsInv :
    (inner : Inner) (id : CallId) (virtual_client : ClientId) (gssi now : ℕ)
    → Clear inner.calls id gssi
    → CallsInv inner
    → CallsInv (seize_group inner id virtual_client gssi now).0
unfolding seize_group
seize_group-CallsInv inner id virtual_client gssi now cl v = record {
  unique = insert-Uniq id _ inner.calls v.unique;
  holds = insert-Holds inner.calls inner.group_floor id _ v.holds cl;
  apart = insert-Apart inner.calls id _ v.apart (discard_self virtual_client _);
}

pub sip_to_group-CallsInv :
    (config : Config) (inner : Inner) (id : CallId) (virtual_client : ClientId) (gssi : ℕ)
    (has_leg : Bool) (now : ℕ)
    → Clear inner.calls id gssi
    → CallsInv inner
    → CallsInv (sip_to_group config inner id virtual_client gssi has_leg now).0
unfolding sip_to_group
sip_to_group-CallsInv config inner id virtual_client gssi has_leg now cl v =
    elim (Bool-cases (is_unattended config inner gssi || not has_leg)) [
      | inl e ↦ rw (e, sip_to_group) v
      | inr e ↦ rw (e, sip_to_group) (seize_group-CallsInv inner id virtual_client gssi now cl v)
    ]

-- The floor of a group that a leg leaves.
vacated : Map ℕ CallId → CallId → ℕ → Map ℕ CallId
vacated floor id gssi = if lookup gssi floor == some id then remove gssi floor else floor

vacated-Holds :
    (calls : Map CallId ActiveCall) (floor : Map ℕ CallId) (id : CallId) (gssi : ℕ)
    → Holds calls floor
    → Holds (remove id calls) (vacated floor id gssi)
unfolding vacated
vacated-Holds calls floor id gssi h u c e g = ground (
  arith,
  lookup-remove id u calls,
  list_beq_iff id u,
  lookup-remove gssi c.destination floor,
  nat_beq_iff gssi c.destination,
  option_beq_iff (lookup gssi floor) (some id),
  h u c,
)

remove-Holds :
    (calls : Map CallId ActiveCall) (floor : Map ℕ CallId) (id : CallId)
    → Holds calls floor
    → Holds (remove id calls) floor
remove-Holds calls floor id h u c e g =
    ground (arith, lookup-remove id u calls, list_beq_iff id u, h u c)

pub teardown-CallsInv :
    (inner : Inner) (leg : BridgedLeg) → CallsInv inner → CallsInv (teardown inner leg).0
unfolding teardown leave_group
teardown-CallsInv inner leg v = elim (Option-cases leg.group) [
  | inl n ↦
      rw (n, teardown)
        (record {
          unique = remove-Uniq leg.brew_call_id inner.calls v.unique;
          holds = remove-Holds inner.calls inner.group_floor leg.brew_call_id v.holds;
          apart = remove-Apart inner.calls leg.brew_call_id v.apart;
        })
  | inr (gssi, e) ↦
      rw (e, teardown)
        (record {
          unique = remove-Uniq leg.brew_call_id inner.calls v.unique;
          holds =
              unfold vacated in
              vacated-Holds inner.calls inner.group_floor leg.brew_call_id gssi v.holds;
          apart = remove-Apart inner.calls leg.brew_call_id v.apart;
        })
]

insert_other :
    (calls : Map CallId ActiveCall) (id u : CallId) (d c : ActiveCall)
    → u ≢ id
    → lookup u calls ≡ some c
    → lookup u (insert id d calls) ≡ some c
insert_other calls id u d c n e = ground (arith, lookup-insert id u d calls, list_beq_iff id u)

insert_same :
    (calls : Map CallId ActiveCall) (id : CallId) (d : ActiveCall)
    → lookup id (insert id d calls) ≡ some d
insert_same calls id d = ground (arith, lookup-insert id id d calls, list_beq_iff id id)

length-nil : {A : Type 0} (xs : List A) → nat_beq (length xs) 0 ≡ true → xs ≡ []
length-nil [] e = refl
length-nil (x ∷ xs) e = absurd (ground arith)

attended :
    (config : Config) (inner : Inner) (gssi : ℕ)
    → members gssi inner.group_clients ≢ []
      ⊎ (config.fallback_broadcast_when_no_affiliations ≡ true)
    → (is_unattended config inner gssi || not true) ≡ false
attended config inner gssi (inr f) = ground arith
attended config inner gssi (inl n) =
    elim (Bool-cases (nat_beq (length (members gssi inner.group_clients)) 0)) [
      | inl e ↦ absurd (n (length-nil (members gssi inner.group_clients) e))
      | inr e ↦ ground arith
    ]

seize_group-two_calls :
    (inner : Inner) (id u : CallId) (virtual_client : ClientId) (gssi now : ℕ) (c : ActiveCall)
    → u ≢ id
    → lookup u inner.calls ≡ some c
    → is_group c.kind ≡ true
    → c.destination ≡ gssi
    → (d : ActiveCall) × (lookup id (seize_group inner id virtual_client gssi now).0.calls ≡ some d)
      × (is_group d.kind ≡ true)
      × (d.destination ≡ gssi)
      × (lookup u (seize_group inner id virtual_client gssi now).0.calls ≡ some c)
      × (lookup gssi (seize_group inner id virtual_client gssi now).0.group_floor ≡ some id)
unfolding seize_group
seize_group-two_calls inner id u virtual_client gssi now c n e g d = (
  _,
  insert_same inner.calls id _,
  refl,
  refl,
  insert_other inner.calls id u _ c n e,
  ground (arith, lookup-insert gssi gssi id inner.group_floor, nat_beq_iff gssi gssi),
)

-- A SIP call to a group is given a call of its own with the floor, where a connection is
-- affiliated to the group or the fallback is on, and the relay has a leg. Whatever call runs in
-- the group, also the one that had the floor, goes on: two calls then run in it.
pub sip_to_group-two_calls :
    (config : Config) (inner : Inner) (id u : CallId) (virtual_client : ClientId) (gssi now : ℕ)
    (c : ActiveCall)
    → members gssi inner.group_clients ≢ []
      ⊎ (config.fallback_broadcast_when_no_affiliations ≡ true)
    → u ≢ id
    → lookup u inner.calls ≡ some c
    → is_group c.kind ≡ true
    → c.destination ≡ gssi
    → let after = (sip_to_group config inner id virtual_client gssi true now).0 in
      (d : ActiveCall) × (lookup id after.calls ≡ some d)
      × (is_group d.kind ≡ true)
      × (d.destination ≡ gssi)
      × (lookup u after.calls ≡ some c)
      × (lookup gssi after.group_floor ≡ some id)
unfolding sip_to_group
sip_to_group-two_calls config inner id u virtual_client gssi now c a n e g d =
    rw (attended config inner gssi a, sip_to_group)
      (seize_group-two_calls inner id u virtual_client gssi now c n e g d)
