-- ===== src/Router/Floor/Reach.antt =====
-- The calls and floors of every state that the server reaches.
use brew_server.Common.{
  ℕ, ◌≡◌, refl, Bool, true, false, some, none, Option, List, [], ◌∷◌, arith, Text, lookup, list_eq,
  nat_eq,
}
use brew_server.State.{ClientId, CallId, Client, Inner, initial, ActiveCall, is_group}
use brew_server.Connections.Attach.{begin_session, attach_client, link_up}
use brew_server.Connections.Floors.{SameCalls}
use brew_server.Router.{Config, Env}
use brew_server.Router.Sweep.{Due, end_all, end_due, overdue, sweep}
use brew_server.Router.Steps.{
  Step, Reaches, begins, receives, alarms, sweeps, rings, dials, seizes, hangs_up, ends, starts,
  goes,
}
use brew_server.Router.Floor.{CallsInv}
use brew_server.Router.Floor.Handlers.{end_call-CallsInv}
use brew_server.Router.Floor.Frames.{emergency_raised-CallsInv}
use brew_server.Router.Floor.Bridged.{
  sip_to_private-CallsInv, private_to_sip-CallsInv, sip_to_group-CallsInv, teardown-CallsInv,
}
use brew_server.Router.Floor.Gone.{cleanup_client-CallsInv}
use brew_server.Router.Floor.Tables.{SameCalls-CallsInv}
use brew_server.Router.Floor.Packets.{handle_packet-CallsInv}

begin_session-SameCalls :
    (inner : Inner) (id : ClientId) (client : Client) (neighbour : Option ℕ) (console : Bool)
    → SameCalls inner (begin_session inner id client neighbour console).0
unfolding begin_session attach_client link_up
begin_session-SameCalls inner id client none true = record { calls = refl; floors = refl }
begin_session-SameCalls inner id client none false = record { calls = refl; floors = refl }
begin_session-SameCalls inner id client (some n) true = record { calls = refl; floors = refl }
begin_session-SameCalls inner id client (some n) false = record { calls = refl; floors = refl }

end_all-CallsInv :
    (env : Env) (inner : Inner) (ds : List Due)
    → CallsInv inner
    → CallsInv (end_all env inner ds).inner
unfolding end_all end_due
end_all-CallsInv env inner [] v = v
end_all-CallsInv env inner (d ∷ ds) v =
    end_all-CallsInv env (end_due env inner d).inner ds
      (end_call-CallsInv env inner d.owner d.id _ v)

initial-CallsInv : (self_id : ℕ) → CallsInv (initial self_id)
unfolding initial lookup
initial-CallsInv self_id = record { unique = tt; holds = λ u c e g. cc; apart = λ u c e. cc }

module _ (utf8 : List ℕ → Bool) (lossy : List ℕ → Text) (config : Config) where
  step-CallsInv :
      {inner after : Inner}
      → config.allow_multiple_calls_per_group ≡ false
      → Step utf8 lossy config inner after
      → CallsInv inner
      → CallsInv after
  unfolding sweep
  step-CallsInv {inner} one (begins id client neighbour console) v =
      SameCalls-CallsInv inner _ (begin_session-SameCalls inner id client neighbour console) v
  step-CallsInv {inner} one (receives env source raw same) v =
      handle_packet-CallsInv utf8 lossy env inner source raw (rw same one) v
  step-CallsInv {inner} one (alarms issi) v = emergency_raised-CallsInv inner issi v
  step-CallsInv {inner} one (sweeps env same) v = end_all-CallsInv env inner (overdue env inner) v
  step-CallsInv {inner} one (rings id virtual_client target issi now n) v =
      sip_to_private-CallsInv inner id virtual_client target issi now n v
  step-CallsInv {inner} one (dials id client virtual_client now n) v =
      private_to_sip-CallsInv inner id client virtual_client now n v
  step-CallsInv {inner} one (seizes id virtual_client gssi has_leg now q) v =
      sip_to_group-CallsInv config inner id virtual_client gssi has_leg now
        (λ u c e g d. absurd (q u c e g d)) v
  step-CallsInv {inner} one (hangs_up leg) v = teardown-CallsInv inner leg v
  step-CallsInv {inner} one (ends id) v = cleanup_client-CallsInv inner id v

  pub reached-CallsInv :
      {self_id : ℕ} {inner : Inner}
      → config.allow_multiple_calls_per_group ≡ false
      → Reaches utf8 lossy config self_id inner
      → CallsInv inner
  reached-CallsInv {self_id} one starts = initial-CallsInv self_id
  reached-CallsInv one (goes r s) = step-CallsInv one s (reached-CallsInv one r)

-- With one call per group, and SIP callers only in groups where no call runs, no two calls run in
-- a group in any state that the server reaches, whatever connections come and go, whatever they
-- send, and in whatever order.
pub reached_one_call :
    (utf8 : List ℕ → Bool) (lossy : List ℕ → Text) (config : Config) (self_id : ℕ) (inner : Inner)
    (u w : CallId) (c d : ActiveCall)
    → config.allow_multiple_calls_per_group ≡ false
    → Reaches utf8 lossy config self_id inner
    → lookup u inner.calls ≡ some c
    → lookup w inner.calls ≡ some d
    → is_group c.kind ≡ true
    → is_group d.kind ≡ true
    → c.destination ≡ d.destination
    → u ≡ w
reached_one_call utf8 lossy config self_id inner u w c d one r e f g h s =
    let v = reached-CallsInv utf8 lossy config one r in
    let p = v.holds u c e g in
    let q : lookup c.destination inner.group_floor ≡ some w = rw s (v.holds w d f h) in ground arith
