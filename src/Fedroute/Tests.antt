-- ===== src/Fedroute/Tests.antt =====
-- Runs of src/fedroute.rs: server 1 with neighbours 2 and 3 on connections 20 and 30.
use brew_server.Common.{
  ℕ, ◌≡◌, refl, Bool, true, false, some, list_eq, List, [], ◌∷◌, arith, ok, Map, lookup, contains,
  nat_eq, inl, inr,
}
use brew_server.State.{ClientId, Subscriber, Inner, FedState, Advert, peer}
use brew_server.Fedroute.Messages.{FedMessage, EmAdvert, route}
use brew_server.Fedroute.Messages.Build.{build_route}
use brew_server.Fedroute.Messages.Parse.{parse, repeats}
use brew_server.Fedroute.Messages.RoundTrip.{IsPath, parse-build_route}
use brew_server.Fedroute.Messages.Sound.{Accepted, parse-Accepted}
use brew_server.Fedroute.Select.{select, newest_remote}
use brew_server.Fedroute.Select.Spec.{Same, select_order}
use brew_server.Fedroute.Table.{best_entry, reroute, set_effective, entry_of, same, routed}
use brew_server.Fedroute.Table.Groups.{TableInv, set_effective-TableInv}
use brew_server.Fedroute.Table.Settle.{Linked, Settled, reroute_settles}
use brew_server.Fedroute.Publish.{fed_update}
use brew_server.Fedroute.Publish.Told.{IsRouted, Says, parse-fed_update-Says}
use brew_server.Fedroute.Adverts.Accept.{accept_em}
use brew_server.Fedroute.Adverts.Once.{accept_em_once, accept_all, Arrived}
use brew_server.Fedroute.Handle.{handle}
use brew_server.Fedroute.Handle.Invariant.{FedInv}
use brew_server.Fedroute.Handle.Steps.{handle-FedInv}

abbrev any_text : List ℕ → Bool
any_text bytes = true

abbrev fed : FedState
fed = record {
  self_id = 1;
  clock = 0;
  links = (20, 2) ∷ (30, 3) ∷ [];
  rib_in = [];
  bts_links = [];
  ms_links = [];
  ms_pos = [];
  em_links = 20 ∷ 30 ∷ [];
  em_local = [];
  em_remote = [];
  bts_local = [];
  bts_remote = [];
}

abbrev idle : Inner
idle = record {
  clients = [];
  subscribers = [];
  group_clients = [];
  calls = [];
  group_floor = [];
  group_tx_raw = [];
  sds_routes = [];
  recent_calls = [];
  fed = fed;
  consoles = [];
}

idle-FedInv : FedInv idle
unfolding lookup best_entry select same routed newest_remote
idle-FedInv = record {
  rib = λ issi link a e. ground arith;
  table = λ c. (tt, λ g. refl);
  settled = λ issi. refl;
}

-- Neighbour 2 offers ISSI 1001 of server 4, registered at 50, in group 7.
abbrev offered_route : List ℕ
offered_route = build_route 1001 50 (2 ∷ 4 ∷ []) (7 ∷ [])

handle-FedInv_example : FedInv (handle any_text idle 20 offered_route 100).inner
handle-FedInv_example = handle-FedInv any_text idle 20 offered_route 100 idle-FedInv

abbrev near : Advert
near = record { reg = 50; path = 2 ∷ 4 ∷ []; groups = 7 ∷ [] }

abbrev far : Advert
far = record { reg = 50; path = 3 ∷ 5 ∷ 4 ∷ []; groups = 7 ∷ [] }

abbrev two_offers : Map ClientId Advert
two_offers = (20, near) ∷ (30, far) ∷ []

abbrev swapped : Map ClientId Advert
swapped = (30, far) ∷ (20, near) ∷ []

abbrev offering : Inner
offering = record idle { fed = record fed { rib_in = (1001, two_offers) ∷ [] } }

offering-Linked : Linked offering 1001
unfolding lookup
offering-Linked offers link e k = ground arith

reroute_settles_example :
    Settled (reroute offering 1001).0 1001
    × ((reroute (reroute offering 1001).0 1001) ≡ ((reroute offering 1001).0, false))
reroute_settles_example = reroute_settles offering 1001 offering-Linked

set_effective-TableInv_example : TableInv 20 (set_effective idle 1001 (some (entry_of 20 near)))
set_effective-TableInv_example =
    set_effective-TableInv 20 idle 1001 (some (entry_of 20 near)) (idle-FedInv.table 20)

either_order : Same two_offers swapped
either_order x = (
  λ h. elim h [ inl a ↦ inr (inl a) | inr (inl b) ↦ inl b | inr (inr c) ↦ inr (inr c) ],
  λ h. elim h [ inl a ↦ inr (inl a) | inr (inl b) ↦ inl b | inr (inr c) ↦ inr (inr c) ],
)

select_order_example :
    select 1 (some 40) fed.links (some two_offers) ≡ select 1 (some 40) fed.links (some swapped)
select_order_example =
    select_order 1 (some 40) fed.links (some two_offers) (some swapped) either_order

abbrev alarm : EmAdvert
alarm = record { issi = 1001; dest = some 7; bts = []; active = true; seq = 60; path = 2 ∷ 4 ∷ [] }

abbrev copy : EmAdvert
copy = record alarm { path = 3 ∷ 4 ∷ [] }

origin_is_other : contains {A = ℕ} (2 ∷ 4 ∷ []) 1 ≡ false
unfolding contains
origin_is_other = refl

-- Other alarms that come between: a newer one for another ISSI, and the same one again.
abbrev between : List Arrived
between =
    record { link = 30; alarm = record alarm { issi = 5 }; now = 120 }
    ∷ record { link = 30; alarm = copy; now = 130 }
    ∷ []

accept_em_once_example :
    let after = accept_all (accept_em idle 20 alarm 100).0 between in
    accept_em after 30 copy 200 ≡ (after, [])
accept_em_once_example =
    accept_em_once idle 20 30 alarm copy between 100 200 4 refl origin_is_other refl refl
      (ground arith)

two_hops : IsPath (2 ∷ 4 ∷ []) 2
unfolding repeats contains
two_hops = record {
  some_hop = ground arith;
  few_hops = ground arith;
  ids = (ground arith, (ground arith, tt));
  sent = refl;
  once = refl;
}

parse-build_route_example : parse any_text offered_route 2 ≡ ok (route 1001 near)
parse-build_route_example =
    parse-build_route any_text 1001 50 (2 ∷ 4 ∷ []) (7 ∷ []) 2 (ground arith) (ground arith)
      (ground arith, tt) two_hops

abbrev call : List ℕ
call = 1 ∷ 2 ∷ 3 ∷ 4 ∷ 5 ∷ 6 ∷ 7 ∷ 8 ∷ 9 ∷ 10 ∷ 11 ∷ 12 ∷ 13 ∷ 14 ∷ 15 ∷ 16 ∷ []

parse-Accepted_example : Accepted (2 ∷ 4 ∷ []) 2
parse-Accepted_example = parse-Accepted any_text offered_route 2 1001 near parse-build_route_example

abbrev entry : Subscriber
entry = record {
  client_id = 20;
  groups = 7 ∷ [];
  mode = peer;
  route = record { reg = 50; path = 2 ∷ 4 ∷ [] };
}

entry-IsRouted : IsRouted 1 entry
unfolding repeats contains
entry-IsRouted = record {
  reg = ground arith;
  ids = (ground arith, (ground arith, tt));
  groups = (ground arith, tt);
  once = refl;
  elsewhere = refl;
}

parse-fed_update-Says_example :
    (msg : FedMessage) × (parse any_text (fed_update 1 30 3 1001 (some entry)) 1 ≡ ok msg)
    × Says 1 30 3 1001 (some entry) msg
parse-fed_update-Says_example =
    parse-fed_update-Says any_text 1 30 3 1001 (some entry) (ground arith) (ground arith)
      entry-IsRouted
