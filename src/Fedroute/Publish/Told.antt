-- ===== src/Fedroute/Publish/Told.antt =====
-- What a neighbour reads of the updates that src/fedroute.rs sends it.
use brew_server.Common.{
  ℕ, ◌≡◌, ◌≢◌, ◌≤◌, ◌<◌, ◌==◌, length, eq_of_beq, nat_beq_iff, Bool, true, false, Option, none,
  some, List, [], ◌∷◌, arith, nat_eq, ok, contains, All, Fits, Bool-cases, inl, inr,
}
use brew_server.State.{ClientId, Subscriber}
use brew_server.Fedroute.Messages.{FedMessage, withdraw, route}
use brew_server.Fedroute.Messages.Parse.{parse, repeats}
use brew_server.Fedroute.Messages.RoundTrip.{parse-build_route, parse-build_withdraw}
use brew_server.Fedroute.Messages.Paths.{cons-IsPath}
use brew_server.Fedroute.Publish.{insert_sorted, sorted, usable, fed_update}

insert_sorted-All :
    (x : ℕ) (ys : List ℕ) → Fits 4 x → All (Fits 4) ys → All (Fits 4) (insert_sorted x ys)
unfolding insert_sorted
insert_sorted-All x [] h hs = (h, tt)
insert_sorted-All x (y ∷ ys) h hs = ground (arith, insert_sorted-All x ys h hs.1)

pub sorted-All : (xs : List ℕ) → All (Fits 4) xs → All (Fits 4) (sorted xs)
unfolding sorted
sorted-All [] h = tt
sorted-All (x ∷ xs) h = insert_sorted-All x (sorted xs) h.0 (sorted-All xs h.1)

-- An entry of the table of server `self_id` whose numbers fit their fields and whose path holds no
-- server twice and not the server itself.
pub record IsRouted (self_id : ℕ) (e : Subscriber) : Type 0 where
  pub reg : Fits 8 e.route.reg
  pub ids : All (Fits 8) e.route.path
  pub groups : All (Fits 4) e.groups
  pub once : repeats [] e.route.path ≡ false
  pub elsewhere : contains e.route.path self_id ≡ false

-- What an update may say of an entry: the route with this server in front, or a withdrawal, and why.
pub data Says (self_id : ℕ) (nbr_link : ClientId) (nbr_id issi : ℕ)
    : Option Subscriber → FedMessage → Type 0 where
  gone : Says self_id nbr_link nbr_id issi none (withdraw issi)
  offers :
      (e : Subscriber)
      → e.client_id ≢ nbr_link
      → contains e.route.path nbr_id ≡ false
      → length e.route.path < 16
      → Says self_id nbr_link nbr_id issi (some e) (
          route issi
            (record { reg = e.route.reg; path = self_id ∷ e.route.path; groups = sorted e.groups }))
  same_link :
      (e : Subscriber)
      → e.client_id ≡ nbr_link
      → Says self_id nbr_link nbr_id issi (some e) (withdraw issi)
  on_path :
      (e : Subscriber)
      → contains e.route.path nbr_id ≡ true
      → Says self_id nbr_link nbr_id issi (some e) (withdraw issi)
  too_far :
      (e : Subscriber)
      → 16 ≤ length e.route.path
      → Says self_id nbr_link nbr_id issi (some e) (withdraw issi)

withdraws-Says :
    (self_id : ℕ) (nbr_link : ClientId) (nbr_id issi : ℕ) (e : Subscriber)
    → usable nbr_link nbr_id e ≡ false
    → Says self_id nbr_link nbr_id issi (some e) (withdraw issi)
withdraws-Says self_id nbr_link nbr_id issi e u = elim (Bool-cases (e.client_id == nbr_link)) [
  | inl s ↦ same_link e (eq_of_beq s)
  | inr s ↦ elim (Bool-cases (contains e.route.path nbr_id)) [
    | inl p ↦ on_path e p
    | inr p ↦ too_far e (ground arith)
  ]
]

abbrev pub AllRouted : ℕ → Option Subscriber → Type 0
AllRouted self_id none = Unit
AllRouted self_id (some e) = IsRouted self_id e

-- The neighbour always accepts an update for a well-formed entry. It reads the route with this
-- server in front, where the entry does not run over that link, the neighbour is not on its path
-- and the path has fewer than 16 servers; otherwise, and where there is no entry, a withdrawal.
pub parse-fed_update-Says :
    (utf8 : List ℕ → Bool) (self_id : ℕ) (nbr_link : ClientId) (nbr_id issi : ℕ)
    (eff : Option Subscriber)
    → Fits 8 self_id
    → Fits 4 issi
    → AllRouted self_id eff
    → (msg : FedMessage) × (parse utf8 (fed_update self_id nbr_link nbr_id issi eff) self_id
        ≡ ok msg)
      × Says self_id nbr_link nbr_id issi eff msg
unfolding fed_update
parse-fed_update-Says utf8 self_id nbr_link nbr_id issi none hs hi r =
    (withdraw issi, parse-build_withdraw utf8 issi self_id hi, gone)
parse-fed_update-Says utf8 self_id nbr_link nbr_id issi (some e) hs hi r =
    elim (Bool-cases (usable nbr_link nbr_id e)) [
      | inl u ↦ (
        _,
        rw u (
            parse-build_route utf8 issi e.route.reg (self_id ∷ e.route.path) (sorted e.groups)
              self_id hi r.reg (sorted-All e.groups r.groups)
              (cons-IsPath self_id e.route.path hs r.ids (ground arith) r.once r.elsewhere)),
        offers e (λ s. ground (arith, nat_beq_iff e.client_id nbr_link)) (ground arith)
            (ground arith),
      )
      | inr n ↦ (
        withdraw issi,
        rw n (parse-build_withdraw utf8 issi self_id hi),
        withdraws-Says self_id nbr_link nbr_id issi e n,
      )
    ]
