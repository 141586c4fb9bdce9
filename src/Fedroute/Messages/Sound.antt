-- ===== src/Fedroute/Messages/Sound.antt =====
-- The route messages that the parser of src/fedroute.rs accepts.
use brew_server.Common.{
  ℕ, zero, suc, ◌≤◌, ◌<◌, ◌≡◌, refl, ap, Bool, false, List, [], arith, ok, length, get_or,
  get_elem?, words, drop, Option-cases, inl, inr,
}
use brew_server.State.{Advert}
use brew_server.Fedroute.Messages.{route, max_path}
use brew_server.Fedroute.Messages.Parse.{parse, parse_route, repeats}

length-words : (w n : ℕ) (bytes : List ℕ) → length (words w n bytes) ≡ n
unfolding words
length-words w zero bytes = refl
length-words w (suc n) bytes = ap suc (length-words w n (drop w bytes))

-- A path that was accepted from a neighbour.
pub record Accepted (path : List ℕ) (nbr_id : ℕ) : Type 0 where
  pub some_hop : 0 < length path
  pub few_hops : length path ≤ max_path
  pub sent : get_or path 0 0 ≡ nbr_id
  pub once : repeats [] path ≡ false

parse_route-Accepted :
    (raw : List ℕ) (nbr_id issi : ℕ) (a : Advert)
    → parse_route raw nbr_id ≡ ok (route issi a)
    → Accepted a.path nbr_id
unfolding parse_route
parse_route-Accepted raw nbr_id issi a h =
    ground (arith, length-words 8 (get_or raw 14 0) (drop 15 raw))

-- Whatever bytes a neighbour sends, a route that is read from them has 1 to 16 servers on its
-- path, the first is the neighbour, and none stands twice.
pub parse-Accepted :
    (utf8 : List ℕ → Bool) (raw : List ℕ) (nbr_id issi : ℕ) (a : Advert)
    → parse utf8 raw nbr_id ≡ ok (route issi a)
    → Accepted a.path nbr_id
unfolding parse
parse-Accepted utf8 raw nbr_id issi a h = elim (Option-cases (get_elem? raw 1)) [
  | inl n ↦ ground arith
  | inr (t, e) ↦ parse_route-Accepted raw nbr_id issi a (ground arith)
]
