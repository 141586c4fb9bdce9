-- ===== src/Fedroute/Select.antt =====
-- The choice of the effective route, `select` of src/fedroute.rs.
pub mod Best
pub mod Nearest
pub mod Spec
use brew_server.Common.{
  ℕ, ◌^◌, ◌-◌, ◌≡◌, Bool, true, false, not, ◌&&◌, ◌||◌, Option, none, some, List, [], ◌∷◌, ltb,
  nat_beq, if◌then◌else◌, ◌==◌, nat_eq, option_eq, length, last, lookup, Map,
}
use brew_server.State.{ClientId, Advert}

pub data Choice : Type 0 where
  local : Choice
  remote : ClientId → Choice
  unreachable : Choice

-- `<` on (u64, u64) and on (usize, u64, Uuid).
abbrev pub pair_lt : ℕ × ℕ → ℕ × ℕ → Bool
pair_lt (a, b) (c, d) = if nat_beq a c then ltb b d else ltb a c

abbrev pub Key : Type 0
Key = ℕ × ℕ × ℕ

abbrev pub key_lt : Key → Key → Bool
key_lt (a, b, c) (d, e, f) = if nat_beq a d then pair_lt (b, c) (e, f) else ltb a d

abbrev pub later : ℕ × ℕ → Option (ℕ × ℕ) → ℕ × ℕ
later x none = x
later x (some y) = if pair_lt x y then y else x

-- The greatest (registration, origin) of the offers; one with no path has no origin.
unfoldable pub newest_remote : List (ClientId × Advert) → Option (ℕ × ℕ)
newest_remote [] = none
newest_remote ((link, a) ∷ offers) =
    let rest = newest_remote offers in
    elim (last a.path) [ none ↦ rest | some origin ↦ some (later (a.reg, origin) rest) ]

abbrev pub u64_max : ℕ
u64_max = 2 ^ 64 - 1

-- What `min_by_key` compares: hops, neighbour id, link.
unfoldable pub key_of : Map ClientId ℕ → ClientId × Advert → Key
key_of links (link, a) =
    (length a.path, elim (lookup link links) [ none ↦ u64_max | some n ↦ n ], link)

abbrev pub nearer : Key → Option Key → Key
nearer k none = k
nearer k (some j) = if key_lt j k then j else k

unfoldable pub nearest : ℕ → Map ClientId ℕ → List (ClientId × Advert) → Option Key
nearest origin links [] = none
nearest origin links ((link, a) ∷ offers) =
    let rest = nearest origin links offers in
    if last a.path == some origin then some (nearer (key_of links (link, a)) rest) else rest

-- The offers of the chosen origin.
unfoldable pub choose : ℕ → Map ClientId ℕ → List (ClientId × Advert) → Choice
choose origin links offers = elim (nearest origin links offers) [
  | none ↦ unreachable
  | some (hops, neighbour, link) ↦ remote link
]

abbrev pub loses : ℕ → Option ℕ → ℕ × ℕ → Bool
loses self_id none newest = true
loses self_id (some own) newest = pair_lt (own, self_id) newest

abbrev pub otherwise : Option ℕ → Choice
otherwise none = unreachable
otherwise (some own) = local

abbrev pub offers_of : Option (Map ClientId Advert) → List (ClientId × Advert)
offers_of none = []
offers_of (some c) = c

unfoldable pub select : ℕ → Option ℕ → Map ClientId ℕ → Option (Map ClientId Advert) → Choice
unfolding choose
select self_id own links cands = elim (newest_remote (offers_of cands)) [
  | none ↦ otherwise own
  | some (reg, origin) ↦
      if loses self_id own (reg, origin)
      then choose origin links (offers_of cands)
      else otherwise own
]
