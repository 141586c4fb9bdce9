-- ===== src/Fedroute/Select/Best.antt =====
-- `select` of src/fedroute.rs against its specification.
use brew_server.Common.{
  ℕ, ◌≡◌, refl, ◌⊎◌, inl, inr, true, false, none, some, List, [], ◌∷◌, arith, Option-cases,
  Bool-cases, nat_eq, option_eq, last, some,
}
use brew_server.State.{ClientId, Advert}
use brew_server.Fedroute.Select.{pair_lt, newest_remote}

abbrev pub Offers : Type 0
Offers = List (ClientId × Advert)

-- An offer that stands in the list.
abbrev pub Has : ClientId × Advert → Offers → Type 0
Has x [] = ⊥
Has x (y ∷ ys) = (x ≡ y) ⊎ Has x ys

-- No offer has an origin.
abbrev pub NoOrigin : Offers → Type 0
NoOrigin offers = (x : ClientId × Advert) → Has x offers → last x.1.path ≡ none

pub newest_remote-none : (offers : Offers) → newest_remote offers ≡ none → NoOrigin offers
unfolding newest_remote
newest_remote-none [] e x h = absurd h
newest_remote-none ((link, a) ∷ offers) e x (inl p) = ground arith
newest_remote-none ((link, a) ∷ offers) e x (inr p) = newest_remote-none offers (ground arith) x p

-- `top` stands for some offer, and no offer is above it.
abbrev pub Held : Offers → ℕ × ℕ → Type 0
Held offers top =
    (x : ClientId × Advert) × Has x offers × (x.1.reg ≡ top.0) × (last x.1.path ≡ some top.1)

abbrev pub Above : Offers → ℕ × ℕ → Type 0
Above offers top =
    (x : ClientId × Advert) (o : ℕ)
    → Has x offers
    → last x.1.path ≡ some o
    → pair_lt top (x.1.reg, o) ≡ false

pub pair_lt_irrefl : (a : ℕ × ℕ) → pair_lt a a ≡ false
pair_lt_irrefl (a, b) = ground arith

pair_le_trans : (a b c : ℕ × ℕ) → pair_lt a b ≡ false → pair_lt b c ≡ false → pair_lt a c ≡ false
pair_le_trans (a, b) (c, d) (e, f) h k = ground arith

pub pair_le_antisymm : (a b : ℕ × ℕ) → pair_lt a b ≡ false → pair_lt b a ≡ false → a ≡ b
pair_le_antisymm (a, b) (c, d) h k = ground arith

pair_lt_asymm : (a b : ℕ × ℕ) → pair_lt a b ≡ true → pair_lt b a ≡ false
pair_lt_asymm (a, b) (c, d) h = ground arith

Held-cons :
    (y : ClientId × Advert) (offers : Offers) (top : ℕ × ℕ)
    → Held offers top
    → Held (y ∷ offers) top
Held-cons y offers top (x, m, p, q) = (x, inr m, p, q)

pub newest_remote-Held :
    (offers : Offers) (top : ℕ × ℕ) → newest_remote offers ≡ some top → Held offers top
unfolding newest_remote
newest_remote-Held [] top e = cc
newest_remote-Held ((link, a) ∷ offers) top e = elim (Option-cases (last a.path)) [
  | inl n ↦ Held-cons (link, a) offers top (newest_remote-Held offers top (ground arith))
  | inr (o, p) ↦ elim (Option-cases (newest_remote offers)) [
    | inl n ↦ ((link, a), inl refl, ground arith, ground arith)
    | inr (r, q) ↦ elim (Bool-cases (pair_lt (a.reg, o) r)) [
      | inl t ↦ Held-cons (link, a) offers top (newest_remote-Held offers top (ground arith))
      | inr f ↦ ((link, a), inl refl, ground arith, ground arith)
    ]
  ]
]

pub newest_remote-Above :
    (offers : Offers) (top : ℕ × ℕ) → newest_remote offers ≡ some top → Above offers top
unfolding newest_remote
newest_remote-Above [] top e x o h p = absurd h
newest_remote-Above ((link, a) ∷ offers) top e x o (inl h) p =
    elim (Option-cases (newest_remote offers)) [
      | inl n ↦ ground (arith, pair_lt_irrefl (a.reg, o))
      | inr (r, q) ↦ ground (arith, pair_lt_irrefl (a.reg, o), pair_lt_asymm (a.reg, o) r)
    ]
newest_remote-Above ((link, a) ∷ offers) top e x o (inr h) p =
    elim (Option-cases (newest_remote offers)) [
      | inl n ↦ cc (newest_remote-none offers n x h)
      | inr (r, q) ↦ elim (Option-cases (last a.path)) [
        | inl m ↦ newest_remote-Above offers top (ground arith) x o h p
        | inr (o', m) ↦
            let below = newest_remote-Above offers r q x o h p in
            elim (Bool-cases (pair_lt (a.reg, o') r)) [
              | inl t ↦ ground arith
              | inr f ↦ ground (arith, pair_le_trans (a.reg, o') r (x.1.reg, o))
            ]
      ]
    ]
