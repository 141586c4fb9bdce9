-- ===== src/Fedroute/Select/Nearest.antt =====
-- The nearest offer of an origin, and what `select` of src/fedroute.rs promises.
use brew_server.Common.{
  ℕ, ◌≡◌, ◌≢◌, refl, inl, inr, true, false, none, some, [], ◌∷◌, arith, ◌==◌, nat_eq, option_eq,
  option_beq_iff, last, Map, some, Option-cases, Bool-cases,
}
use brew_server.State.{ClientId, Advert}
use brew_server.Fedroute.Select.{Key, key_lt, key_of, nearest}
use brew_server.Fedroute.Select.Best.{Offers, Has}

key_lt_irrefl : (a : Key) → key_lt a a ≡ false
key_lt_irrefl (a, b, c) = ground arith

key_lt_asymm : (a b : Key) → key_lt a b ≡ true → key_lt b a ≡ false
key_lt_asymm (a, b, c) (d, e, f) h = ground arith

key_le_trans : (a b c : Key) → key_lt b a ≡ false → key_lt c b ≡ false → key_lt c a ≡ false
key_le_trans (a, b, c) (d, e, f) (g, h, i) p q = ground arith

pub key_le_antisymm : (a b : Key) → key_lt a b ≡ false → key_lt b a ≡ false → a ≡ b
key_le_antisymm (a, b, c) (d, e, f) h k = ground arith

pub nearest-none :
    (origin : ℕ) (links : Map ClientId ℕ) (offers : Offers) (x : ClientId × Advert)
    → nearest origin links offers ≡ none
    → Has x offers
    → last x.1.path ≢ some origin
unfolding nearest
nearest-none origin links [] x e h p = absurd h
nearest-none origin links ((link, a) ∷ offers) x e (inl h) p =
    ground (arith, option_beq_iff (last a.path) (some origin))
nearest-none origin links ((link, a) ∷ offers) x e (inr h) p =
    nearest-none origin links offers x (ground arith) h p

-- `k` is the key of an offer of the origin, and no offer of the origin has a smaller one.
abbrev pub Reached : ℕ → Map ClientId ℕ → Offers → Key → Type 0
Reached origin links offers k =
    (x : ClientId × Advert) × Has x offers × (last x.1.path ≡ some origin) × (key_of links x ≡ k)

abbrev pub Least : ℕ → Map ClientId ℕ → Offers → Key → Type 0
Least origin links offers k =
    (x : ClientId × Advert)
    → Has x offers
    → last x.1.path ≡ some origin
    → key_lt (key_of links x) k ≡ false

Reached-cons :
    (origin : ℕ) (links : Map ClientId ℕ) (y : ClientId × Advert) (offers : Offers) (k : Key)
    → Reached origin links offers k
    → Reached origin links (y ∷ offers) k
Reached-cons origin links y offers k (x, h, p, q) = (x, inr h, p, q)

pub nearest-Reached :
    (origin : ℕ) (links : Map ClientId ℕ) (offers : Offers) (k : Key)
    → nearest origin links offers ≡ some k
    → Reached origin links offers k
unfolding nearest
nearest-Reached origin links [] k e = cc
nearest-Reached origin links ((link, a) ∷ offers) k e =
    elim (Bool-cases (last a.path == some origin)) [
      | inr n ↦
          Reached-cons origin links (link, a) offers k
            (nearest-Reached origin links offers k (ground arith))
      | inl y ↦ elim (Option-cases (nearest origin links offers)) [
        | inl n ↦ here (ground arith) (ground (arith, option_beq_iff (last a.path) (some origin)))
        | inr (j, q) ↦ elim (Bool-cases (key_lt j (key_of links (link, a)))) [
          | inl t ↦
              Reached-cons origin links (link, a) offers k
                (nearest-Reached origin links offers k (ground arith))
          | inr f ↦ here (ground arith) (ground (arith, option_beq_iff (last a.path) (some origin)))
        ]
      ]
    ]
  where
    here :
        key_of links (link, a) ≡ k
        → last a.path ≡ some origin
        → Reached origin links ((link, a) ∷ offers) k
    here p q = ((link, a), inl refl, q, p)

pub nearest-Least :
    (origin : ℕ) (links : Map ClientId ℕ) (offers : Offers) (k : Key)
    → nearest origin links offers ≡ some k
    → Least origin links offers k
unfolding nearest
nearest-Least origin links [] k e x h p = absurd h
nearest-Least origin links (y ∷ offers) k e x (inl h) p =
    elim (Option-cases (nearest origin links offers)) [
      | inl n ↦
          ground
            (arith, option_beq_iff (last x.1.path) (some origin), key_lt_irrefl (key_of links x))
      | inr (j, q) ↦ ground (
        arith,
        option_beq_iff (last x.1.path) (some origin),
        key_lt_irrefl (key_of links x),
        key_lt_asymm j (key_of links x),
      )
    ]
nearest-Least origin links (y ∷ offers) k e x (inr h) p =
    elim (Option-cases (nearest origin links offers)) [
      | inl n ↦ absurd (nearest-none origin links offers x n h p)
      | inr (j, q) ↦
          let below = nearest-Least origin links offers j q x h p in
          elim (Bool-cases (last y.1.path == some origin)) [
            | inr other ↦ nearest-Least origin links offers k (ground arith) x h p
            | inl same ↦ elim (Bool-cases (key_lt j (key_of links y))) [
              | inl t ↦ ground arith
              | inr f ↦ ground (arith, key_le_trans (key_of links y) j (key_of links x))
            ]
          ]
    ]
