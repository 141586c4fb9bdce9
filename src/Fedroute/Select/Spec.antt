-- ===== src/Fedroute/Select/Spec.antt =====
-- What `select` of src/fedroute.rs promises, whatever the order in which it meets the offers.
use brew_server.Common.{
  ℕ, ◌≡◌, sym, ap, ◌∙◌, ◌↔◌, inl, inr, true, false, Option, arith, nat_eq, option_eq, Map,
  Option-cases, Bool-cases,
}
use brew_server.State.{ClientId, Advert}
use brew_server.Fedroute.Select.{
  Choice, remote, Key, newest_remote, nearest, loses, otherwise, offers_of, select,
}
use brew_server.Fedroute.Select.Best.{
  Offers, Has, NoOrigin, Held, Above, newest_remote-none, newest_remote-Held, newest_remote-Above,
  pair_le_antisymm,
}
use brew_server.Fedroute.Select.Nearest.{
  Reached, Least, nearest-none, nearest-Reached, nearest-Least, key_le_antisymm,
}

-- A choice and the reason for it. `self_id` is this server, `own` its registration's clock.
pub data Selects (self_id : ℕ) (own : Option ℕ) (links : Map ClientId ℕ) (offers : Offers)
    (c : Choice) : Type 0 where
  -- There is no offer with an origin: the local registration, if any.
  alone : NoOrigin offers → c ≡ otherwise own → Selects self_id own links offers c
  -- The local registration is at least as new as the newest offer.
  keeps :
      (top : ℕ × ℕ)
      → Held offers top
      → Above offers top
      → loses self_id own top ≡ false
      → c ≡ otherwise own
      → Selects self_id own links offers c
  -- The newest offer's origin wins, over its nearest offer.
  follows :
      (top : ℕ × ℕ) (k : Key)
      → Held offers top
      → Above offers top
      → loses self_id own top ≡ true
      → Reached top.1 links offers k
      → Least top.1 links offers k
      → c ≡ remote k.2
      → Selects self_id own links offers c

pub select-Selects :
    (self_id : ℕ) (own : Option ℕ) (links : Map ClientId ℕ) (cands : Option (Map ClientId Advert))
    → Selects self_id own links (offers_of cands) (select self_id own links cands)
unfolding select
select-Selects self_id own links cands = elim (Option-cases (newest_remote (offers_of cands))) [
  | inl n ↦ alone (newest_remote-none _ n) (ground arith)
  | inr (top, p) ↦ elim (Bool-cases (loses self_id own top)) [
    | inr stays ↦
        keeps top (newest_remote-Held _ top p) (newest_remote-Above _ top p) stays (ground arith)
    | inl goes ↦ elim (Option-cases (nearest top.1 links (offers_of cands))) [
      | inl n ↦
          let (x, h, r, o) = newest_remote-Held _ top p in
          absurd (nearest-none top.1 links _ x n h o)
      | inr (k, q) ↦
          follows top k (newest_remote-Held _ top p) (newest_remote-Above _ top p) goes
            (nearest-Reached top.1 links _ k q) (nearest-Least top.1 links _ k q) (ground arith)
    ]
  ]
]

-- Two lists with the same offers.
abbrev pub Same : Offers → Offers → Type 0
Same xs ys = (x : ClientId × Advert) → Has x xs ↔ Has x ys

Same-top :
    (xs ys : Offers) (a b : ℕ × ℕ)
    → Same xs ys
    → Held xs a
    → Above xs a
    → Held ys b
    → Above ys b
    → a ≡ b
Same-top xs ys a b s (x, hx, rx, ox) ax (y, hy, ry, oy) ay =
    pair_le_antisymm a b (rw ry at (ax y b.1 ((s y).1 hy) oy)) (rw rx at (ay x a.1 ((s x).0 hx) ox))

Same-key :
    (xs ys : Offers) (links : Map ClientId ℕ) (o : ℕ) (k j : Key)
    → Same xs ys
    → Reached o links xs k
    → Least o links xs k
    → Reached o links ys j
    → Least o links ys j
    → k ≡ j
Same-key xs ys links o k j s (x, hx, ox, kx) lx (y, hy, oy, ky) ly =
    key_le_antisymm k j (rw kx at (ly x ((s x).0 hx) ox)) (rw ky at (lx y ((s y).1 hy) oy))

not-Held-NoOrigin : (xs ys : Offers) (a : ℕ × ℕ) → Same xs ys → NoOrigin xs → Held ys a → ⊥
not-Held-NoOrigin xs ys a s n (y, h, r, o) = cc (n y ((s y).1 h))

Same-sym : (xs ys : Offers) → Same xs ys → Same ys xs
Same-sym xs ys s x = ((s x).1, (s x).0)

Selects-unique :
    (self_id : ℕ) (own : Option ℕ) (links : Map ClientId ℕ) (xs ys : Offers) (c d : Choice)
    → Same xs ys
    → Selects self_id own links xs c
    → Selects self_id own links ys d
    → c ≡ d
Selects-unique i own links xs ys c d s (alone n p) (alone m q) = p ∙ sym q
Selects-unique i own links xs ys c d s (alone n p) (keeps b h a l q) = p ∙ sym q
Selects-unique i own links xs ys c d s (alone n p) (follows b k h a l r e q) =
    absurd (not-Held-NoOrigin xs ys b s n h)
Selects-unique i own links xs ys c d s (keeps b h a l p) (alone n q) = p ∙ sym q
Selects-unique i own links xs ys c d s (keeps b h a l p) (keeps b' h' a' l' q) = p ∙ sym q
Selects-unique i own links xs ys c d s (keeps b h a l p) (follows b' k h' a' l' r e q) =
    let same = Same-top xs ys b b' s h a h' a' in cc
Selects-unique i own links xs ys c d s (follows b k h a l r e p) (alone n q) =
    absurd (not-Held-NoOrigin ys xs b (Same-sym xs ys s) n h)
Selects-unique i own links xs ys c d s (follows b k h a l r e p) (keeps b' h' a' l' q) =
    let same = Same-top xs ys b b' s h a h' a' in cc
Selects-unique i own links xs ys c d s (follows b k h a l r e p) (follows b' j h' a' l' r' e' q) =
    let same = ap (λ (t : ℕ × ℕ). t.1) (Same-top xs ys b b' s h a h' a') in
    let key = Same-key xs ys links b.1 k j s r e (rw (← same) at r') (rw (← same) at e') in
    p ∙ (ap (λ (t : Key). remote t.2) key ∙ sym q)

-- The choice depends only on which offers there are: two servers, or two runs, that hold the same
-- offers in any order choose alike.
pub select_order :
    (self_id : ℕ) (own : Option ℕ) (links : Map ClientId ℕ) (xs ys : Option (Map ClientId Advert))
    → Same (offers_of xs) (offers_of ys)
    → select self_id own links xs ≡ select self_id own links ys
select_order self_id own links xs ys s =
    Selects-unique self_id own links (offers_of xs) (offers_of ys) _ _ s
      (select-Selects self_id own links xs) (select-Selects self_id own links ys)
