-- ===== src/Sms/Lists.antt =====
-- The iterator chains that the queue uses (src/sms_center.rs): `find`, `position`, `filter`,
-- `count` and `min_by_key`, on the queue's messages.
pub mod Facts
use brew_server.Common.{
  ℕ, zero, suc, ◌+◌, ◌≤◌, ◌≡◌, refl, Bool, true, false, inl, inr, Bool-cases, Option-cases, ◌⊎◌,
  Option, none, some, List, [], ◌∷◌, ◌++◌, arith, if◌then◌else◌, leb, length, get_elem?, All,
}
use brew_server.Sms.{StoredSms}

module _ {ℓ} {A : Type ℓ} where
  unfoldable pub count : (A → Bool) → List A → ℕ
  count p [] = 0
  count p (x ∷ xs) = let n = count p xs in if p x then suc n else n

  unfoldable pub find : (A → Bool) → List A → Option A
  find p [] = none
  find p (x ∷ xs) = let rest = find p xs in if p x then some x else rest

  unfoldable pub filter : (A → Bool) → List A → List A
  filter p [] = []
  filter p (x ∷ xs) = let rest = filter p xs in if p x then x ∷ rest else rest

  -- What `iter_mut().find` hands out, changed.
  unfoldable pub update_first : (A → Bool) → (A → A) → List A → List A
  update_first p f [] = []
  update_first p f (x ∷ xs) = let rest = update_first p f xs in if p x then f x ∷ xs else x ∷ rest

  -- `remove(position(p))`.
  unfoldable pub remove_first : (A → Bool) → List A → List A
  remove_first p [] = []
  remove_first p (x ∷ xs) = let rest = remove_first p xs in if p x then xs else x ∷ rest

  unfoldable pub update_at : ℕ → (A → A) → List A → List A
  update_at i f [] = []
  update_at zero f (x ∷ xs) = f x ∷ xs
  update_at (suc i) f (x ∷ xs) = x ∷ update_at i f xs

-- The first of the oldest messages that pass, with its place: `filter`, then `min_by_key`.
abbrev pub first_of : StoredSms → Option (ℕ × StoredSms) → ℕ × StoredSms
first_of m none = (0, m)
first_of m (some (i, o)) = if leb m.stored_at_ms o.stored_at_ms then (0, m) else (suc i, o)

abbrev pub next_of : Option (ℕ × StoredSms) → Option (ℕ × StoredSms)
next_of none = none
next_of (some (i, o)) = some (suc i, o)

unfoldable pub oldest : (StoredSms → Bool) → List StoredSms → Option (ℕ × StoredSms)
oldest p [] = none
oldest p (m ∷ ms) = let rest = oldest p ms in if p m then some (first_of m rest) else next_of rest
