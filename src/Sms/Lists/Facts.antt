-- ===== src/Sms/Lists/Facts.antt =====
-- Lemmas on the chains of Sms/Lists: how many messages pass a test, what holds of every message,
-- and the oldest message.
use brew_server.Common.{
  ℕ, zero, suc, ◌+◌, ◌≤◌, ◌<◌, ◌≡◌, refl, Bool, true, false, inl, inr, Bool-cases, Option, none,
  some, List, [], ◌∷◌, ◌++◌, arith, subst, leb, length, get_elem?, All,
}
use brew_server.Sms.{StoredSms}
use brew_server.Sms.Lists.{
  count, update_first, remove_first, update_at, oldest, filter, first_of, next_of,
}

module _ (p : StoredSms → Bool) where
  pub count-append : (xs ys : List StoredSms) → count p (xs ++ ys) ≡ count p xs + count p ys
  unfolding count
  count-append [] ys = omega arith
  count-append (x ∷ xs) ys = ground (arith, count-append xs ys)

  pub count-filter :
      (q : StoredSms → Bool) (xs : List StoredSms) → count p (filter q xs) ≤ count p xs
  unfolding count filter
  count-filter q [] = omega arith
  count-filter q (x ∷ xs) = ground (arith, count-filter q xs)

  pub count-remove_first :
      (q : StoredSms → Bool) (xs : List StoredSms) → count p (remove_first q xs) ≤ count p xs
  unfolding count remove_first
  count-remove_first q [] = omega arith
  count-remove_first q (x ∷ xs) = ground (arith, count-remove_first q xs)

  module _ (f : StoredSms → StoredSms) (same : (m : StoredSms) → p (f m) ≡ p m) where
    pub count-update_first :
        (q : StoredSms → Bool) (xs : List StoredSms) → count p (update_first q f xs) ≡ count p xs
    unfolding count update_first
    count-update_first q [] = refl
    count-update_first q (x ∷ xs) = ground (arith, same x, count-update_first q xs)

    pub count-update_at : (i : ℕ) (xs : List StoredSms) → count p (update_at i f xs) ≡ count p xs
    unfolding count update_at
    count-update_at i [] = refl
    count-update_at zero (x ∷ xs) = ground (arith, same x)
    count-update_at (suc i) (x ∷ xs) = ground (arith, count-update_at i xs)

abbrev pub every : StoredSms → Bool
every m = true

pub count-every : (xs : List StoredSms) → count every xs ≡ length xs
unfolding count
count-every [] = refl
count-every (x ∷ xs) = omega (arith, count-every xs)

module _ (P : StoredSms → Type 0) where
  pub All-append : (xs ys : List StoredSms) → All P xs → All P ys → All P (xs ++ ys)
  All-append [] ys a b = b
  All-append (x ∷ xs) ys (h, a) b = (h, All-append xs ys a b)

  pub All-filter : (q : StoredSms → Bool) (xs : List StoredSms) → All P xs → All P (filter q xs)
  unfolding filter
  All-filter q [] a = tt
  All-filter q (x ∷ xs) (h, a) = elim (Bool-cases (q x)) [
    | inl e ↦ rw e (h, All-filter q xs a)
    | inr e ↦ rw e (All-filter q xs a)
  ]

  pub All-remove_first :
      (q : StoredSms → Bool) (xs : List StoredSms) → All P xs → All P (remove_first q xs)
  unfolding remove_first
  All-remove_first q [] a = tt
  All-remove_first q (x ∷ xs) (h, a) = elim (Bool-cases (q x)) [
    | inl e ↦ rw e a
    | inr e ↦ rw e (h, All-remove_first q xs a)
  ]

  module _ (f : StoredSms → StoredSms) where
    pub All-update_first :
        (q : StoredSms → Bool) (xs : List StoredSms)
        → ((m : StoredSms) → q m ≡ true → P m → P (f m))
        → All P xs
        → All P (update_first q f xs)
    unfolding update_first
    All-update_first q [] h a = tt
    All-update_first q (x ∷ xs) h (b, a) = elim (Bool-cases (q x)) [
      | inl e ↦ rw e (h x e b, a)
      | inr e ↦ rw e (b, All-update_first q xs h a)
    ]

    pub All-update_at :
        (i : ℕ) (xs : List StoredSms) (m : StoredSms)
        → get_elem? xs i ≡ some m
        → (P m → P (f m))
        → All P xs
        → All P (update_at i f xs)
    unfolding update_at
    All-update_at i [] m e h a = tt
    All-update_at zero (x ∷ xs) m e h (b, a) =
        (let same : m ≡ x = cc in subst (λ y. P y → P (f y)) same h b, a)
    All-update_at (suc i) (x ∷ xs) m e h (b, a) = (b, All-update_at i xs m e h a)

-- The message that `oldest` finds: where it is, that it passes, that none that passes is
-- older, and that those that pass before it are newer.
pub record IsOldest (p : StoredSms → Bool) (ms : List StoredSms) (i : ℕ) (m : StoredSms)
    : Type 0 where
  pub there : get_elem? ms i ≡ some m
  pub passes : p m ≡ true
  pub first :
      (j : ℕ) (o : StoredSms)
      → get_elem? ms j ≡ some o
      → p o ≡ true
      → m.stored_at_ms ≤ o.stored_at_ms
  pub newer :
      (j : ℕ) (o : StoredSms)
      → get_elem? ms j ≡ some o
      → p o ≡ true
      → j < i
      → m.stored_at_ms < o.stored_at_ms

-- What `oldest` answers.
abbrev pub Found : (StoredSms → Bool) → List StoredSms → Option (ℕ × StoredSms) → Type 0
Found p ms none = (j : ℕ) (o : StoredSms) → get_elem? ms j ≡ some o → p o ≡ false
Found p ms (some (i, m)) = IsOldest p ms i m

module _ (p : StoredSms → Bool) (x : StoredSms) (xs : List StoredSms) where
  -- No message that passes, first or later, is older than `m`.
  none_older :
      (m : StoredSms)
      → (p x ≡ true → m.stored_at_ms ≤ x.stored_at_ms)
      → ((j : ℕ) (o : StoredSms)
          → get_elem? xs j ≡ some o
          → p o ≡ true
          → m.stored_at_ms ≤ o.stored_at_ms)
      → (j : ℕ) (o : StoredSms) → get_elem? (x ∷ xs) j ≡ some o
      → p o ≡ true
      → m.stored_at_ms ≤ o.stored_at_ms
  none_older m h f zero o e q =
      let same : x ≡ o = cc in subst (λ y. p y ≡ true → m.stored_at_ms ≤ y.stored_at_ms) same h q
  none_older m h f (suc j) o e q = f j o e q

  newer_before :
      (m : StoredSms) (i : ℕ)
      → (p x ≡ true → m.stored_at_ms < x.stored_at_ms)
      → ((j : ℕ) (o : StoredSms)
          → get_elem? xs j ≡ some o
          → p o ≡ true
          → j < i
          → m.stored_at_ms < o.stored_at_ms)
      → (j : ℕ) (o : StoredSms) → get_elem? (x ∷ xs) j ≡ some o
      → p o ≡ true
      → j < suc i
      → m.stored_at_ms < o.stored_at_ms
  newer_before m i h f zero o e q l =
      let same : x ≡ o = cc in subst (λ y. p y ≡ true → m.stored_at_ms < y.stored_at_ms) same h q
  newer_before m i h f (suc j) o e q l = f j o e q (omega arith)

  Found-first_of :
      (o : Option (ℕ × StoredSms))
      → p x ≡ true
      → Found p xs o
      → Found p (x ∷ xs) (some (first_of x o))
  Found-first_of none h f = record {
    there = refl;
    passes = h;
    first = none_older x (λ q. omega arith) (λ j o e q. ground (arith, f j o e));
    newer = λ j o e q l. absurd (omega arith);
  }
  Found-first_of (some (i, o)) h f = elim (Bool-cases (leb x.stored_at_ms o.stored_at_ms)) [
    | inl e ↦ rw e (record {
      there = refl;
      passes = h;
      first = none_older x (λ q. omega arith) (λ j a g q. ground (arith, f.first j a g q));
      newer = λ j a g q l. absurd (omega arith);
    })
    | inr e ↦ rw e (record {
      there = f.there;
      passes = f.passes;
      first = none_older o (λ q. ground arith) f.first;
      newer = newer_before o i (λ q. ground arith) f.newer;
    })
  ]

  none_passes :
      p x ≡ false
      → ((j : ℕ) (o : StoredSms) → get_elem? xs j ≡ some o → p o ≡ false)
      → (j : ℕ) (o : StoredSms) → get_elem? (x ∷ xs) j ≡ some o
      → p o ≡ false
  none_passes h f zero o e = let same : x ≡ o = cc in subst (λ y. p y ≡ false) same h
  none_passes h f (suc j) o e = f j o e

  Found-next_of :
      (o : Option (ℕ × StoredSms)) → p x ≡ false → Found p xs o → Found p (x ∷ xs) (next_of o)
  Found-next_of none h f = none_passes h f
  Found-next_of (some (i, m)) h f = record {
    there = f.there;
    passes = f.passes;
    first = none_older m (λ q. absurd cc) f.first;
    newer = newer_before m i (λ q. absurd cc) f.newer;
  }

pub oldest-Found : (p : StoredSms → Bool) (ms : List StoredSms) → Found p ms (oldest p ms)
unfolding oldest
oldest-Found p [] = λ j o e. cc
oldest-Found p (x ∷ xs) = elim (Bool-cases (p x)) [
  | inl h ↦ rw h (Found-first_of p x xs (oldest p xs) h (oldest-Found p xs))
  | inr h ↦ rw h (Found-next_of p x xs (oldest p xs) h (oldest-Found p xs))
]
