-- ===== src/Common/Maps.antt =====
-- Hash maps as association lists and hash sets as lists. The source never relies on the order in
-- which it meets the entries. A write puts the entry in front and takes the old one out.
use mathlib.Core.Path.{◌≡◌, refl}
use mathlib.Core.Bool.{Bool, true, false, not, ◌&&◌, ◌||◌}
use mathlib.Core.Option.{Option, none, some}
use mathlib.Core.List.{List, [], ◌∷◌}
use native.Mathlib.Omega.{arith}
use brew_server.Common.Tests.{Keyed, ◌==◌, if◌then◌else◌, eq_self}

abbrev pub Map {ℓ κ} : Type ℓ → Type κ → Type (ℓ ⊔ κ)
Map K V = List (K × V)

module _ {ℓ κ} {K : Type ℓ} {V : Type κ} ⦃e : Keyed K⦄ where
  unfoldable pub lookup : K → Map K V → Option V
  lookup k [] = none
  lookup k ((j, v) ∷ m) = if j == k then some v else lookup k m

  unfoldable pub remove : K → Map K V → Map K V
  remove k [] = []
  remove k ((j, v) ∷ m) = if j == k then remove k m else (j, v) ∷ remove k m

  unfoldable pub insert : K → V → Map K V → Map K V
  insert k v m = (k, v) ∷ remove k m

  abbrev pub contains_key : K → Map K V → Bool
  contains_key k m = elim (lookup k m) [ none ↦ false | some _ ↦ true ]

  -- No key stands twice.
  abbrev pub Uniq : Map K V → Type κ
  Uniq [] = Unit
  Uniq ((k, v) ∷ m) = (lookup k m ≡ none) × Uniq m

  pub lookup-remove :
      (k j : K) (m : Map K V) → lookup j (remove k m) ≡ (if k == j then none else lookup j m)
  unfolding lookup remove
  lookup-remove k j [] = ground arith
  lookup-remove k j ((i, v) ∷ m) =
      ground (arith, e.test_iff i k, e.test_iff k j, e.test_iff i j, lookup-remove k j m)

  pub lookup-insert :
      (k j : K) (v : V) (m : Map K V)
      → lookup j (insert k v m) ≡ (if k == j then some v else lookup j m)
  unfolding lookup insert
  lookup-insert k j v m = ground (arith, lookup-remove k j m)

  pub remove-Uniq : (k : K) (m : Map K V) → Uniq m → Uniq (remove k m)
  unfolding remove
  remove-Uniq k [] u = tt
  remove-Uniq k ((i, v) ∷ m) u = ground (arith, remove-Uniq k m u.1, lookup-remove k i m)

  pub insert-Uniq : (k : K) (v : V) (m : Map K V) → Uniq m → Uniq (insert k v m)
  unfolding insert
  insert-Uniq k v m u = ground (arith, remove-Uniq k m u, lookup-remove k k m, eq_self k)

module _ {ℓ} {A : Type ℓ} ⦃e : Keyed A⦄ where
  unfoldable pub contains : List A → A → Bool
  contains [] a = false
  contains (x ∷ xs) a = x == a || contains xs a

  -- `HashSet::insert` and `HashSet::remove`.
  unfoldable pub add : A → List A → List A
  add a xs = if contains xs a then xs else a ∷ xs

  unfoldable pub discard : A → List A → List A
  discard a [] = []
  discard a (x ∷ xs) = if x == a then discard a xs else x ∷ discard a xs

  pub contains-add : (a b : A) (xs : List A) → contains (add a xs) b ≡ (a == b || contains xs b)
  unfolding contains add
  contains-add a b xs = ground (arith, e.test_iff a b)

  pub contains-discard :
      (a b : A) (xs : List A) → contains (discard a xs) b ≡ (not (a == b) && contains xs b)
  unfolding contains discard
  contains-discard a b [] = ground arith
  contains-discard a b (x ∷ xs) =
      ground (arith, e.test_iff a b, e.test_iff x a, e.test_iff x b, contains-discard a b xs)

module _ {ℓ} {A : Type ℓ} ⦃e : Keyed A⦄ where
  -- Collecting a sequence into a hash set.
  unfoldable pub to_set : List A → List A
  to_set [] = []
  to_set (x ∷ xs) = add x (to_set xs)

  pub contains-to_set : (a : A) (xs : List A) → contains (to_set xs) a ≡ contains xs a
  unfolding to_set contains
  contains-to_set a [] = refl
  contains-to_set a (x ∷ xs) = ground (arith, contains-add x a (to_set xs), contains-to_set a xs)

  -- `HashSet::difference`.
  unfoldable pub difference : List A → List A → List A
  difference [] ys = []
  difference (x ∷ xs) ys = if contains ys x then difference xs ys else x ∷ difference xs ys

  pub contains-difference :
      (a : A) (xs ys : List A)
      → contains (difference xs ys) a ≡ (contains xs a && not (contains ys a))
  unfolding difference contains
  contains-difference a [] ys = refl
  contains-difference a (x ∷ xs) ys = ground (arith, e.test_iff x a, contains-difference a xs ys)

module _ {ℓ κ} {K : Type ℓ} {V : Type κ} where
  -- `HashMap::retain`.
  unfoldable pub retain : (K → V → Bool) → Map K V → Map K V
  retain keep [] = []
  retain keep ((k, v) ∷ m) = if keep k v then (k, v) ∷ retain keep m else retain keep m

  abbrev pub keys : Map K V → List K
  keys [] = []
  keys ((k, v) ∷ m) = k ∷ keys m
