-- ===== src/Fedroute/Messages/Paths.antt =====
-- Paths of route messages (src/fedroute.rs): a server puts itself in front of a path.
use brew_server.Common.{
  ℕ, ◌≡◌, refl, false, ◌||◌, List, [], ◌∷◌, arith, contains, nat_eq, length, ◌<◌, All, Fits,
}
use brew_server.Fedroute.Messages.{max_path}
use brew_server.Fedroute.Messages.Parse.{repeats}
use brew_server.Fedroute.Messages.RoundTrip.{IsPath}

-- Only which servers were seen matters, not their order.
repeats-same :
    (s t xs : List ℕ) → ((a : ℕ) → contains s a ≡ contains t a) → repeats s xs ≡ repeats t xs
unfolding repeats
repeats-same s t [] h = refl
repeats-same s t (x ∷ xs) h =
    ground
      (arith, h x, repeats-same (x ∷ s) (x ∷ t) xs (λ a. unfold contains in ground (arith, h a)))

pub repeats-cons :
    (s : ℕ) (seen xs : List ℕ) → repeats (s ∷ seen) xs ≡ (contains xs s || repeats seen xs)
unfolding repeats contains
repeats-cons s seen [] = refl
repeats-cons s seen (x ∷ xs) = ground (
  arith,
  repeats-same (x ∷ s ∷ seen) (s ∷ x ∷ seen) xs (λ a. ground arith),
  repeats-cons s (x ∷ seen) xs,
)

-- A path without the server, put behind it, is a path that starts at the server.
pub cons-IsPath :
    (self_id : ℕ) (path : List ℕ)
    → Fits 8 self_id
    → All (Fits 8) path
    → length path < max_path
    → repeats [] path ≡ false
    → contains path self_id ≡ false
    → IsPath (self_id ∷ path) self_id
unfolding repeats contains
cons-IsPath self_id path hs hp l once out = record {
  some_hop = omega arith;
  few_hops = omega arith;
  ids = (hs, hp);
  sent = refl;
  once = ground (arith, repeats-cons self_id [] path);
}
