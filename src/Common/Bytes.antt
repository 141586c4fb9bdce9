-- ===== src/Common/Bytes.antt =====
-- Little-endian integers in byte lists: `to_le_bytes`, `from_le_bytes`, and arrays of them.
use mathlib.Core.List.{append_assoc}
use mathlib.Core.Path.{◌≡◌, refl, ap, ap₂, sym, ◌∙◌}
use mathlib.Core.List.{List, [], ◌∷◌, ◌++◌}
use Prim.Native.Nat.{ℕ, zero, suc, ◌+◌, ◌*◌, ◌/◌, ◌%◌, ◌^◌, ◌-◌, ◌≤◌, ◌<◌}
use native.Mathlib.Omega.{arith}
use native.Mathlib.Nat.{pow-suc}
use brew_server.Common.Lists.{
  length, take, drop, All, length-append, take-append, drop-append, drop-take, take-take,
}

-- An unsigned integer of `k` bytes.
abbrev pub Fits : ℕ → ℕ → Type 0
Fits k n = n < 256 ^ k

unfoldable pub to_le : ℕ → ℕ → List ℕ
to_le zero n = []
to_le (suc k) n = n % 256 ∷ to_le k (n / 256)

unfoldable pub from_le : List ℕ → ℕ
from_le [] = 0
from_le (b ∷ bs) = b + 256 * from_le bs

-- The integer of `k` bytes at an offset. The source checks the length before it reads.
unfoldable pub le_at : ℕ → List ℕ → ℕ → ℕ
unfolding from_le
le_at k bytes o = from_le (take k (drop o bytes))

pub length-to_le : (k n : ℕ) → length (to_le k n) ≡ k
unfolding to_le
length-to_le zero n = refl
length-to_le (suc k) n = ap suc (length-to_le k (n / 256))

pub from_le-to_le : (k n : ℕ) → Fits k n → from_le (to_le k n) ≡ n
unfolding to_le from_le
from_le-to_le zero n h = omega arith
from_le-to_le (suc k) n h = omega (arith, from_le-to_le k (n / 256) (omega (arith, pow-suc 256 k)))

-- The arrays: `words w n bytes` reads `n` integers of `w` bytes.
unfoldable pub words : ℕ → ℕ → List ℕ → List ℕ
unfolding from_le
words w zero bytes = []
words w (suc n) bytes = from_le (take w bytes) ∷ words w n (drop w bytes)

unfoldable pub word_bytes : ℕ → List ℕ → List ℕ
unfolding to_le
word_bytes w [] = []
word_bytes w (x ∷ xs) = to_le w x ++ word_bytes w xs

pub length-word_bytes : (w : ℕ) (xs : List ℕ) → length (word_bytes w xs) ≡ w * length xs
unfolding word_bytes
length-word_bytes w [] = omega arith
length-word_bytes w (x ∷ xs) =
    length-append (to_le w x) (word_bytes w xs)
    ∙ omega (arith, length-to_le w x, length-word_bytes w xs)

pub words-word_bytes :
    (w : ℕ) (xs rest : List ℕ)
    → All (Fits w) xs
    → words w (length xs) (word_bytes w xs ++ rest) ≡ xs
unfolding words word_bytes
words-word_bytes w [] rest h = refl
words-word_bytes w (x ∷ xs) rest (hx, hs) =
    let n = sym (length-to_le w x) in
    rw append_assoc (
      ap₂ (λ a l. a ∷ l)
        (ap from_le (take-append (to_le w x) (word_bytes w xs ++ rest) n) ∙ from_le-to_le w x hx)
        (ap (words w (length xs)) (drop-append (to_le w x) (word_bytes w xs ++ rest) n)
          ∙ words-word_bytes w xs rest hs))

-- A field behind a known head.
pub le_at-append :
    (k n o : ℕ) (head rest : List ℕ)
    → o ≡ length head
    → Fits k n
    → le_at k (head ++ (to_le k n ++ rest)) o ≡ n
unfolding le_at
le_at-append k n o head rest e h =
    ap (λ (l : List ℕ). from_le (take k l)) (drop-append head (to_le k n ++ rest) e)
    ∙ ap from_le (take-append (to_le k n) rest (sym (length-to_le k n)))
    ∙ from_le-to_le k n h

pub le_at-take :
    (k o n : ℕ) (bytes : List ℕ) → o + k ≤ n → le_at k (take n bytes) o ≡ le_at k bytes o
unfolding le_at
le_at-take k o n bytes h =
    ap (λ (l : List ℕ). from_le (take k l)) (drop-take o n bytes)
    ∙ ap from_le (take-take k (n - o) (drop o bytes) (omega arith))
