-- ===== src/Ha/Election/Order.antt =====
-- The order by which src/ha.rs prefers one node to another.
use brew_server.Common.{ℕ, ◌≡◌, ◌≢◌, true, false, arith, Text, text_lt_asymm, text_lt_total}
use brew_server.Ha.Election.{preferred}

pub preferred_asymm : (a b : ℕ × Text) → preferred a b ≡ true → preferred b a ≡ false
unfolding preferred
preferred_asymm (wa, na) (wb, nb) h = ground (arith, text_lt_asymm nb na, text_lt_asymm na nb)

pub preferred_total : (a b : ℕ × Text) → a.1 ≢ b.1 → preferred a b ≡ false → preferred b a ≡ true
unfolding preferred
preferred_total (wa, na) (wb, nb) d h = ground (arith, text_lt_total nb na, d)
