-- ===== src/Ha/Replay.antt =====
-- The guard on authenticated heartbeats, `ReplayGuard` of src/ha.rs.
use brew_server.Common.{
  ℕ, ◌+◌, ◌-◌, ◌≤◌, ◌<◌, ◌≡◌, ◌≢◌, Bool, true, false, not, ◌&&◌, Option, none, some, List, [], ◌∷◌,
  arith, ltb, leb, nat_beq, if◌then◌else◌, All,
}
use brew_server.Ha.Heartbeat.{Heartbeat}

abbrev pub max_clock_skew_ms : ℕ
max_clock_skew_ms = 30_000

-- `u64::abs_diff`.
abbrev pub abs_diff : ℕ → ℕ → ℕ
abs_diff a b = (a - b) + (b - a)

-- Boot id and sequence number of the last heartbeat that was accepted.
pub record ReplayGuard : Type 0 where
  pub last : Option (ℕ × ℕ)

abbrev pub is_stale : Option (ℕ × ℕ) → Heartbeat → Bool
is_stale none hb = false
is_stale (some (boot, seq)) hb = nat_beq boot hb.boot_id && leb hb.seq seq

unfoldable pub accept : ReplayGuard → Heartbeat → ℕ → ReplayGuard × Bool
accept g hb now_ms =
    if ltb max_clock_skew_ms (abs_diff now_ms hb.ts_ms)
    then (g, false)
    else if is_stale g.last hb
    then (g, false)
    else (record { last = some (hb.boot_id, hb.seq) }, true)

-- The sequence numbers of the heartbeats that get through, in order of arrival.
unfoldable pub passed : ReplayGuard → List (Heartbeat × ℕ) → List ℕ
passed g [] = []
passed g ((hb, now_ms) ∷ rest) =
    let (g', ok) = accept g hb now_ms in
    let later = passed g' rest in if ok then hb.seq ∷ later else later

-- Each number is above the one before it, the first above `n`.
abbrev pub RisesFrom : ℕ → List ℕ → Type 0
RisesFrom n [] = Unit {0}
RisesFrom n (s ∷ ss) = (n < s) × RisesFrom s ss

abbrev pub OfBoot : ℕ → Heartbeat × ℕ → Type 0
OfBoot boot x = x.0.boot_id ≡ boot

abbrev pub accepted_at : ℕ → ℕ → ReplayGuard
accepted_at boot seq = record { last = some (boot, seq) }

-- Once a heartbeat has been accepted, and as long as all that arrive later are of its process, they
-- pass only with ever higher sequence numbers, in whatever order, and as often as, they arrive.
pub passed-RisesFrom :
    (boot seq : ℕ) (hs : List (Heartbeat × ℕ))
    → All (OfBoot boot) hs
    → RisesFrom seq (passed (accepted_at boot seq) hs)
unfolding passed accept
passed-RisesFrom boot seq [] a = tt
passed-RisesFrom boot seq ((hb, now_ms) ∷ rest) (b, bs) =
    ground (arith, passed-RisesFrom boot seq rest bs, passed-RisesFrom boot hb.seq rest bs)

-- A heartbeat passes exactly if its time is within 30 s of the clock and it is not an old one of
-- the process heard last; the guard then remembers it, and otherwise is unchanged.
pub accept_iff :
    (g : ReplayGuard) (hb : Heartbeat) (now_ms : ℕ)
    → ((accept g hb now_ms).1
        ≡ (leb (abs_diff now_ms hb.ts_ms) max_clock_skew_ms && not (is_stale g.last hb)))
      × ((accept g hb now_ms).0
          ≡ (if (accept g hb now_ms).1 then accepted_at hb.boot_id hb.seq else g))
unfolding accept
accept_iff g hb now_ms = ground arith

-- The guard remembers one process only: a heartbeat that has passed passes again after one of
-- another process, while its time is within 30 s of the clock.
pub accept_again :
    (g : ReplayGuard) (hb other : Heartbeat) (t u v : ℕ)
    → other.boot_id ≢ hb.boot_id
    → (accept g hb t).1 ≡ true
    → (accept (accept g hb t).0 other u).1 ≡ true
    → abs_diff v hb.ts_ms ≤ max_clock_skew_ms
    → (accept (accept (accept g hb t).0 other u).0 hb v).1 ≡ true
unfolding accept
accept_again g hb other t u v d p q s = ground arith
