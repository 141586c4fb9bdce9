-- ===== src/Ha/Tests.antt =====
-- Runs of the election and of the heartbeats of src/ha.rs on two nodes, "a" and "b".
use brew_server.Common.{
  ℕ, ◌≡◌, refl, true, false, not, none, some, List, [], ◌∷◌, ◌++◌, zero, suc, arith, Returns,
  length, list_eq, nat_eq,
}
use brew_server.Ha.Election.{
  is_role, init, standby, active, Election, PeerView, accepted, tick, request_standby,
  request_handover, start_handover,
}
use brew_server.Ha.Election.Invariant.{Inv, Sound, tick-Inv}
use brew_server.Ha.Heartbeat.{Heartbeat, Context, seen}
use brew_server.Ha.Pair.{split_brain_resolves, standby_pair_elects, make_standby_switches, is_ahead}
use brew_server.Ha.Safety.{Safe, History, start, left, right, hands_over, ticks, History-Safe}
use brew_server.Ha.Replay.{
  ReplayGuard, accept, passed, accepted_at, RisesFrom, passed-RisesFrom, accept_again,
}
use brew_server.Ha.Wire.{Libraries, encode, decode, tag_len, decode-encode, decode_authentic}

abbrev context : Context
context = record { boot_id = 1; seq = 7; config_hash = 0; synced = true; config_sections = none }

abbrev node_a : Election
node_a = record {
  node = 97 ∷ [];
  weight = 10;
  persist = false;
  role = active;
  hold = false;
  handover = none;
  takeover_until_ms = none;
  init_until_ms = 0;
}

abbrev node_b : Election
node_b = record {
  node = 98 ∷ [];
  weight = 5;
  persist = false;
  role = standby;
  hold = false;
  handover = none;
  takeover_until_ms = none;
  init_until_ms = 0;
}

abbrev a_after : Election
a_after = record node_a {
  role = standby;
  handover = some (record { to = 98 ∷ []; manual = true; until_ms = 5100 });
}

abbrev b_after : Election
b_after = record node_b { role = active; hold = true }

abbrev view_b : PeerView
view_b = record {
  node = 98 ∷ [];
  role = standby;
  weight = 5;
  persist = false;
  hold = false;
  handover_to = none;
  handover_manual = false;
  takeover_request = false;
  synced = true;
}

node_a-Inv : Inv node_a
node_a-Inv = ground arith

node_b-Inv : Inv node_b
node_b-Inv = ground arith

hand_over : request_handover node_a (some view_b) 100 true ≡ accepted a_after
unfolding request_handover start_handover
hand_over = refl

take_over : tick node_b 200 (some (seen context a_after 150)) true ≡ some b_after
unfolding tick seen
take_over = refl

switched : History node_a node_b a_after b_after
switched =
    right (left start (hands_over (some view_b) 100 true hand_over))
      (ticks context 150 200 true take_over)

apart : Safe node_a node_b
apart = record { left_inv = node_a-Inv; right_inv = node_b-Inv; one_active = refl }

History-Safe_example : Safe a_after b_after
History-Safe_example = History-Safe node_a node_b a_after b_after apart switched

split_brain_resolves_example : Returns (tick node_a 10 (some (seen context b_after 5)) true) (λ l'.
    Returns
      (tick b_after 20 (some (seen context l' 10)) true)
      (λ r'. is_role l'.role active ≡ not (is_role r'.role active)))
split_brain_resolves_example =
    split_brain_resolves context context node_a b_after 10 5 20 node_a-Inv (ground arith)
      (λ e. ground arith) refl refl

standby_pair_elects_example :
    Returns (tick (record node_a { role = init }) 10 (some (seen context node_b 5)) true) (λ l'.
      Returns (tick node_b 20 (some (seen context l' 10)) true) (λ r'.
        (is_role l'.role active ≡ is_ahead node_a node_b)
        × (is_role r'.role active ≡ is_ahead node_b node_a)))
standby_pair_elects_example =
    standby_pair_elects context context (record node_a { role = init }) node_b 10 5 20
      (λ e. ground arith) refl refl refl refl refl refl

make_standby : request_standby node_a (some view_b) 100 ≡ accepted a_after
unfolding request_standby start_handover request_handover
make_standby = refl

make_standby_switches_example :
    Returns (tick node_b 200 (some (seen context a_after 100)) true) (λ r'.
      (r'.role ≡ active)
      × (r'.hold ≡ true)
      × Returns
          (tick a_after 300 (some (seen context r' 200)) true)
          (λ l'. (l'.role ≡ standby) × (l'.handover ≡ none)))
make_standby_switches_example =
    make_standby_switches context context node_a node_b a_after 100 200 300 view_b refl refl
      make_standby

tick-Inv_example : Returns (tick node_b 200 (some view_b) true) (Sound node_b)
tick-Inv_example = tick-Inv node_b 200 (some view_b) true node_b-Inv

abbrev beat : ℕ → ℕ → ℕ → Heartbeat
beat boot seq ts = record {
  node = 97 ∷ [];
  boot_id = boot;
  seq = seq;
  ts_ms = ts;
  role = active;
  weight = 10;
  persist = false;
  hold = false;
  handover_to = none;
  handover_manual = false;
  takeover_request = false;
  config_hash = 0;
  synced = true;
  config_sections = none;
}

passed-RisesFrom_example : RisesFrom 3 (
    passed
      (accepted_at 1 3)
      ((beat 1 4 1000, 1000) ∷ (beat 1 4 1000, 1001) ∷ (beat 1 6 1002, 1003) ∷ []))
passed-RisesFrom_example =
    passed-RisesFrom 1 3
      ((beat 1 4 1000, 1000) ∷ (beat 1 4 1000, 1001) ∷ (beat 1 6 1002, 1003) ∷ [])
      (refl, (refl, (refl, tt)))

abbrev fresh : ReplayGuard
fresh = record { last = none }

takes_first : (accept fresh (beat 1 4 1000) 1000).1 ≡ true
unfolding accept
takes_first = refl

takes_other : (accept (accept fresh (beat 1 4 1000) 1000).0 (beat 2 0 1000) 1001).1 ≡ true
unfolding accept
takes_other = refl

accept_again_example :
    (accept
      (accept (accept fresh (beat 1 4 1000) 1000).0 (beat 2 0 1000) 1001).0
      (beat 1 4 1000)
      1002).1
    ≡ true
accept_again_example =
    accept_again fresh (beat 1 4 1000) (beat 2 0 1000) 1000 1001 1002 (λ e. ground arith)
      takes_first takes_other (ground arith)

-- A toy tag, 32 times the length of the body, and one heartbeat as one byte.
abbrev repeated : ℕ → ℕ → List ℕ
repeated x zero = []
repeated x (suc n) = x ∷ repeated x n

abbrev toy : Libraries
toy = record {
  sign = λ body. repeated (length body) 32;
  verify = λ body tag. list_eq.test tag (repeated (length body) 32);
  to_vec = λ hb. hb.seq ∷ [];
  from_slice = λ body. elim body [ [] ↦ none | n ∷ ns ↦ some (beat 1 n 1000) ];
}

decode-encode_example : decode toy (encode toy (beat 1 4 1000)) ≡ some (beat 1 4 1000)
decode-encode_example = decode-encode toy (beat 1 4 1000) refl refl (ground arith) refl

decoded : decode toy (encode toy (beat 1 4 1000)) ≡ some (beat 1 4 1000)
unfolding decode encode
decoded = refl

decode_authentic_example :
    (body tag : List ℕ) × (encode toy (beat 1 4 1000) ≡ body ++ tag)
    × (length tag ≡ tag_len)
    × (toy.verify body tag ≡ true)
    × (toy.from_slice body ≡ some (beat 1 4 1000))
decode_authentic_example = decode_authentic toy (encode toy (beat 1 4 1000)) (beat 1 4 1000) decoded
