-- ===== src/Fedroute/Messages/Parse.antt =====
-- The parsers of federation messages (src/fedroute.rs). Whether bytes are UTF-8
-- (`String::from_utf8`) is a parameter.
use brew_server.Common.{
  ℕ, ◌+◌, ◌-◌, ◌*◌, ◌/◌, ◌%◌, Bool, false, not, ◌||◌, none, some, List, [], ◌∷◌, if◌then◌else◌, ltb,
  nat_beq, Text, Result, ok, ◌>>=◌, ◌>>◌, refuse_if, ok_or, length, get_elem?, get_or, take, drop,
  contains, nat_eq, le_at, words,
}
use brew_server.Fedroute.Messages.{
  fed_withdraw, fed_route, fed_prune, fed_bts_hello, fed_bts, fed_ms_pos, fed_emergency, max_path,
  max_bts_text, BtsAdvert, MsAdvert, EmAdvert, FedMessage, withdraw, route, prune, bts_hello, bts,
  ms_pos, emergency, unknown, FedError, too_short, wrong_length, path_length, not_from_sender,
  crosses_twice, not_utf8, text_too_long,
}

-- Whether an element stands in `seen` or among those before it.
unfoldable pub repeats : List ℕ → List ℕ → Bool
repeats seen [] = false
repeats seen (x ∷ xs) = contains seen x || repeats (x ∷ seen) xs

-- The checks on a path that a neighbour sent.
abbrev pub check_path : List ℕ → ℕ → Result FedError (Unit {0})
check_path path nbr_id = do
  refuse_if (not (nat_beq (get_or path 0 0) nbr_id)) not_from_sender
  refuse_if (repeats [] path) crosses_twice

abbrev pub check_count : ℕ → Result FedError (Unit {0})
check_count n = refuse_if (nat_beq n 0 || ltb max_path n) path_length

unfoldable pub parse_route : List ℕ → ℕ → Result FedError FedMessage
parse_route raw nbr_id = do
  refuse_if (ltb (length raw) 15) too_short
  let n = get_or raw 14 0
  check_count n
  let groups_at = 15 + 8 * n
  refuse_if (ltb (length raw) groups_at || not (nat_beq ((length raw - groups_at) % 4) 0))
      wrong_length
  let path = words 8 n (drop 15 raw)
  check_path path nbr_id
  let groups = words 4 ((length raw - groups_at) / 4) (drop groups_at raw)
  ok (route (le_at 4 raw 2) (record { reg = le_at 8 raw 6; path = path; groups = groups }))

module _ (utf8 : List ℕ → Bool) where
  unfoldable pub parse_emergency : List ℕ → ℕ → Result FedError EmAdvert
  parse_emergency raw nbr_id = do
    refuse_if (ltb (length raw) 21) too_short
    let n = get_or raw 19 0
    check_count n
    let at = 20 + 8 * n
    blen ← ok_or (get_elem? raw at) wrong_length
    refuse_if (ltb max_bts_text blen || not (nat_beq (length raw) (at + 1 + blen))) wrong_length
    let path = words 8 n (drop 20 raw)
    check_path path nbr_id
    let text = drop (at + 1) raw
    refuse_if (not (utf8 text)) not_utf8
    let dest = le_at 4 raw 15
    ok (record {
      issi = le_at 4 raw 11;
      dest = if nat_beq dest 0 then none else some dest;
      bts = text;
      active = not (nat_beq (get_or raw 10 0) 0);
      seq = le_at 8 raw 2;
      path = path;
    })

  unfoldable pub parse_ms_pos : List ℕ → ℕ → Result FedError MsAdvert
  parse_ms_pos raw nbr_id = do
    refuse_if (ltb (length raw) 32) too_short
    let n = get_or raw 30 0
    check_count n
    let at = 31 + 8 * n
    slen ← ok_or (get_elem? raw at) wrong_length
    refuse_if (ltb max_bts_text slen || not (nat_beq (length raw) (at + 1 + slen))) wrong_length
    let path = words 8 n (drop 31 raw)
    check_path path nbr_id
    let text = drop (at + 1) raw
    refuse_if (not (utf8 text)) not_utf8
    ok (record {
      issi = le_at 4 raw 10;
      lat = le_at 8 raw 14;
      lon = le_at 8 raw 22;
      at_ms = le_at 8 raw 2;
      station = text;
      path = path;
    })

  -- The closure `text`: the text at an offset, and the offset behind it.
  unfoldable pub text_at : List ℕ → ℕ → Result FedError (Text × ℕ)
  text_at raw at = do
    len ← ok_or (get_elem? raw at) wrong_length
    refuse_if (ltb (length raw) (at + 1 + len)) wrong_length
    refuse_if (ltb max_bts_text len) text_too_long
    let bytes = take len (drop (at + 1) raw)
    refuse_if (not (utf8 bytes)) not_utf8
    ok (bytes, at + 1 + len)

  unfoldable pub parse_bts : List ℕ → ℕ → Result FedError BtsAdvert
  unfolding text_at
  parse_bts raw nbr_id = do
    refuse_if (ltb (length raw) 28) too_short
    let n = get_or raw 27 0
    check_count n
    let at = 28 + 8 * n
    refuse_if (ltb (length raw) at) wrong_length
    let path = words 8 n (drop 28 raw)
    check_path path nbr_id
    key ← text_at raw at
    name ← text_at raw key.1
    refuse_if (not (nat_beq name.1 (length raw))) wrong_length
    ok (record {
      key = key.0;
      name = name.0;
      lat = le_at 8 raw 11;
      lon = le_at 8 raw 19;
      online = not (nat_beq (get_or raw 10 0) 0);
      seq = le_at 8 raw 2;
      path = path;
    })

  unfoldable pub parse_type : ℕ → List ℕ → ℕ → Result FedError FedMessage
  parse_type t raw nbr_id =
      if nat_beq t fed_withdraw
      then (do refuse_if (not (nat_beq (length raw) 6)) wrong_length; ok (withdraw (le_at 4 raw 2)))
      else if nat_beq t fed_prune
      then (do
        refuse_if (not (nat_beq (length raw) 22)) wrong_length
        ok (prune (take 16 (drop 2 raw)) (le_at 4 raw 18)))
      else if nat_beq t fed_route
      then parse_route raw nbr_id
      else if nat_beq t fed_bts_hello
      then ok (bts_hello (elim (get_elem? raw 2) [ none ↦ 1 | some v ↦ v ]))
      else if nat_beq t fed_ms_pos
      then (do a ← parse_ms_pos raw nbr_id; ok (ms_pos a))
      else if nat_beq t fed_emergency
      then (do a ← parse_emergency raw nbr_id; ok (emergency a))
      else if nat_beq t fed_bts
      then (do a ← parse_bts raw nbr_id; ok (bts a))
      else ok (unknown t)

  unfoldable pub parse : List ℕ → ℕ → Result FedError FedMessage
  unfolding parse_type
  parse raw nbr_id = do t ← ok_or (get_elem? raw 1) too_short; parse_type t raw nbr_id
