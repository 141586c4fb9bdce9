-- ===== src/Fedroute/Messages/RoundTrip.antt =====
-- What the parser of src/fedroute.rs reads back of the messages that its builders write.
use brew_server.Common.{
  ℕ, ◌+◌, ◌-◌, ◌*◌, ◌/◌, ◌%◌, ◌≤◌, ◌<◌, ◌≡◌, refl, sym, ap, ◌∙◌, Bool, false, some, List, [], ◌∷◌,
  ◌++◌, arith, ok, length, length-append, get_elem?, get_or, drop, drop-append, drop-add,
  take-append, All, Fits, to_le, le_at, words, word_bytes, from_le-to_le, length-to_le,
  le_at-append, length-word_bytes, words-word_bytes,
}
use mathlib.Core.List.{append-nil}
use brew_server.State.{CallId}
use brew_server.Fedroute.Messages.{fed_prune, withdraw, route, prune, max_path}
use brew_server.Protocol.{class_federation}
use brew_server.Fedroute.Messages.Build.{build_withdraw, build_route, build_prune}
use brew_server.Fedroute.Messages.Parse.{parse, parse_route, repeats}

-- The fields of a route message at their offsets.
record RouteFields (issi reg : ℕ) (path groups : List ℕ) (raw : List ℕ) : Type 0 where
  msg_type : get_elem? raw 1 ≡ some 1
  size : length raw ≡ 15 + 8 * length path + 4 * length groups
  count : get_or raw 14 0 ≡ length path % 256
  issi_at : le_at 4 raw 2 ≡ issi
  reg_at : le_at 8 raw 6 ≡ reg
  path_at : drop 15 raw ≡ word_bytes 8 path ++ word_bytes 4 groups
  groups_at : drop (15 + 8 * length path) raw ≡ word_bytes 4 groups

build_route-RouteFields :
    (issi reg : ℕ) (path groups : List ℕ)
    → Fits 4 issi
    → Fits 8 reg
    → RouteFields issi reg path groups (build_route issi reg path groups)
unfolding build_route to_le le_at
build_route-RouteFields issi reg path groups hi hr = record {
  msg_type = refl;
  size = omega (
    arith,
    length-append (word_bytes 8 path) (word_bytes 4 groups),
    length-word_bytes 8 path,
    length-word_bytes 4 groups,
  );
  count = refl;
  issi_at = from_le-to_le 4 issi hi;
  reg_at = from_le-to_le 8 reg hr;
  path_at = refl;
  groups_at =
      drop-add 15 (8 * length path) _
      ∙ drop-append (word_bytes 8 path) (word_bytes 4 groups) (sym (length-word_bytes 8 path));
}

words_whole : (w : ℕ) (xs : List ℕ) → All (Fits w) xs → words w (length xs) (word_bytes w xs) ≡ xs
words_whole w xs h =
    ap (words w (length xs)) (sym (append-nil (word_bytes w xs))) ∙ words-word_bytes w xs [] h

-- A message with the fields of a route is read as that route.
parse_route-RouteFields :
    (issi reg : ℕ) (path groups raw : List ℕ) (nbr_id : ℕ)
    → RouteFields issi reg path groups raw
    → 0 < length path
    → length path ≤ max_path
    → All (Fits 8) path
    → All (Fits 4) groups
    → get_or path 0 0 ≡ nbr_id
    → repeats [] path ≡ false
    → parse_route raw nbr_id ≡ ok (route issi (record { reg = reg; path = path; groups = groups }))
unfolding parse_route
parse_route-RouteFields issi reg path groups raw nbr_id f pos short hp hg sent once =
    let count : get_or raw 14 0 ≡ length path = omega (arith, f.count) in
    let many : (length raw - (15 + 8 * length path)) / 4 ≡ length groups = omega (arith, f.size) in
    let whole : (length raw - (15 + 8 * length path)) % 4 ≡ 0 = omega (arith, f.size) in
    let long : 15 + 8 * length path ≤ length raw = omega (arith, f.size) in
    let path_read : words 8 (length path) (drop 15 raw) ≡ path =
      ap (words 8 (length path)) f.path_at ∙ words-word_bytes 8 path (word_bytes 4 groups) hp in
    let groups_read : words 4 (length groups) (drop (15 + 8 * length path) raw) ≡ groups =
      ap (words 4 (length groups)) f.groups_at ∙ words_whole 4 groups hg in
    ground arith

-- The path of a route that a neighbour may send.
pub record IsPath (path : List ℕ) (nbr_id : ℕ) : Type 0 where
  pub some_hop : 0 < length path
  pub few_hops : length path ≤ max_path
  pub ids : All (Fits 8) path
  pub sent : get_or path 0 0 ≡ nbr_id
  pub once : repeats [] path ≡ false

-- A route message is read back as it was built, by the neighbour that its path starts at, where the
-- path has 1 to 16 servers, none twice, and every number fits its field.
pub parse-build_route :
    (utf8 : List ℕ → Bool) (issi reg : ℕ) (path groups : List ℕ) (nbr_id : ℕ)
    → Fits 4 issi
    → Fits 8 reg
    → All (Fits 4) groups
    → IsPath path nbr_id
    → parse utf8 (build_route issi reg path groups) nbr_id
      ≡ ok (route issi (record { reg = reg; path = path; groups = groups }))
unfolding parse
parse-build_route utf8 issi reg path groups nbr_id hi hr hg p =
    let f = build_route-RouteFields issi reg path groups hi hr in
    ground (
      arith,
      f.msg_type,
      parse_route-RouteFields issi reg path groups (build_route issi reg path groups) nbr_id f
          p.some_hop p.few_hops p.ids hg p.sent p.once,
    )

-- A withdrawal is read back as it was built, whoever sends it.
pub parse-build_withdraw :
    (utf8 : List ℕ → Bool) (issi nbr_id : ℕ)
    → Fits 4 issi
    → parse utf8 (build_withdraw issi) nbr_id ≡ ok (withdraw issi)
unfolding parse build_withdraw to_le le_at
parse-build_withdraw utf8 issi nbr_id h = ap (λ (n : ℕ). ok (withdraw n)) (from_le-to_le 4 issi h)

-- So is a prune.
pub parse-build_prune :
    (utf8 : List ℕ → Bool) (id : CallId) (source_issi nbr_id : ℕ)
    → length id ≡ 16
    → Fits 4 source_issi
    → parse utf8 (build_prune id source_issi) nbr_id ≡ ok (prune id source_issi)
unfolding parse build_prune
parse-build_prune utf8 id source_issi nbr_id n h =
    let field : le_at 4 (build_prune id source_issi) 18 ≡ source_issi =
      ap (λ (l : List ℕ). le_at 4 (class_federation ∷ fed_prune ∷ (id ++ l)) 18)
        (sym (append-nil (to_le 4 source_issi)))
      ∙ le_at-append 4 source_issi 18 (class_federation ∷ fed_prune ∷ id) [] (omega arith) h in
    ground (
      arith,
      field,
      take-append id (to_le 4 source_issi) (sym n),
      length-append id (to_le 4 source_issi),
      length-to_le 4 source_issi,
    )
