-- ===== src/Router/LateCopy.antt =====
-- The header of a call that has ended and comes once more over another link, as in a ring of peers
-- (src/router.rs, `end_call` and `handle_group_tx`; src/fedroute.rs, `note_call` and `is_duplicate`).
use brew_server.Common.{nat_eq, pair_eq, list_eq}
