-- ===== src/Router/Floor/Spec/Request.antt =====
-- The set-up of a group call implements a request for the floor (src/router.rs, `handle_group_tx`).
use brew_server.Common.{Bool, true, false, list_eq, option_eq}
use brew_server.Router.Group.{Floor, free, occupied, preempts}

abbrev is_occupied : Floor → Bool
is_occupied free = false
is_occupied occupied = true
is_occupied (preempts u c) = false
