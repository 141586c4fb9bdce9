-- ===== src/Connections/Attach.antt =====
-- A connection that comes up (src/federation.rs, `attach_client`; src/server.rs, `client_session`).
use brew_server.Common.{
  ℕ, Bool, Option, none, some, List, [], ◌∷◌, ◌++◌, if◌then◌else◌, nat_eq, insert, add,
}
use brew_server.State.{ClientId, Client, is_mode, peer, Inner, Send}
use brew_server.Fedroute.Messages.Build.{build_bts_hello}
use brew_server.Fedroute.Publish.{sync_messages, to_link}

-- The neighbour of a negotiated link is noted, and greeted.
unfoldable pub link_up : Inner → ClientId → Option ℕ → Inner × List Send
link_up inner id none = (inner, [])
link_up inner id (some neighbour) = (
  record inner { fed = record inner.fed { links = insert id neighbour inner.fed.links } },
  (id, build_bts_hello) ∷ [],
)

unfoldable pub attach_client : Inner → ClientId → Client → Option ℕ → Inner × List Send
unfolding link_up
attach_client inner id client neighbour =
    let (up, hello) =
      link_up (record inner { clients = insert id client inner.clients }) id neighbour in
    (up, hello ++ (if is_mode client.mode peer then to_link id (sync_messages up id) else []))

-- The start of a session: a console is noted as one.
unfoldable pub begin_session : Inner → ClientId → Client → Option ℕ → Bool → Inner × List Send
unfolding attach_client
begin_session inner id client neighbour console =
    let (attached, sends) = attach_client inner id client neighbour in
    (if console then record attached { consoles = add id attached.consoles } else attached, sends)
