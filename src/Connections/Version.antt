-- ===== src/Connections/Version.antt =====
-- The version that a connection has shown (src/state.rs, `promote_client_version`).
use brew_server.Common.{
  ◌≡◌, max, inl, inr, Bool-cases, some, arith, ltb, nat_eq, nat_beq_iff, lookup, lookup-insert,
}
use brew_server.State.{ClientId, Client, ConnVersion, as_u8, Inner}
use brew_server.Connections.{promote_client_version}

-- The connection's version becomes the higher of its own and the one observed, and the answer tells
-- whether that is a change.
pub promote-max :
    (inner : Inner) (id : ClientId) (client : Client) (observed : ConnVersion)
    → lookup id inner.clients ≡ some client
    → (after : Client) × (lookup id (promote_client_version inner id observed).0.clients
        ≡ some after)
      × (as_u8 after.version ≡ max (as_u8 client.version) (as_u8 observed))
      × ((promote_client_version inner id observed).1 ≡ ltb (as_u8 client.version) (as_u8 observed))
unfolding promote_client_version
promote-max inner id client observed e =
    elim (Bool-cases (ltb (as_u8 client.version) (as_u8 observed))) [
      | inl up ↦
          let raised : Client = record client { version = observed } in
          (
            raised,
            ground (arith, lookup-insert id id raised inner.clients, nat_beq_iff id id),
            ground arith,
            ground arith,
          )
      | inr stays ↦ (client, ground arith, ground arith, ground arith)
    ]
