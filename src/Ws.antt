-- ===== src/Ws.antt =====
-- backend/app/ws/router.py: tickets, and the handshake. A ticket's text and the id of a connection are drawn
-- anew by each call and given as arguments. The state is that of the requests with the connections of one
-- replica and the keys of presence and typing.
pub mod Tickets
pub mod Events
pub mod Steps
pub mod Unhashable
pub mod Revoking
mod Tests
use runnerup_chat.Base.{
  ℕ, ◌+◌, Bool, true, false, Option, none, some, List, [], ◌∷◌, ltb, select_one, delete_rows,
  if◌then◌else◌,
}
use runnerup_chat.Errors.{Result, ok, err}
use runnerup_chat.Texts.{same_text}
use runnerup_chat.Config.{Settings, seconds}
use runnerup_chat.Models.Accounts.{Uuid, Text, Time}
use runnerup_chat.World.{World, Exec, Ticket, pure}
use runnerup_chat.Sessions.{is_session_revoked}
use runnerup_chat.Security.{Platform}
use runnerup_chat.Deps.{Principal}
use runnerup_chat.Manager.{Connection, Replica, register}

abbrev pub is_ticket : Text → Ticket → Bool
is_ticket t r = same_text r.ticket t

abbrev pub ticket_of : Settings → Principal → Text → World → Ticket
ticket_of cfg p ticket w = record {
  ticket = ticket;
  user_id = p.user.id;
  session_id = p.session_id;
  device_id = p.device_id;
  expires_at = w.now + seconds cfg.ws_ticket_ttl_seconds;
}

-- SETEX: the key is written anew.
unfoldable pub issue_ticket : Settings → Principal → (ticket : Text) → Exec (Text × ℕ)
issue_ticket cfg p ticket w = (
  ok (ticket, cfg.ws_ticket_ttl_seconds),
  record w { tickets = ticket_of cfg p ticket w ∷ delete_rows (is_ticket ticket) w.tickets },
)

-- The key is read while it has not expired.
abbrev pub unexpired : World → Option Ticket → Option Ticket
unexpired w none = none
unexpired w (some r) = if ltb w.now r.expires_at then some r else none

-- `_redeem`: GETDEL.
unfoldable pub redeem : Text → Exec (Option Ticket)
redeem ticket w = (
  ok (unexpired w (select_one (is_ticket ticket) w.tickets)),
  record w { tickets = delete_rows (is_ticket ticket) w.tickets },
)

-- The key `presence:{user_id}`.
pub record PresenceKey : Type 0 where
  pub user_id : Text
  pub expires_at : Time

-- The key `typing:{conversation_id}:{user_id}`.
pub record TypingKey : Type 0 where
  pub conversation_id : Text
  pub user_id : Text
  pub expires_at : Time

pub record Gateway : Type 0 where
  pub world : World
  pub replica : Replica
  pub presence : List PresenceKey
  pub typing : List TypingKey

abbrev is_presence : Text → PresenceKey → Bool
is_presence user_id k = same_text k.user_id user_id

-- `redis.delete(presence_key(...))`
unfoldable pub drop_presence : Text → Gateway → Gateway
unfolding delete_rows
drop_presence user_id g = record g { presence = delete_rows (is_presence user_id) g.presence }

-- `redis.setex(presence_key(...), PRESENCE_TTL_SECONDS, "online")`
unfoldable pub set_presence : Text → Gateway → Gateway
unfolding delete_rows
set_presence user_id g = record g {
  presence =
      record { user_id = user_id; expires_at = g.world.now + seconds 45 }
      ∷ delete_rows (is_presence user_id) g.presence;
}

-- How a handshake ends: the socket is closed with 4401 or with 4429, it is served, or an exception ends it.
pub data Handshake : Type 0 where
  unauthorized too_many_connections served failed : Handshake

-- What follows the registration.
unfoldable pub registered : Connection → Gateway → Result Bool → Replica → Handshake × Gateway
unfolding set_presence
registered c g (ok true) r = (served, set_presence c.user_id (record g { replica = r }))
registered c g (ok false) r = (too_many_connections, record g { replica = r })
registered c g (err e) r = (failed, record g { replica = r })

abbrev pub connection_of : Platform → Uuid → Ticket → Connection
connection_of os connection_id claims = record {
  connection_id = connection_id;
  user_id = os.show_uuid claims.user_id;
  session_id = claims.session_id;
  device_id = claims.device_id;
  subscriptions = [];
}

-- What follows for the claims of a ticket.
unfoldable pub admit :
    Platform → (connection_id : Uuid) → Result (Option Ticket) → Gateway → Handshake × Gateway
unfolding registered register
admit os connection_id (err e) g = (failed, g)
admit os connection_id (ok none) g = (unauthorized, g)
admit os connection_id (ok (some claims)) g =
    if is_session_revoked claims.session_id g.world
    then (unauthorized, g)
    else (let c = connection_of os connection_id claims in
        let (done, r) = register c g.replica in registered c g done r)

-- `await _redeem(ticket) if ticket else None`
unfoldable pub claims_of : Text → Exec (Option Ticket)
claims_of [] = pure none
claims_of (c ∷ cs) = redeem (c ∷ cs)

-- `websocket_endpoint` up to its loop.
unfoldable pub connect :
    Platform → (connection_id : Uuid) → (ticket : Text) → Gateway → Handshake × Gateway
unfolding admit
connect os connection_id ticket g =
    let (claims, w) = claims_of ticket g.world in
    admit os connection_id claims (record g { world = w })
