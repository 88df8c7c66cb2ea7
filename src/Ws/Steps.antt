-- ===== src/Ws/Steps.antt =====
-- The runs of the gateway of backend/app/ws/router.py on one replica, as a step relation: handshakes, rounds
-- of the loops that serve registered connections, heartbeats, what Redis delivers, and requests, which may change
-- tables, keys and the time in any way. The steps come in any order.
use runnerup_chat.Base.{◌≡◌, some, none, [], ◌∷◌}
use runnerup_chat.Models.Accounts.{Uuid, Text}
use runnerup_chat.World.{World, Publication}
use runnerup_chat.Security.{Platform}
use runnerup_chat.Texts.{codes}
use runnerup_chat.Manager.{Connection, Replica, find_connection, relay}
use runnerup_chat.Ws.{Gateway, connect}
use runnerup_chat.Ws.Events.{Parsed, Arrival, serve_round, heartbeat}

-- A replica whose manager has just started: `start` subscribes to one channel, so that the connection to
-- Redis stays open.
abbrev pub empty_replica : Replica
empty_replica = record {
  connections = [];
  by_user = [];
  by_channel = [];
  pubsub = codes "__keepalive__" ∷ [];
  sent = [];
  closed = [];
}

abbrev pub started : World → Gateway
started w = record { world = w; replica = empty_replica; presence = []; typing = [] }

module _ (os : Platform) (loads : Text → Parsed) where
  pub data Step : Gateway → Gateway → Type 0 where
    request : (w : World) {g : Gateway} → Step g (record g { world = w })
    handshake :
        (i : Uuid) (ticket : Text) {g : Gateway}
        → find_connection i g.replica ≡ none
        → Step g ((connect os i ticket g).1)
    round :
        (c : Connection) (a : Arrival) {g : Gateway}
        → find_connection c.connection_id g.replica ≡ some c
        → Step g (serve_round os loads c a g)
    beat :
        (c : Connection) {g : Gateway}
        → find_connection c.connection_id g.replica ≡ some c
        → Step g (heartbeat c g)
    delivery :
        (p : Publication) {g : Gateway} → Step g (record g { replica = relay os p g.replica })

  pub data Reachable : Gateway → Type 0 where
    at_start : (w : World) → Reachable (started w)
    and_then : {g h : Gateway} → Reachable g → Step g h → Reachable h
