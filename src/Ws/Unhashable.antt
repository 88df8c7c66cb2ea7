-- ===== src/Ws/Unhashable.antt =====
-- What becomes of backend/app/ws/router.py since Python does not let a connection stand in a set.
use runnerup_chat.Base.{
  ◌≡◌, ◌≢◌, refl, inl, inr, Bool, ◌∷◌, true, false, some, none, Option, [], Bool-cases, leb, length,
  select_one,
}
use runnerup_chat.Errors.{Result, ok, err}
use runnerup_chat.Texts.{codes}
use runnerup_chat.Keys.{conversation_channel, user_channel}
use runnerup_chat.Models.Accounts.{Uuid, Text}
use runnerup_chat.World.{Publication, Ticket, Channel}
use runnerup_chat.Security.{Platform}
use runnerup_chat.Sessions.{is_session_revoked}
use runnerup_chat.Registers.{held}
use runnerup_chat.Manager.{
  Connection, Replica, find_connection, register, relay, max_connections_per_user, channel_name,
  has_text,
}
use runnerup_chat.Ws.{Gateway, Handshake, admit, claims_of, connect, connection_of, registered}
use runnerup_chat.Ws.Events.{Parsed}
use runnerup_chat.Ws.Steps.{
  Reachable, Step, request, handshake, round, beat, delivery, at_start, and_then,
}

-- A replica that holds no connection, listens to no channel but the placeholder, has sent nothing and closed
-- nothing.
abbrev pub Silent : Replica → Type 0
Silent r =
    (r.connections ≡ []) × (r.pubsub ≡ codes "__keepalive__" ∷ []) × (r.sent ≡ []) × (r.closed ≡ [])

register-Silent :
    (c : Connection) (r : Replica)
    → Silent r
    → Silent (register c r).1 × ((register c r).0 ≢ ok true)
unfolding register
register-Silent c r h =
    elim (Bool-cases (leb max_connections_per_user (length (held c.user_id r.by_user)))) [
      | inl full ↦ rw full (h, λ e. cc)
      | inr room ↦ rw room (h, λ e. cc)
    ]

registered-unserved :
    (c : Connection) (g : Gateway) (done : Result Bool) (r : Replica)
    → Silent r
    → done ≢ ok true
    → Silent (registered c g done r).1.replica × ((registered c g done r).0 ≢ Handshake.served)
unfolding registered
registered-unserved c g (ok true) r h unable = absurd (unable refl)
registered-unserved c g (ok false) r h unable = (h, λ e. cc)
registered-unserved c g (err x) r h unable = (h, λ e. cc)

admit-Silent :
    (os : Platform) (i : Uuid) (claims : Result (Option Ticket)) (g : Gateway)
    → Silent g.replica
    → Silent (admit os i claims g).1.replica × ((admit os i claims g).0 ≢ Handshake.served)
unfolding admit
admit-Silent os i (err e) g h = (h, λ x. cc)
admit-Silent os i (ok none) g h = (h, λ x. cc)
admit-Silent os i (ok (some claims)) g h =
    elim (Bool-cases (is_session_revoked claims.session_id g.world)) [
      | inl gone ↦ rw gone (h, λ x. cc)
      | inr valid ↦
          let c = connection_of os i claims in
          let (quiet, unable) = register-Silent c g.replica h in
          rw valid
            (registered-unserved c g (register c g.replica).0 (register c g.replica).1 quiet unable)
    ]

nobody_found : (i : Uuid) (r : Replica) {c : Connection} → Silent r → find_connection i r ≢ some c
unfolding find_connection select_one
nobody_found i r h e = cc (rw (h.0) at e)

-- Nothing is published on the placeholder.
placeholder_apart :
    (os : Platform) (ch : Channel)
    → has_text (codes "__keepalive__" ∷ []) (channel_name os ch) ≡ false
unfolding has_text channel_name conversation_channel user_channel
placeholder_apart os (Channel.conv i) = refl
placeholder_apart os (Channel.user i) = refl
placeholder_apart os (Channel.spelled t) = refl

relay-Silent : (os : Platform) (p : Publication) (r : Replica) → Silent r → Silent (relay os p r)
unfolding relay
relay-Silent os p r h =
    let deaf : has_text r.pubsub (channel_name os p.channel) ≡ false =
      rw (h.1) (placeholder_apart os p.channel) in
    rw deaf h

module _ {os : Platform} {loads : Text → Parsed} where
  Step-Silent : {g h : Gateway} → Step os loads g h → Silent g.replica → Silent h.replica
  unfolding connect
  Step-Silent (request w) s = s
  Step-Silent (handshake i ticket {g} new) s = (admit-Silent os i _ _ s).0
  Step-Silent (round c a {g} present) s = absurd (nobody_found c.connection_id g.replica s present)
  Step-Silent (beat c {g} present) s = absurd (nobody_found c.connection_id g.replica s present)
  Step-Silent (delivery p {g}) s = relay-Silent os p g.replica s

Reachable-Silent :
    {os : Platform} {loads : Text → Parsed} {g : Gateway} → Reachable os loads g → Silent g.replica
Reachable-Silent (at_start w) = (refl, refl, refl, refl)
Reachable-Silent (and_then before step) = Step-Silent step (Reachable-Silent before)

-- Python does not let a connection, a dataclass with generated equality, stand in a set. So no run of a replica
-- ever holds a connection, listens to a channel but the placeholder `__keepalive__`, sends a frame or closes a
-- socket of a connection, and no handshake in it ends with a connection that is served, whatever the ticket.
pub unhashable_serves_nobody :
    {os : Platform} {loads : Text → Parsed} {g : Gateway} (i : Uuid) (ticket : Text)
    → Reachable os loads g
    → Silent g.replica × ((connect os i ticket g).0 ≢ Handshake.served)
unfolding connect
unhashable_serves_nobody {os} {loads} {g} i ticket run =
    let quiet = Reachable-Silent run in
    (quiet, (admit-Silent os i (claims_of ticket g.world).0 _ quiet).1)
