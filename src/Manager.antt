-- ===== src/Manager.antt =====
-- backend/app/ws/manager.py: the connections of one replica, the channels that they are subscribed to, and
-- what is sent to them. A connection is told apart by its `connection_id`; the sets of the manager hold
-- these ids, and a list holds the connections themselves, whose `subscriptions` change in place. Each
-- method runs undisturbed by others. Python lets no `Connection` stand in a set: it is a dataclass with
-- generated equality and so has no hash, and `set.add` raises `TypeError` for it. The other methods are
-- reached by registered connections alone, so their effect on the sets is written out for ids.
use runnerup_chat.Base.{
  ℕ, Bool, true, false, ◌||◌, Option, none, some, List, [], ◌∷◌, ◌++◌, ◌==◌, leb, if◌then◌else◌,
  length, select_one, update_rows, delete_rows,
}
use runnerup_chat.Errors.{Result, ok, err, type_error}
use runnerup_chat.Texts.{same_text, any_of}
use runnerup_chat.Models.Accounts.{Uuid, Text, Time, RevokeReason}
use runnerup_chat.Keys.{conversation_channel, user_channel}
use runnerup_chat.Security.{Platform}
use runnerup_chat.World.{Event, Channel, Publication}
use runnerup_chat.Registers.{Register, held, is_key, enter, leave, touch, is_empty}

pub record Connection : Type 0 where
  pub connection_id : Uuid
  pub user_id : Text
  pub session_id : Uuid
  pub device_id : Uuid
  pub subscriptions : List Text

-- What is sent to a client.
pub data Frame : Type 0 where
  failure : Text → Frame
  subscribed : Text → Frame
  closing : RevokeReason → Frame
  carried : Event → Frame
  ping : Time → Frame

pub record Sent : Type 0 where
  pub receiver : Uuid
  pub frame : Frame

pub record Close : Type 0 where
  pub socket : Uuid
  pub code : ℕ

-- `pubsub` holds the channels that the replica is subscribed to on Redis.
pub record Replica : Type 0 where
  pub connections : List Connection
  pub by_user : Register
  pub by_channel : Register
  pub pubsub : List Text
  pub sent : List Sent
  pub closed : List Close

-- A set of texts.
unfoldable pub has_text : List Text → Text → Bool
has_text [] t = false
has_text (s ∷ ss) t = same_text s t || has_text ss t

unfoldable pub add_text : Text → List Text → List Text
unfolding has_text
add_text t ss = if has_text ss t then ss else t ∷ ss

unfoldable pub drop_text : Text → List Text → List Text
unfolding delete_rows
drop_text t ss = delete_rows (λ s. same_text s t) ss

abbrev pub is_connection : Uuid → Connection → Bool
is_connection i c = c.connection_id == i

unfoldable pub find_connection : Uuid → Replica → Option Connection
unfolding select_one
find_connection i r = select_one (is_connection i) r.connections

abbrev subscriptions_of : Option Connection → List Text
subscriptions_of none = []
subscriptions_of (some c) = c.subscriptions

-- `connection.subscriptions`
unfoldable pub subscriptions : Uuid → Replica → List Text
unfolding find_connection
subscriptions i r = subscriptions_of (find_connection i r)

unfoldable pub set_subscriptions : Uuid → (List Text → List Text) → Replica → Replica
unfolding update_rows
set_subscriptions i f r = record r {
  connections =
      update_rows (is_connection i) (λ c. record c { subscriptions = f c.subscriptions })
        r.connections;
}

-- `Connection.send`
unfoldable pub send : Uuid → Frame → Replica → Replica
send i f r = record r { sent = r.sent ++ record { receiver = i; frame = f } ∷ [] }

-- `connection.socket.close(code=...)`
unfoldable pub close : Uuid → ℕ → Replica → Replica
close i n r = record r { closed = r.closed ++ record { socket = i; code = n } ∷ [] }

unfoldable pub subscribe : Uuid → Text → Replica → Replica
unfolding set_subscriptions
subscribe i channel r = set_subscriptions i (add_text channel) (record r {
  by_channel = enter channel i r.by_channel;
  pubsub = if is_key channel r.by_channel then r.pubsub else add_text channel r.pubsub;
})

-- `leave` deletes a set that has become empty, which the source does with `pop`.
unfoldable pub unsubscribe : Uuid → Text → Replica → Replica
unfolding set_subscriptions
unsubscribe i channel r =
    let left = leave channel i r.by_channel in
    set_subscriptions i (drop_text channel) (record r {
      by_channel = left;
      pubsub = if is_empty (held channel left) then drop_text channel r.pubsub else r.pubsub;
    })

abbrev pub max_connections_per_user : ℕ
max_connections_per_user = 10

-- Where there is room, `self._by_user[connection.user_id]` is read, which leaves an empty set behind, and
-- `set.add` raises before the channel of the user is subscribed to.
unfoldable pub register : Connection → Replica → Result Bool × Replica
unfolding held touch
register c r =
    if leb max_connections_per_user (length (held c.user_id r.by_user))
    then (ok false, r)
    else (err type_error, record r { by_user = touch c.user_id r.by_user })

-- The loop of `unregister` over the subscriptions of a connection.
unfoldable pub leave_channels : Uuid → List Text → Replica → Replica
leave_channels i [] r = r
leave_channels i (channel ∷ rest) r =
    let left = leave channel i r.by_channel in
    leave_channels i rest (record r {
      by_channel = left;
      pubsub = if is_empty (held channel left) then drop_text channel r.pubsub else r.pubsub;
    })

-- The connection is no object of the replica any more when this is done.
unfoldable pub unregister : Connection → Replica → Replica
unfolding leave_channels leave subscriptions
unregister c r =
    let gone =
      leave_channels c.connection_id (subscriptions c.connection_id r)
        (record r { by_user = leave c.user_id c.connection_id r.by_user }) in
    record gone { connections = delete_rows (is_connection c.connection_id) gone.connections }

abbrev pub is_origin : Option Uuid → Uuid → Bool
is_origin none i = false
is_origin (some o) i = o == i

-- The loop of `_relay` over the connections of a channel.
unfoldable pub fan_out : Option Uuid → Event → List Uuid → Replica → Replica
unfolding send
fan_out origin e [] r = r
fan_out origin e (i ∷ is) r =
    fan_out origin e is (if is_origin origin i then r else send i (Frame.carried e) r)

-- One round of the loops of `_close_revoked` and of `drop_user_connections`.
unfoldable pub close_if :
    (Uuid → Bool) → RevokeReason → Uuid → Option Connection → Replica → Replica
unfolding send close
close_if revoked reason i none r = r
close_if revoked reason i (some c) r =
    if revoked c.session_id then close i 4001 (send i (Frame.closing reason) r) else r

unfoldable pub close_sessions : (Uuid → Bool) → RevokeReason → List Uuid → Replica → Replica
unfolding find_connection close_if
close_sessions revoked reason [] r = r
close_sessions revoked reason (i ∷ is) r =
    close_sessions revoked reason is (close_if revoked reason i (find_connection i r) r)

-- What the payload of `session.revoked` says.
pub record Revocation : Type 0 where
  pub user_id : Uuid
  pub session_ids : List Uuid
  pub reason : RevokeReason

-- `payload.get("type") == "session.revoked"`
abbrev pub revocation : Event → Option Revocation
revocation (Event.message_created c m) = none
revocation (Event.message_edited c m) = none
revocation (Event.message_deleted c m b) = none
revocation (Event.receipt_read c u n) = none
revocation (Event.reaction_changed c m u t b) = none
revocation (Event.session_created i) = none
revocation (Event.session_revoked uid sids reason) =
    some (record { user_id = uid; session_ids = sids; reason = reason })
revocation (Event.typing c u b) = none

module _ (os : Platform) where
  unfoldable pub channel_name : Channel → Text
  channel_name (Channel.conv i) = conversation_channel (os.show_uuid i)
  channel_name (Channel.user i) = user_channel (os.show_uuid i)
  channel_name (Channel.spelled t) = conversation_channel t

  -- `_close_revoked`; the text of a user's id is never empty.
  unfoldable pub close_revoked : Revocation → Replica → Replica
  unfolding close_sessions held
  close_revoked v r =
      if is_empty v.session_ids
      then r
      else close_sessions (any_of v.session_ids) v.reason (held (os.show_uuid v.user_id) r.by_user)
          r

  -- One round of `_relay`, for a message that Redis has delivered: what is done with a revocation, and with
  -- any other event.
  unfoldable pub deliver_as : Option Revocation → Text → Event → Option Uuid → Replica → Replica
  unfolding fan_out held
  deliver_as none channel e origin r = fan_out origin e (held channel r.by_channel) r
  deliver_as (some v) channel e origin r = close_revoked v r

  unfoldable pub deliver : Text → Event → Option Uuid → Replica → Replica
  deliver channel e = deliver_as (revocation e) channel e

  -- Redis delivers what is published on the channels that the replica listens to.
  unfoldable pub relay : Publication → Replica → Replica
  unfolding has_text
  relay p r =
      let channel = channel_name p.channel in
      if has_text r.pubsub channel then deliver channel p.event p.origin r else r

  -- `drop_user_connections`
  unfoldable pub drop_user_connections : Text → RevokeReason → Replica → Replica
  unfolding close_sessions held
  drop_user_connections user_id reason r =
      close_sessions (λ sid. true) reason (held user_id r.by_user) r
