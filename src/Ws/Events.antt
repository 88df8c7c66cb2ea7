-- ===== src/Ws/Events.antt =====
-- The loop of backend/app/ws/router.py over what a client sends. `loads` is `json.loads` with what the source
-- reads of an object: its `type`, and `str(event.get("conversation_id", ""))`. The database is taken to read the
-- text of an id as `uuid.UUID` does.
use runnerup_chat.Base.{
  ℕ, ◌+◌, ◌*◌, Bool, true, false, ◌&&◌, Option, none, some, List, [], ◌∷◌, ltb, length, select_one,
  delete_rows, if◌then◌else◌,
}
use runnerup_chat.Errors.{Result, ok, err}
use runnerup_chat.Texts.{same_text, codes}
use runnerup_chat.Config.{seconds}
use runnerup_chat.Models.Accounts.{Uuid, Text, User}
use runnerup_chat.World.{Event, Channel, LimitName, known, publish}
use runnerup_chat.Security.{Platform}
use runnerup_chat.Ratelimit.{check, Decision}
use runnerup_chat.Authz.{Access, resolve_access, can, read_messages}
use runnerup_chat.Keys.{conversation_channel}
use runnerup_chat.Manager.{
  Connection, Frame, has_text, subscriptions, send, close, subscribe, unsubscribe, unregister,
}
use runnerup_chat.Ws.{Gateway, TypingKey, drop_presence, set_presence}

-- The value of `type`: a text, another value that has a hash, or a list or an object, which has none.
pub data EventType : Type 0 where
  word : Text → EventType
  scalar container : EventType

pub record ClientEvent : Type 0 where
  pub kind : EventType
  pub conversation_id : Text

-- What `json.loads` makes of a text: an object, another value, a `ValueError`, or another exception, as for
-- a text that is nested too deeply.
pub data Parsed : Type 0 where
  object : ClientEvent → Parsed
  no_object value_error recursion_error : Parsed

-- What the loop waits for.
pub data Arrival : Type 0 where
  message : Text → Arrival
  timeout disconnected : Arrival

pub data Outcome : Type 0 where
  again stop : Outcome

abbrev pub reply : Connection → Frame → Gateway → Gateway
reply c f g = record g { replica = send c.connection_id f g.replica }

abbrev pub hang_up : Connection → ℕ → Gateway → Gateway
hang_up c code g = record g { replica = close c.connection_id code g.replica }

-- `_handle_subscribe`, once the answer of `resolve_access` is known.
unfoldable pub answer_subscribe : Connection → Text → Result Access → Gateway → Gateway
unfolding send subscribe conversation_channel
answer_subscribe c t (err e) g = reply c (Frame.failure (codes "not_found")) g
answer_subscribe c t (ok access) g =
    if can access read_messages
    then reply c (Frame.subscribed t)
        (record g { replica = subscribe c.connection_id (conversation_channel t) g.replica })
    else reply c (Frame.failure (codes "not_found")) g

-- And once the user's row is looked for. Nothing is written to the tables.
unfoldable pub subscribe_as : Connection → Text → Uuid → Option User → Gateway → Gateway
unfolding send answer_subscribe
subscribe_as c t cid none g = reply c (Frame.failure (codes "unauthorized")) g
subscribe_as c t cid (some u) g =
    let (access, w) = resolve_access u cid g.world in
    answer_subscribe c t access (record g { world = w })

-- `User.id == connection.user_id`
abbrev pub is_own_row : Platform → Connection → User → Bool
is_own_row os c u = same_text (os.show_uuid u.id) c.user_id

unfoldable pub subscribe_to : Platform → Connection → Text → Option Uuid → Gateway → Gateway
unfolding send subscribe_as select_one
subscribe_to os c t none g = reply c (Frame.failure (codes "invalid_conversation")) g
subscribe_to os c t (some cid) g =
    subscribe_as c t cid (select_one (is_own_row os c) g.world.db.users) g

unfoldable pub handle_subscribe : Platform → Connection → ClientEvent → Gateway → Gateway
unfolding subscribe_to
handle_subscribe os c e = subscribe_to os c e.conversation_id (os.parse_uuid e.conversation_id)

unfoldable pub handle_unsubscribe : Connection → ClientEvent → Gateway → Gateway
unfolding conversation_channel unsubscribe
handle_unsubscribe c e g = record g {
  replica = unsubscribe c.connection_id (conversation_channel e.conversation_id) g.replica;
}

abbrev is_typing : Text → Text → TypingKey → Bool
is_typing cid uid k = same_text k.conversation_id cid && same_text k.user_id uid

-- The key is set for six seconds, or deleted.
unfoldable pub note_typing : (started : Bool) → Text → Text → Gateway → Gateway
unfolding delete_rows
note_typing started cid uid g =
    let others = delete_rows (is_typing cid uid) g.typing in
    record g {
      typing =
          if started
          then record { conversation_id = cid; user_id = uid; expires_at = g.world.now + seconds 6 }
            ∷ others
          else others;
    }

unfoldable pub handle_typing : (started : Bool) → Connection → ClientEvent → Gateway → Gateway
unfolding note_typing publish subscriptions has_text conversation_channel
handle_typing started c e g =
    let t = e.conversation_id in
    if has_text (subscriptions c.connection_id g.replica) (conversation_channel t)
    then (let noted = note_typing started t c.user_id g in
        let (done, w) =
          publish (Channel.spelled t) (Event.typing t c.user_id started) (some c.connection_id)
            noted.world in
        record noted { world = w })
    else g

-- The words that `_handle_event` knows.
pub data Kind : Type 0 where
  pong subscribing unsubscribing typing_start typing_stop unknown_word : Kind

unfoldable pub kind_of : Text → Kind
kind_of t =
    if same_text t (codes "pong")
    then pong
    else if same_text t (codes "subscribe")
    then subscribing
    else if same_text t (codes "unsubscribe")
    then unsubscribing
    else if same_text t (codes "typing.start")
    then typing_start
    else if same_text t (codes "typing.stop")
    then typing_stop
    else unknown_word

unfoldable pub handle_kind : Platform → Connection → ClientEvent → Kind → Gateway → Gateway
unfolding send handle_subscribe handle_unsubscribe handle_typing
handle_kind os c e pong g = g
handle_kind os c e subscribing g = handle_subscribe os c e g
handle_kind os c e unsubscribing g = handle_unsubscribe c e g
handle_kind os c e typing_start g = handle_typing true c e g
handle_kind os c e typing_stop g = handle_typing false c e g
handle_kind os c e unknown_word g = reply c (Frame.failure (codes "unknown_event")) g

-- `_handle_event`; `kind in {...}` raises `TypeError` for a value that has no hash, which ends the loop.
unfoldable pub handle_event :
    Platform → Connection → ClientEvent → EventType → Gateway → Outcome × Gateway
unfolding send handle_kind kind_of
handle_event os c e (word t) g = (again, handle_kind os c e (kind_of t) g)
handle_event os c e scalar g = (again, reply c (Frame.failure (codes "unknown_event")) g)
handle_event os c e container g = (stop, g)

unfoldable pub handle_parsed : Platform → Connection → Parsed → Gateway → Outcome × Gateway
unfolding send handle_event
handle_parsed os c (object e) g = handle_event os c e e.kind g
handle_parsed os c no_object g = (again, reply c (Frame.failure (codes "malformed")) g)
handle_parsed os c value_error g = (again, reply c (Frame.failure (codes "malformed")) g)
handle_parsed os c recursion_error g = (stop, g)

-- What follows the check of the connection's budget.
unfoldable pub handle_checked :
    Platform → Connection → Parsed → Result Decision → Gateway → Outcome × Gateway
unfolding send handle_parsed
handle_checked os c parsed (err e) g = (stop, g)
handle_checked os c parsed (ok decision) g =
    if decision.allowed
    then handle_parsed os c parsed g
    else (again, reply c (Frame.failure (codes "rate_limited")) g)

-- One round of the loop, with its time limit on a silent client.
unfoldable pub on_arrival :
    Platform → (loads : Text → Parsed) → Connection → Arrival → Gateway → Outcome × Gateway
unfolding send close handle_checked check
on_arrival os loads c timeout g = (stop, hang_up c 4408 g)
on_arrival os loads c disconnected g = (stop, g)
on_arrival os loads c (message raw) g =
    if ltb (64 * 1024) (length raw)
    then (stop, hang_up c 4413 (reply c (Frame.failure (codes "payload_too_large")) g))
    else (let (decision, w) =
          check LimitName.ws_event_connection (known c.connection_id) 1 g.world in
        handle_checked os c (loads raw) decision (record g { world = w }))

-- `finally`
unfoldable pub leave_loop : Connection → Gateway → Gateway
unfolding unregister drop_presence
leave_loop c g = drop_presence c.user_id (record g { replica = unregister c g.replica })

unfoldable pub after_round : Connection → Outcome → Gateway → Gateway
unfolding leave_loop
after_round c again g = g
after_round c stop g = leave_loop c g

unfoldable pub serve_round :
    Platform → (loads : Text → Parsed) → Connection → Arrival → Gateway → Gateway
unfolding on_arrival after_round
serve_round os loads c a g = let (out, g') = on_arrival os loads c a g in after_round c out g'

-- Whether the loop goes on after a round.
unfoldable pub more_rounds : Connection → Outcome → Gateway → Outcome × Gateway → Outcome × Gateway
unfolding leave_loop
more_rounds c again g more = more
more_rounds c stop g more = (stop, leave_loop c g)

-- `while True`, over what arrives; where that is all, the loop waits.
unfoldable pub serve :
    Platform → (loads : Text → Parsed) → Connection → List Arrival → Gateway → Outcome × Gateway
unfolding on_arrival more_rounds
serve os loads c [] g = (again, g)
serve os loads c (a ∷ rest) g =
    let (out, h) = on_arrival os loads c a g in more_rounds c out h (serve os loads c rest h)

-- A round of `_heartbeat`; the time is that of the ping.
unfoldable pub heartbeat : Connection → Gateway → Gateway
unfolding send set_presence
heartbeat c g = reply c (Frame.ping g.world.now) (set_presence c.user_id g)
