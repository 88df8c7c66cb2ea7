-- ===== src/Lib.antt =====
-- The server of a chat application, backend/app: a FastAPI process over PostgreSQL and Redis. A
-- request runs in one transaction; what it commits is what other requests see, and what it
-- publishes in Redis reaches the sockets of every replica that is subscribed to the channel.
--
-- Parts and files:
--   * World.antt: the state that a request works on. `db` holds the tables as the open
--     transaction sees them and `saved` as last committed; `buckets` and `revoked` are the keys of
--     Redis, as are the `tickets` of sockets; `objects` is the bucket of the object storage;
--     `published` what went out; `now` the clock. `Exec A` is a handler, a function of that
--     state that returns or raises; `commit`, `rollback` and `request` are those of
--     backend/app/db/session.py, `record_audit` and `record_security` those of
--     backend/app/services/audit.py, `publish` that of backend/app/ws/manager.py.
--   * Models.antt and its children: the rows of backend/app/db/models.py.
--   * Errors.antt, Config.antt, Security.antt: backend/app/core/errors.py,
--     backend/app/core/config.py and backend/app/core/security.py.
--   * Ratelimit.antt: backend/app/core/ratelimit.py, the Lua script included, with `check` and
--     `enforce`.
--   * Authz.antt: backend/app/services/authz.py, `resolve_access` and the decisions that rest on
--     it.
--   * Otp.antt: backend/app/services/otp.py, `issue_challenge` and `verify_challenge`, with
--     backend/app/services/sms.py.
--   * Sessions.antt: backend/app/services/sessions.py, `create_session`, `rotate_session` and
--     the revocations.
--   * Messages.antt and its children Send, Change, Read and Search:
--     backend/app/services/messages.py, with the function `next_conversation_seq` and the unique
--     constraints of backend/migrations/0001_init.sql.
--   * Conversations.antt and its children Create and Groups:
--     backend/app/services/conversations.py, with the indexes and checks of the tables that it
--     rests on.
--   * Deps.antt: backend/app/api/deps.py, `current_principal` and `require_csrf`.
--   * Login.antt and its child Leaving: backend/app/api/v1/auth.py, the sign-in and the renewal of
--     a session, and the sign-outs and the devices.
--   * Moderation.antt and its child Staff: backend/app/api/v1/moderation.py, reports and blocks,
--     and the review of reports and suspensions.
--   * Storage.antt and its child Uploads: backend/app/services/storage.py and
--     backend/app/api/v1/uploads.py, from the grant of an upload to its validation and download.
--   * Routes.antt: backend/app/api/v1/conversations.py, the routes that pass on to the services.
--   * Keys.antt: the names of backend/app/core/redis.py.
--   * Manager.antt: backend/app/ws/manager.py, the connections of one replica and the relay of
--     what Redis delivers; Registers.antt: the dicts of sets that it keeps.
--   * Ws.antt and its child Events: backend/app/ws/router.py, the tickets and the handshake, and
--     the loop that serves a connection. Its child Steps has the runs of a replica as a step
--     relation: handshakes, rounds of the loops, heartbeats, deliveries and requests, in any order.
--   * Worker.antt: backend/app/worker.py, with `purge_expired_otp` of
--     backend/migrations/0002_roles.sql.
--   * Texts.antt: what the source uses of Python's strings.
--   * Base.antt and its children: Boolean tests, lists, and tables as lists of rows with the
--     laws of selecting, updating and deleting.
--   * Samples.antt and the modules Tests: concrete data and runs.
-- The services call each other as in the source: sending and editing ask the rate limiter and use
-- the decisions of authorization; one-time codes ask the rate limiter; sessions and messages
-- publish, and the relay of every replica takes up what is published. The routes ask
-- who the caller is (Deps) and call the services: a sign-in checks a code and makes a session, a
-- suspension and the removal of a device revoke sessions, an upload asks authorization.
--
-- Conventions. A uuid, a digest and a moment in microseconds are natural numbers, a text is a
-- list of code points. The first row that fits stands for a query of one row; a new row is
-- appended. Ids and random tokens are drawn anew by each call and are arguments. Hash functions,
-- signed tokens and URLs, the reading and printing of uuids and phone numbers, Unicode's lower case and
-- class of word characters, text search and the delivery of an SMS are parameters. The
-- clock stands still within one request. What other transactions commit while a send waits for
-- the row lock is its argument `others`. Loops run over lists; `check` runs as many rounds as its
-- cost, so no fuel is needed.
--
-- The sets of backend/app/ws/manager.py are to hold connections, which Python does not let them: a
-- dataclass with generated equality has no hash. So a registration raises `TypeError`, and the loop and
-- the other methods, which are written out all the same, are reached by no connection. A method of the
-- manager runs undisturbed by others; interleavings are those of whole rounds. `loads` stands for
-- `json.loads`. A rollback expires the objects that the session holds, and reading an attribute of one
-- then raises under asyncio, as SQLAlchemy documents it.
--
-- Not modelled: `client_ip`, which reads the transport; the field constraints of the schemas, which
-- are pydantic's; the pools, the start of the application and logging, which are input and output;
-- what a socket does after it is closed, but for the round that then ends its loop; the web client.
pub mod Base
pub mod Texts
pub mod Models
pub mod Errors
pub mod Config
pub mod Security
pub mod Worker
pub mod World
pub mod Ws
pub mod Keys
pub mod Registers
pub mod Manager
pub mod Authz
pub mod Ratelimit
pub mod Otp
pub mod Sessions
pub mod Messages
pub mod Conversations
pub mod Deps
pub mod Login
pub mod Moderation
pub mod Storage
pub mod Routes
pub mod Samples
