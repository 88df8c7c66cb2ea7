-- ===== src/Ratelimit.antt =====
-- backend/app/core/ratelimit.py: the Lua script over one sorted set, and `check` and `enforce`.
-- Scores and window are in milliseconds.
pub mod Window
pub mod Enforce
mod Tests
use runnerup_chat.Base.{
  ℕ, zero, suc, ◌+◌, ◌-◌, ◌*◌, ◌/◌, ◌≤◌, ◌<◌, max, min, ◌≡◌, Bool, true, false, ◌&&◌, not, Option,
  none, some, List, [], ◌∷◌, ltb, leb, ◌==◌, if◌then◌else◌, length, select_one, select_all,
  update_rows, is_some, ◌++◌,
}
use runnerup_chat.Errors.{Result, ok, err, AppError, rate_limited, type_error}
use runnerup_chat.World.{
  LimitName, Identity, known, unknown, Entry, Slot, Bucket, World, Exec, pure, raise, ◌>>=◌, ◌>>◌,
}
use runnerup_chat.World.LimitName.{
  otp_request_phone, otp_request_ip, otp_verify_phone, otp_verify_ip, auth_refresh_ip,
  message_send_user, message_send_conv, message_edit_user, search_user, upload_init_user,
  conversation_create_user, invite_create_user, report_create_user, ws_event_connection,
  ws_connect_user,
}

pub record Limit : Type 0 where
  pub limit : ℕ
  pub window_seconds : ℕ

pub record Decision : Type 0 where
  pub allowed : Bool
  pub used : ℕ
  pub retry_after_seconds : ℕ

abbrev budget : ℕ → ℕ → Limit
budget n s = record { limit = n; window_seconds = s }

-- `LIMITS`
unfoldable pub limits : LimitName → Limit
limits otp_request_phone = budget 3 900
limits otp_request_ip = budget 10 900
limits otp_verify_phone = budget 10 900
limits otp_verify_ip = budget 30 900
limits auth_refresh_ip = budget 120 3600
limits message_send_user = budget 30 10
limits message_send_conv = budget 120 10
limits message_edit_user = budget 20 60
limits search_user = budget 20 60
limits upload_init_user = budget 20 300
limits conversation_create_user = budget 10 3600
limits invite_create_user = budget 20 3600
limits report_create_user = budget 10 3600
limits ws_event_connection = budget 60 10
limits ws_connect_user = budget 20 60

-- What the script returns: {allowed, used, retry}.
pub record Reply : Type 0 where
  pub allowed : Bool
  pub used : ℕ
  pub retry : ℕ

-- ZREMRANGEBYSCORE bucket -inf (now - window)
unfoldable pub prune : ℕ → ℕ → List Entry → List Entry
prune now window = select_all (λ e. ltb now (e.score + window))

abbrev pub same_member : Entry → Entry → Bool
same_member a b = a.stamp == b.stamp && a.index == b.index

-- ZADD: a member that is there already only gets the new score.
unfoldable pub zadd : Entry → List Entry → List Entry
zadd e [] = e ∷ []
zadd e (x ∷ xs) = if same_member e x then e ∷ xs else x ∷ zadd e xs

-- ZRANGE bucket 0 0 WITHSCORES: the least score.
unfoldable pub oldest : List Entry → Option ℕ
oldest [] = none
oldest (e ∷ es) = elim (oldest es) [ none ↦ some e.score | some s ↦ some (min e.score s) ]

-- A key whose time is over is gone.
unfoldable pub live : ℕ → Slot → List Entry
live now s = if leb s.expires_at now then [] else s.entries

-- The script, on the set of one bucket. With a limit of 0 there may be no oldest entry, and
-- `tonumber(nil)` fails; every budget is positive.
unfoldable pub sliding_window : (now window limit index : ℕ) → Slot → Result Reply × Slot
unfolding prune live
sliding_window now window limit index s =
    let kept = prune now window (live now s) in
    let used = length kept in
    if leb limit used
    then elim (oldest kept) [
      | none ↦ (err type_error, record s { entries = kept })
      | some first ↦ (
        ok (record { allowed = false; used = used; retry = window + first - now }),
        record s { entries = kept },
      )
    ]
    else (
      ok (record { allowed = true; used = used + 1; retry = 0 }),
      record {
        entries = zadd (record { stamp = now; index = index; score = now }) kept;
        expires_at = now + window;
      },
    )

unfoldable pub name_code : LimitName → ℕ
name_code otp_request_phone = 0
name_code otp_request_ip = 1
name_code otp_verify_phone = 2
name_code otp_verify_ip = 3
name_code auth_refresh_ip = 4
name_code message_send_user = 5
name_code message_send_conv = 6
name_code message_edit_user = 7
name_code search_user = 8
name_code upload_init_user = 9
name_code conversation_create_user = 10
name_code invite_create_user = 11
name_code report_create_user = 12
name_code ws_event_connection = 13
name_code ws_connect_user = 14

unfoldable pub identity_eq : Identity → Identity → Bool
identity_eq (known a) (known b) = a == b
identity_eq (known a) unknown = false
identity_eq unknown (known b) = false
identity_eq unknown unknown = true

unfoldable pub is_bucket : LimitName → Identity → Bucket → Bool
unfolding name_code identity_eq
is_bucket n i b = name_code b.name == name_code n && identity_eq b.identity i

abbrev empty_slot : Slot
empty_slot = record { entries = []; expires_at = 0 }

unfoldable pub find_slot : LimitName → Identity → List Bucket → Slot
unfolding is_bucket select_one
find_slot n i bs = elim (select_one (is_bucket n i) bs) [ none ↦ empty_slot | some b ↦ b.slot ]

unfoldable pub put_slot : LimitName → Identity → Slot → List Bucket → List Bucket
unfolding is_bucket
put_slot n i s [] = record { name = n; identity = i; slot = s } ∷ []
put_slot n i s (b ∷ bs) =
    if is_bucket n i b then record b { slot = s } ∷ bs else b ∷ put_slot n i s bs

-- `redis.eval(_SLIDING_WINDOW, 1, bucket, now_ms, ...)`
unfoldable pub eval_window : LimitName → Identity → ℕ → Exec Reply
eval_window n i index w =
    let (r, s) =
      sliding_window (w.now / 1000) ((limits n).window_seconds * 1000) (limits n).limit index
        (find_slot n i w.buckets) in
    (r, record w { buckets = put_slot n i s w.buckets })

abbrev denied : Reply → Decision
denied r = record { allowed = false; used = r.used; retry_after_seconds = max 1 (r.retry / 1000) }

-- The loop of `check`, after `i` rounds. `used` has no value before the first round.
unfoldable pub check_rounds : ℕ → ℕ → Option ℕ → LimitName → Identity → Exec Decision
check_rounds zero i none n who = raise type_error
check_rounds zero i (some used) n who =
    pure (record { allowed = true; used = used; retry_after_seconds = 0 })
check_rounds (suc rounds) i used n who = do
  r ← eval_window n who i
  let rest = check_rounds rounds (i + 1) (some r.used) n who
  if r.allowed then rest else pure (denied r)

unfoldable pub check : LimitName → Identity → ℕ → Exec Decision
check n who cost = check_rounds cost 0 none n who

unfoldable pub enforce : LimitName → Identity → Exec (Unit {0})
enforce n who = do
  decision ← check n who 1
  if decision.allowed then pure tt else raise (rate_limited decision.retry_after_seconds)
