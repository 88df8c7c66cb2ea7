-- ===== src/Worker.antt =====
-- backend/app/worker.py: the two jobs, with the function of migrations/0002_roles.sql that one calls.
mod Twice
use runnerup_chat.Base.{◌+◌, Bool, ◌&&◌, List, [], map, ltb, is_none, select_all, delete_rows}
use runnerup_chat.Config.{seconds}
use runnerup_chat.Models.Accounts.{Text, Time, OtpChallenge}
use runnerup_chat.Models.Chat.{Attachment}
use runnerup_chat.World.{◌>>=◌, ◌>>◌, Exec, pure, gets, execute, commit}

-- `expires_at < now() - interval '1 hour'`
abbrev pub is_old_challenge : Time → OtpChallenge → Bool
is_old_challenge now c = ltb (c.expires_at + seconds 3600) now

unfoldable pub purge_expired_otp : Exec (Unit {0})
purge_expired_otp = do
  now ← gets (λ w. w.now)
  execute (λ d. record d { challenges = delete_rows (is_old_challenge now) d.challenges })
  commit

abbrev pub is_orphan : Time → Attachment → Bool
is_orphan now a = is_none a.message_id && ltb (a.created_at + seconds 86400) now

-- The keys of the rows that went, which the job logs the number of. The objects stay in storage.
unfoldable pub purge_orphan_attachments : Exec (List Text)
purge_orphan_attachments = do
  now ← gets (λ w. w.now)
  gone ← gets (λ w. select_all (is_orphan now) w.db.attachments)
  execute (λ d. record d { attachments = delete_rows (is_orphan now) d.attachments })
  commit
  pure (map (λ a. a.storage_key) gone)

-- One round of `main`.
unfoldable pub cycle : Exec (List Text)
cycle = do purge_expired_otp; purge_orphan_attachments
