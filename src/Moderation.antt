-- ===== src/Moderation.antt =====
-- backend/app/api/v1/moderation.py: reports and blocks. A payload is one that its schema has let
-- through, so a reason outside the list is `none`; ids of new rows are arguments.
pub mod Staff
pub mod Blocks
pub mod Refines
pub mod Suspension
mod Tests
use runnerup_chat.Base.{
  Bool, true, false, ◌&&◌, Option, none, some, List, [], ◌∷◌, ◌++◌, map, ◌==◌, is_none, select_one,
  select_all, delete_rows, if◌then◌else◌,
}
use runnerup_chat.Errors.{
  validation_failed, not_visible, integrity_error, invalid_reason, invalid_subject, invalid_user,
  cannot_block_self,
}
use runnerup_chat.Security.{Platform}
use runnerup_chat.Models.Accounts.{Uuid, Text, User}
use runnerup_chat.Models.Safety.{
  BlockedUser, Report, ReportReason, ReportState, SubjectType, AuditAction,
}
use runnerup_chat.World.{
  ◌>>=◌, ◌>>◌, Exec, LimitName, Identity, gets, or_raise, raise_if, execute, commit, rollback,
  record_audit, pure,
}
use runnerup_chat.Authz.{resolve_access, resolve_message_access}
use runnerup_chat.Ratelimit.{enforce}
use runnerup_chat.Deps.{Principal}

-- What is known of the subject of a report: of a user, of a message, of a conversation.
pub record Subject : Type 0 where
  pub user_id : Option Uuid
  pub message_id : Option Uuid
  pub conversation_id : Option Uuid

unfoldable pub find_subject : User → SubjectType → Uuid → Exec Subject
find_subject u SubjectType.message subject = do
  found ← resolve_message_access u subject
  pure (record {
    user_id = none;
    message_id = some found.0.id;
    conversation_id = some found.0.conversation_id;
  })
find_subject u SubjectType.conversation subject = do
  access ← resolve_access u subject
  pure (record { user_id = none; message_id = none; conversation_id = some access.conversation.id })
find_subject u SubjectType.user subject = do
  target ←
      or_raise (← gets (λ w. select_one (λ (r : User). r.id == subject) w.db.users)) not_visible
  raise_if (target.id == u.id) not_visible
  pure (record { user_id = some target.id; message_id = none; conversation_id = none })

abbrev is_open : ReportState → Bool
is_open ReportState.open_report = true
is_open ReportState.triaged = false
is_open ReportState.actioned = false
is_open ReportState.dismissed = false

abbrev same_type : SubjectType → SubjectType → Bool
same_type SubjectType.user SubjectType.user = true
same_type SubjectType.message SubjectType.message = true
same_type SubjectType.conversation SubjectType.conversation = true
same_type s t = false

-- `coalesce(subject_user_id, subject_message_id, subject_conversation_id)`
abbrev coalesce : Report → Option Uuid
coalesce r = elim r.subject_user_id [
  | some u ↦ some u
  | none ↦ elim r.subject_message_id [ some m ↦ some m | none ↦ r.subject_conversation_id ]
]

abbrev same_id : Option Uuid → Option Uuid → Bool
same_id none j = false
same_id (some i) none = false
same_id (some i) (some j) = i == j

-- The index `one_open_report_per_user_subject`.
unfoldable pub is_repeat : Report → Report → Bool
is_repeat new r =
    is_open r.state
    && r.reporter_id == new.reporter_id
    && same_type r.subject_type new.subject_type
    && same_id (coalesce r) (coalesce new)

-- The insertion, and what follows it.
unfoldable pub file_report : Uuid → Uuid → Report → Exec (Unit {0})
file_report actor subject new = do
  repeat ← gets (λ w. select_one (is_repeat new) w.db.reports)
  elim repeat [
    | some r ↦ rollback
    | none ↦ (do
      execute (λ d. record d { reports = d.reports ++ new ∷ [] })
      record_audit (record {
        action = AuditAction.report_created;
        actor_id = some actor;
        actor_role = none;
        target_id = some subject;
      })
      commit)
  ]

unfoldable pub create_report :
    Platform
    → Principal
    → SubjectType
    → (subject_id : Text) → Option ReportReason
    → (detail : Option Text) → (report_id : Uuid) → Exec (Unit {0})
create_report os p subject_type subject_id reason detail report_id = do
  why ← or_raise reason (validation_failed invalid_reason)
  enforce LimitName.report_create_user (Identity.known p.user.id)
  subject ← or_raise (os.parse_uuid subject_id) (validation_failed invalid_subject)
  found ← find_subject p.user subject_type subject
  now ← gets (λ w. w.now)
  let new : Report = record {
    id = report_id;
    reporter_id = p.user.id;
    subject_type = subject_type;
    subject_user_id = found.user_id;
    subject_message_id = found.message_id;
    subject_conversation_id = found.conversation_id;
    reason = why;
    detail = detail;
    state = ReportState.open_report;
    handled_by = none;
    resolution = none;
    created_at = now;
    handled_at = none;
  }
  file_report p.user.id subject new

abbrev pub is_block : Uuid → Uuid → BlockedUser → Bool
is_block a b r = r.blocker_id == a && r.blocked_id == b

-- The row's foreign key wants the blocked user to exist.
unfoldable pub add_block : Uuid → Uuid → Exec (Unit {0})
add_block a b = do
  known ← gets (λ w. select_one (λ (u : User). u.id == b) w.db.users)
  raise_if (is_none known) integrity_error
  execute (λ d. record d { blocks = d.blocks ++ record { blocker_id = a; blocked_id = b } ∷ [] })
  commit

unfoldable pub block_user : Platform → Principal → (user_id : Text) → Exec (Unit {0})
block_user os p user_id = do
  target ← or_raise (os.parse_uuid user_id) (validation_failed invalid_user)
  raise_if (target == p.user.id) (validation_failed cannot_block_self)
  existing ← gets (λ w. select_one (is_block p.user.id target) w.db.blocks)
  elim existing [ some r ↦ pure tt | none ↦ add_block p.user.id target ]

unfoldable pub unblock_user : Platform → Principal → (user_id : Text) → Exec (Unit {0})
unblock_user os p user_id = do
  target ← or_raise (os.parse_uuid user_id) (validation_failed invalid_user)
  existing ← gets (λ w. select_one (is_block p.user.id target) w.db.blocks)
  elim existing [
    | none ↦ pure tt
    | some r ↦ (do
      execute (λ d. record d { blocks = delete_rows (is_block p.user.id target) d.blocks })
      commit)
  ]

unfoldable pub list_blocks : Principal → Exec (List Uuid)
list_blocks p = gets (λ w.
    map (λ r. r.blocked_id)
      (select_all (λ (r : BlockedUser). r.blocker_id == p.user.id) w.db.blocks))
