-- ===== src/Models/Safety.antt =====
-- backend/app/db/models.py: blocks, reports, and the two logs of services/audit.py. Of a log row
-- the request id, the address and the free-form metadata are left out.
use runnerup_chat.Base.{Option}
use runnerup_chat.Models.Accounts.{Uuid, Time, Text, SystemRole}

pub record BlockedUser : Type 0 where
  pub blocker_id : Uuid
  pub blocked_id : Uuid

pub data ReportReason : Type 0 where
  spam harassment scam abuse illegal_content impersonation other : ReportReason

pub data ReportState : Type 0 where
  open_report triaged actioned dismissed : ReportState

pub data SubjectType : Type 0 where
  user message conversation : SubjectType

pub record Report : Type 0 where
  pub id : Uuid
  pub reporter_id : Uuid
  pub subject_type : SubjectType
  pub subject_user_id : Option Uuid
  pub subject_message_id : Option Uuid
  pub subject_conversation_id : Option Uuid
  pub reason : ReportReason
  pub detail : Option Text
  pub state : ReportState
  pub handled_by : Option Uuid
  pub resolution : Option Text
  pub created_at : Time
  pub handled_at : Option Time

pub data AuditAction : Type 0 where
  conversation_created member_added role_changed invite_created invite_redeemed : AuditAction
  session_created session_logout session_logout_all user_registered device_revoked : AuditAction
  report_created report_resolved user_suspended : AuditAction

pub record AuditLog : Type 0 where
  pub action : AuditAction
  pub actor_id : Option Uuid
  pub actor_role : Option SystemRole
  pub target_id : Option Uuid

pub data SecurityKind : Type 0 where
  otp_replay_attempt otp_attempts_exhausted otp_invalid : SecurityKind
  refresh_reuse_detected login_blocked_account_state : SecurityKind

pub data Severity : Type 0 where
  info warning critical : Severity

pub record SecurityEvent : Type 0 where
  pub event : SecurityKind
  pub severity : Severity
  pub user_id : Option Uuid
  pub session_id : Option Uuid
  pub device_id : Option Uuid
