-- ===== src/Moderation/Staff.antt =====
-- backend/app/api/v1/moderation.py: what staff do, the queue of reports and suspensions.
use runnerup_chat.Base.{
  ℕ, Option, none, some, List, map, take, leb, ltb, ◌==◌, select_one, select_all, update_rows,
}
use runnerup_chat.Errors.{
  validation_failed, permission_denied, not_visible, invalid_user, invalid_report,
  cannot_action_peer_or_superior,
}
use runnerup_chat.Config.{Settings}
use runnerup_chat.Security.{Platform}
use runnerup_chat.Models.Accounts.{Uuid, Text, Time, User, SystemRole, AccountState, RevokeReason}
use runnerup_chat.Models.Safety.{Report, ReportReason, ReportState, SubjectType, AuditAction}
use runnerup_chat.World.{
  Exec, gets, or_raise, raise_if, execute, commit, record_audit, pure, ◌>>=◌, ◌>>◌,
}
use runnerup_chat.Authz.{Permission, require_system_permission}
use runnerup_chat.Sessions.{revoke_all_for_user}
use runnerup_chat.Messages.Read.{sort_by}
use runnerup_chat.Deps.{Principal}

-- A report as the queue shows it.
pub record ReportSummary : Type 0 where
  pub id : Uuid
  pub subject_type : SubjectType
  pub reason : ReportReason
  pub detail : Option Text
  pub state : ReportState
  pub created_at : Time

abbrev pub summary : Report → ReportSummary
summary r = record {
  id = r.id;
  subject_type = r.subject_type;
  reason = r.reason;
  detail = r.detail;
  state = r.state;
  created_at = r.created_at;
}

abbrev pub state_code : ReportState → ℕ
state_code ReportState.open_report = 0
state_code ReportState.triaged = 1
state_code ReportState.actioned = 2
state_code ReportState.dismissed = 3

unfoldable pub review_queue : Principal → ReportState → (limit : ℕ) → Exec (List ReportSummary)
review_queue p state limit = do
  require_system_permission p.user Permission.view_reports
  rows ← gets (λ w.
      sort_by (λ (a b : Report). ltb a.created_at b.created_at)
        (select_all (λ (r : Report). state_code r.state == state_code state) w.db.reports))
  pure (map summary (take limit rows))

abbrev pub resolve : ReportState → Uuid → Option Text → Time → Report → Report
resolve state staff resolution now r = record r {
  state = state;
  handled_by = some staff;
  resolution = resolution;
  handled_at = some now;
}

unfoldable pub resolve_report :
    Platform
    → Principal
    → (report_id : Text) → ReportState
    → (resolution : Option Text) → Exec (Unit {0})
resolve_report os p report_id state resolution = do
  require_system_permission p.user Permission.moderate_content
  target ← or_raise (os.parse_uuid report_id) (validation_failed invalid_report)
  report ←
      or_raise (← gets (λ w. select_one (λ (r : Report). r.id == target) w.db.reports)) not_visible
  now ← gets (λ w. w.now)
  execute (λ d. record d {
    reports =
        update_rows (λ (r : Report). r.id == report.id) (resolve state p.user.id resolution now)
          d.reports;
  })
  record_audit (record {
    action = AuditAction.report_resolved;
    actor_id = some p.user.id;
    actor_role = some p.user.system_role;
    target_id = some target;
  })
  commit

unfoldable pub system_rank : SystemRole → ℕ
system_rank SystemRole.user = 0
system_rank SystemRole.moderator = 1
system_rank SystemRole.admin = 2
system_rank SystemRole.super_admin = 3

abbrev pub suspend : User → User
suspend u = record u { account_state = AccountState.suspended }

unfoldable pub suspend_user : Settings → Platform → Principal → (user_id : Text) → Exec (Unit {0})
suspend_user cfg os p user_id = do
  require_system_permission p.user Permission.manage_users
  target_id ← or_raise (os.parse_uuid user_id) (validation_failed invalid_user)
  target ←
      or_raise (← gets (λ w. select_one (λ (u : User). u.id == target_id) w.db.users)) not_visible
  raise_if (leb (system_rank p.user.system_role) (system_rank target.system_role))
      (permission_denied cannot_action_peer_or_superior)
  execute (λ d. record d { users = update_rows (λ (u : User). u.id == target_id) suspend d.users })
  record_audit (record {
    action = AuditAction.user_suspended;
    actor_id = some p.user.id;
    actor_role = some p.user.system_role;
    target_id = some target_id;
  })
  commit
  revoke_all_for_user cfg target_id RevokeReason.account_suspended none
  pure tt
