-- ===== src/Sessions/Tests.antt =====
-- Concrete runs of services/sessions.py.
use runnerup_chat.Base.{◌⊎◌, ◌&&◌, false}
use runnerup_chat.Errors.{ok}
use runnerup_chat.Models.Accounts.{RevokeReason}
use runnerup_chat.Sessions.{revoke_session}
use runnerup_chat.Sessions.Revocation.{revoke_session_outcome}
use runnerup_chat.Base.{
  ◌+◌, ◌≤◌, ◌≡◌, refl, true, none, some, [], ◌∷◌, arith, ◌==◌, count_rows, select_one, List,
  delete_rows,
}
use runnerup_chat.Errors.{err, refresh_rejected, RefreshReason}
use runnerup_chat.Models.Accounts.{UserSession, SystemRole}
use runnerup_chat.Security.{mint_access_token, access_claims}
use runnerup_chat.World.{World, commit}
use runnerup_chat.Sessions.{
  is_unrevoked_in, rotate_session, mark_revoked_in_cache, is_session_revoked, IssuedTokens,
  exchange, successor,
}
use runnerup_chat.Sessions.Cache.{Marking, mark_later, revoked_outlives_token}
use runnerup_chat.Sessions.Family.{is_current}
use runnerup_chat.Sessions.Rotation.{reuse_burns_family}
use runnerup_chat.Sessions.Revocation.{rotation_keeps_one_current}
use runnerup_chat.Samples.{sample_platform, sample_settings, refresh, start, noon}

-- The state after Alice's token was exchanged.
abbrev rotated : World
rotated = (rotate_session sample_platform sample_settings refresh none 51 (b's' ∷ []) start).1

abbrev tokens : IssuedTokens
tokens = record {
  access_token = mint_access_token sample_platform sample_settings noon 1 51 40 SystemRole.user;
  refresh_token = b's' ∷ [];
  session_id = 51;
  device_id = 40;
  expires_in = 900;
  user_id = 1;
  display_name = [];
}

reuse_burns_family_example :
    (s : UserSession) × (select_one
        (λ (r : UserSession). r.refresh_hash == sample_platform.sha256 refresh)
        start.db.sessions
      ≡ some s)
    × ((rotate_session sample_platform sample_settings refresh none 52
          (b't' ∷ [])
          (record rotated { now = noon + 9 })).0
        ≡ err (refresh_rejected RefreshReason.reuse_detected))
    × (count_rows
          (is_unrevoked_in s.family_id)
          (rotate_session sample_platform sample_settings refresh none 52
            (b't' ∷ [])
            (record rotated { now = noon + 9 })).1.saved.sessions
        ≡ 0)
unfolding rotate_session exchange successor commit mark_revoked_in_cache select_one
reuse_burns_family_example =
    reuse_burns_family sample_platform sample_settings refresh none none 51 52 (b's' ∷ [])
      (b't' ∷ []) start tokens (noon + 9) refl

rotation_keeps_one_current_example :
    count_rows (is_current 60) rotated.db.sessions ≤ count_rows (is_current 60) start.db.sessions
rotation_keeps_one_current_example =
    rotation_keeps_one_current sample_platform sample_settings 60 refresh none 51 (b's' ∷ []) start

-- Alice's session is marked, and then, at two later times, other ones.
abbrev others : List Marking
others =
    record { moment = noon + 2; session_id = 51 }
    ∷ record { moment = noon + 4; session_id = 52 }
    ∷ []

abbrev marked : World
marked =
    record (mark_later sample_settings others (mark_revoked_in_cache sample_settings 50 start).1) {
      now = noon + 5;
    }

revoked_outlives_token_example : is_session_revoked 50 marked ≡ true
unfolding mark_later mark_revoked_in_cache access_claims delete_rows
revoked_outlives_token_example =
    revoked_outlives_token sample_settings sample_platform 50 1 40 SystemRole.user noon start others
      marked (omega arith) (omega arith, (omega arith, tt)) refl (omega arith)

revoke_session_outcome_example :
    ((s : UserSession) × (select_one
          (λ (s : UserSession). s.id == 50 && s.user_id == 1)
          start.db.sessions
        ≡ some s)
      × ((revoke_session sample_settings 50 1 RevokeReason.user_logout start).0 ≡ ok true)
      × (count_rows
            (is_unrevoked_in s.family_id)
            (revoke_session sample_settings 50 1 RevokeReason.user_logout start).1.saved.sessions
          ≡ 0))
    ⊎ ((select_one (λ (s : UserSession). s.id == 50 && s.user_id == 1) start.db.sessions ≡ none)
        × (revoke_session sample_settings 50 1 RevokeReason.user_logout start ≡ (ok false, start)))
revoke_session_outcome_example =
    revoke_session_outcome sample_settings 50 1 RevokeReason.user_logout start
