-- ===== src/Moderation/Tests.antt =====
-- Runs of backend/app/api/v1/moderation.py.
use runnerup_chat.Base.{
  ◌≡◌, ◌≢◌, ◌⊎◌, ◌++◌, refl, false, some, none, [], ◌∷◌, select_one, select_all, update_rows,
}
use runnerup_chat.Errors.{AppError, ok, err}
use runnerup_chat.Models.Accounts.{Text, SystemRole, RevokeReason}
use runnerup_chat.World.{World, commit, publish, record_audit}
use runnerup_chat.Authz.{find_conversation, direct_counterpart, require_system_permission}
use runnerup_chat.Authz.Sending.{CanSend}
use runnerup_chat.Sessions.{
  rotate_session, revoke, revoke_all_for_user, mark_all, mark_revoked_in_cache, announce_user,
  announce_revocation,
}
use runnerup_chat.Deps.{bearer, current_principal}
use runnerup_chat.Security.{mint_access_token}
use runnerup_chat.Moderation.{block_user, add_block, unblock_user}
use runnerup_chat.Moderation.Staff.{suspend_user, system_rank}
use runnerup_chat.Moderation.Blocks.{from_blocked, block_silences}
use runnerup_chat.Moderation.Refines.{
  Implements, with_pair, without_pair, blocks_implement_relation,
}
use runnerup_chat.Moderation.Suspension.{recognised, is_exchanged, suspension_locks_out}
use runnerup_chat.Samples.{
  sample_platform, sample_settings, by_alice, by_carol, bob, chat, busy, hello, refresh, session,
  noon,
}

-- The state after Carol has suspended Alice.
abbrev suspended : World
suspended = (suspend_user sample_settings sample_platform by_carol (1 ∷ []) busy).1

-- What Alice's requests carry.
abbrev header : Text
header = bearer ++ mint_access_token sample_platform sample_settings noon 1 50 40 SystemRole.user

suspension_locks_out_example :
    (recognised
        (current_principal sample_platform (some header) (record suspended { now = noon })).0
      ≢ some 1)
    × (is_exchanged
          (rotate_session sample_platform sample_settings refresh none 53 hello
            (record suspended { now = noon })).0
        ≡ false)
unfolding suspend_user system_rank commit record_audit require_system_permission revoke_all_for_user
    mark_all mark_revoked_in_cache announce_user announce_revocation select_one update_rows
    select_all publish
suspension_locks_out_example =
    suspension_locks_out sample_settings sample_platform 1 by_carol (1 ∷ []) busy noon (some header)
      refresh none 53 hello (revoke noon RevokeReason.account_suspended session) refl refl refl refl

-- The state after Alice has blocked Bob.
abbrev blocked : World
blocked = (block_user sample_platform by_alice (2 ∷ []) busy).1

block_silences_example : ¬ CanSend bob 11 blocked
unfolding block_user add_block commit select_one find_conversation direct_counterpart
block_silences_example =
    block_silences sample_platform by_alice (2 ∷ []) 2 busy bob 1 11 chat refl refl from_blocked
      refl refl refl

blocks_implement_relation_example :
    ((((block_user sample_platform by_alice (2 ∷ []) busy).0 ≡ ok tt)
        × Implements (with_pair 1 2) busy (block_user sample_platform by_alice (2 ∷ []) busy).1)
      ⊎ ((e : AppError) × (block_user sample_platform by_alice (2 ∷ []) busy ≡ (err e, busy))))
    × ((unblock_user sample_platform by_alice (2 ∷ []) busy).0 ≡ ok tt)
    × Implements (without_pair 1 2) busy (unblock_user sample_platform by_alice (2 ∷ []) busy).1
blocks_implement_relation_example =
    blocks_implement_relation sample_platform by_alice (2 ∷ []) 2 busy refl
