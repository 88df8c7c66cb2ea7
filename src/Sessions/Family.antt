-- ===== src/Sessions/Family.antt =====
-- What `revoke_family` of services/sessions.py does, and the count of live sessions in a family.
use runnerup_chat.Base.{
  ◌+◌, ◌≤◌, ◌<◌, ◌≡◌, refl, Bool, true, ◌&&◌, List, [], ◌∷◌, arith, ◌==◌, is_none, select_all,
  update_rows, count_rows, count_rows-update_out, count_rows-update-le, All,
}
use runnerup_chat.Errors.{ok}
use runnerup_chat.Config.{Settings, seconds}
use runnerup_chat.Models.Accounts.{Uuid, Time, UserSession, RevokeReason}
use runnerup_chat.World.{World, publish}
use runnerup_chat.Sessions.{
  mark_all, is_unrevoked_in, revoke, revoke_family, announce_rows, announce_revocation, ids,
}
use runnerup_chat.Sessions.Cache.{mark_all-frame, mark_all-covers, covers}

-- A session of the family that a refresh would still exchange, its age apart.
abbrev pub is_current : Uuid → UserSession → Bool
is_current family s = s.family_id == family && is_none s.rotated_at && is_none s.revoked_at

abbrev pub revoked_rows : World → Uuid → RevokeReason → List UserSession
revoked_rows w family reason =
    update_rows (is_unrevoked_in family) (revoke w.now reason) w.db.sessions

-- A family is revoked: in the tables no row of it is left unrevoked, no row of another family has
-- changed, and each row that was revoked now is covered in the cache beyond any token that was minted.
pub record Revoked (cfg : Settings) (family : Uuid) (reason : RevokeReason) (w w' : World)
    : Type 0 where
  pub tables : w'.db ≡ record w.db { sessions = revoked_rows w family reason }
  pub kept : w'.saved ≡ w.saved
  pub clock : w'.now ≡ w.now
  pub cached :
      (t : Time)
      → t < w.now + seconds (cfg.access_token_ttl_seconds + 60)
      → All
          (λ sid. covers sid t w'.revoked ≡ true)
          (ids (select_all (is_unrevoked_in family) w.db.sessions))

announce-frame :
    (rows : List UserSession) (reason : RevokeReason) (w : World)
    → announce_rows rows reason w
      ≡ (ok tt, record w { published = (announce_rows rows reason w).1.published })
unfolding announce_rows announce_revocation publish
announce-frame [] reason w = refl
announce-frame (s ∷ ss) reason w = refl

module _ (cfg : Settings) (family : Uuid) (reason : RevokeReason) (w : World) where
  abbrev updated : World
  updated = record w { db = record w.db { sessions = revoked_rows w family reason } }

  abbrev marked : World
  marked = record updated {
    revoked =
        (mark_all cfg (ids (select_all (is_unrevoked_in family) w.db.sessions)) updated).1.revoked;
  }

  abbrev announced : World
  announced = record marked {
    published =
        (announce_rows (select_all (is_unrevoked_in family) w.db.sessions) reason
          marked).1.published;
  }

  -- `revoke_family` returns, and the family is revoked.
  pub revoke_family_lem :
      (w' : World) × (revoke_family cfg family reason w ≡ (ok tt, w'))
      × Revoked cfg family reason w w'
  unfolding revoke_family
  revoke_family_lem = (
    announced,
    rw (mark_all-frame cfg (ids (select_all (is_unrevoked_in family) w.db.sessions)) updated)
        (announce-frame (select_all (is_unrevoked_in family) w.db.sessions) reason marked),
    record {
      tables = refl;
      kept = refl;
      clock = refl;
      cached = λ t h.
          mark_all-covers cfg t (ids (select_all (is_unrevoked_in family) w.db.sessions)) updated h;
    },
  )

-- No session of a revoked family is left unrevoked, and so none is current.
pub none_unrevoked :
    (w : World) (family : Uuid) (reason : RevokeReason)
    → count_rows (is_unrevoked_in family) (revoked_rows w family reason) ≡ 0
none_unrevoked w family reason =
    count_rows-update_out (is_unrevoked_in family) (is_unrevoked_in family) (revoke w.now reason)
      w.db.sessions (λ s h. ground arith) (λ s h. h)

-- Revoking, in whatever rows, makes no session current.
pub current-revoke-le :
    (family : Uuid) (p : UserSession → Bool) (now : Time) (reason : RevokeReason)
    (ss : List UserSession)
    → count_rows (is_current family) (update_rows p (revoke now reason) ss)
      ≤ count_rows (is_current family) ss
current-revoke-le family p now reason ss =
    count_rows-update-le (is_current family) p (revoke now reason) ss (λ s h. ground arith)
