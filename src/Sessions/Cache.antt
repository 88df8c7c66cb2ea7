-- ===== src/Sessions/Cache.antt =====
-- The keys `revoked:...` of services/sessions.py: they outlive every access token of the session.
use runnerup_chat.Base.{
  ◌+◌, ◌/◌, ◌≤◌, ◌<◌, ◌≡◌, refl, inl, inr, Bool, true, false, ◌&&◌, List, [], ◌∷◌, arith, ltb, ◌==◌,
  Bool-cases, is_some, select_one, delete_rows, All, ==_refl,
}
use runnerup_chat.Errors.{ok}
use runnerup_chat.Config.{Settings, seconds}
use runnerup_chat.Models.Accounts.{Uuid, Time, SystemRole}
use runnerup_chat.Security.{Platform, access_claims}
use runnerup_chat.World.{World, RevokedKey}
use runnerup_chat.Sessions.{mark_revoked_in_cache, mark_all, is_session_revoked}

-- A key of the session is there and lasts beyond `t`.
abbrev pub covers : Uuid → Time → List RevokedKey → Bool
covers sid t keys =
    is_some (select_one (λ (k : RevokedKey). k.session_id == sid && ltb t k.expires_at) keys)

covers-delete :
    (sid other : Uuid) (t : Time) (keys : List RevokedKey)
    → (other == sid) ≡ false
    → covers sid t (delete_rows (λ (k : RevokedKey). k.session_id == other) keys)
      ≡ covers sid t keys
unfolding select_one delete_rows
covers-delete sid other t [] ne = refl
covers-delete sid other t (k ∷ keys) ne = ground (arith, covers-delete sid other t keys ne)

-- A session, and when it is marked.
pub record Marking : Type 0 where
  pub moment : Time
  pub session_id : Uuid

-- The state after sessions were marked, each at its time.
unfoldable pub mark_later : Settings → List Marking → World → World
unfolding mark_revoked_in_cache
mark_later cfg [] w = w
mark_later cfg (m ∷ ms) w =
    mark_later cfg ms (mark_revoked_in_cache cfg m.session_id (record w { now = m.moment })).1

module _ (cfg : Settings) where
  mark-covers :
      (sid : Uuid) (t : Time) (w : World)
      → t < w.now + seconds (cfg.access_token_ttl_seconds + 60)
      → covers sid t (mark_revoked_in_cache cfg sid w).1.revoked ≡ true
  unfolding mark_revoked_in_cache select_one
  mark-covers sid t w h = ground (arith, ==_refl sid)

  mark-keeps :
      (sid other : Uuid) (t : Time) (w : World)
      → t < w.now + seconds (cfg.access_token_ttl_seconds + 60)
      → covers sid t w.revoked ≡ true
      → covers sid t (mark_revoked_in_cache cfg other w).1.revoked ≡ true
  unfolding mark_revoked_in_cache select_one
  mark-keeps sid other t w h c = elim (Bool-cases (other == sid)) [
    | inl same ↦ ground arith
    | inr ne ↦ ground (arith, covers-delete sid other t w.revoked ne)
  ]

  -- Marking touches the keys alone.
  pub mark_all-frame :
      (sids : List Uuid) (w : World)
      → mark_all cfg sids w ≡ (ok tt, record w { revoked = (mark_all cfg sids w).1.revoked })
  unfolding mark_all mark_revoked_in_cache
  mark_all-frame [] w = refl
  mark_all-frame (sid ∷ sids) w = mark_all-frame sids (mark_revoked_in_cache cfg sid w).1

  mark_all-keeps :
      (sid : Uuid) (t : Time) (sids : List Uuid) (w : World)
      → t < w.now + seconds (cfg.access_token_ttl_seconds + 60)
      → covers sid t w.revoked ≡ true
      → covers sid t (mark_all cfg sids w).1.revoked ≡ true
  unfolding mark_all mark_revoked_in_cache
  mark_all-keeps sid t [] w h c = c
  mark_all-keeps sid t (other ∷ sids) w h c =
      mark_all-keeps sid t sids (mark_revoked_in_cache cfg other w).1 h
        (mark-keeps sid other t w h c)

  -- Every session of the list is covered.
  pub mark_all-covers :
      (t : Time) (sids : List Uuid) (w : World)
      → t < w.now + seconds (cfg.access_token_ttl_seconds + 60)
      → All (λ sid. covers sid t (mark_all cfg sids w).1.revoked ≡ true) sids
  unfolding mark_all mark_revoked_in_cache
  mark_all-covers t [] w h = tt
  mark_all-covers t (sid ∷ sids) w h = (
    mark_all-keeps sid t sids (mark_revoked_in_cache cfg sid w).1 h (mark-covers sid t w h),
    mark_all-covers t sids (mark_revoked_in_cache cfg sid w).1 h,
  )

  -- Markings that come later take nothing away.
  pub mark_later-keeps :
      (sid : Uuid) (t from : Time) (ms : List Marking) (w : World)
      → t < from + seconds (cfg.access_token_ttl_seconds + 60)
      → All (λ m. from ≤ m.moment) ms
      → covers sid t w.revoked ≡ true
      → covers sid t (mark_later cfg ms w).revoked ≡ true
  unfolding mark_later
  mark_later-keeps sid t from [] w h late c = c
  mark_later-keeps sid t from (m ∷ ms) w h late c =
      let v : World = record w { now = m.moment } in
      let first : from ≤ m.moment = late.0 in
      mark_later-keeps sid t from ms (mark_revoked_in_cache cfg m.session_id v).1 h late.1
        (mark-keeps sid m.session_id t v (omega arith) c)

  -- Let a session be marked, and after it any sessions, at any later times each: with the keys that are there
  -- then, the check that every request makes refuses every access token of the first session that was minted by
  -- the time of its marking, for as long as the token has not expired by itself.
  pub revoked_outlives_token :
      (os : Platform) (sid uid did : Uuid) (role : SystemRole) (minted : Time) (w : World)
      (others : List Marking) (later : World)
      → minted ≤ w.now
      → All (λ m. w.now ≤ m.moment) others
      → later.revoked ≡ (mark_later cfg others (mark_revoked_in_cache cfg sid w).1).revoked
      → later.now / 1_000_000 ≤ (access_claims os cfg minted uid sid did role).exp
      → is_session_revoked sid later ≡ true
  unfolding access_claims is_session_revoked
  revoked_outlives_token os sid uid did role minted w others later before late same valid =
      let soon : later.now < w.now + seconds (cfg.access_token_ttl_seconds + 60) = omega arith in
      rw same (
        mark_later-keeps sid later.now w.now others (mark_revoked_in_cache cfg sid w).1 soon late
          (mark-covers sid later.now w soon))
