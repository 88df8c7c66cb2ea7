-- ===== src/Deps.antt =====
-- backend/app/api/deps.py: who a request is from, and whether a cookie may speak for it.
pub mod Tokens
mod Tests
use runnerup_chat.Base.{
  Bool, true, false, not, ◌||◌, Option, none, some, List, [], ◌∷◌, ◌==◌, is_some, select_one, map,
  if◌then◌else◌,
}
use runnerup_chat.Errors.{
  not_authenticated, permission_denied, account_unavailable, plain, bad_origin, csrf_failed,
}
use runnerup_chat.Texts.{ascii_lower, is_space, strip_of, drop, starts_with, same_text}
use runnerup_chat.Config.{Settings, origins}
use runnerup_chat.Security.{Platform, decode_access_token}
use runnerup_chat.Models.Accounts.{Uuid, Text, User, AccountState}
use runnerup_chat.World.{◌>>=◌, ◌>>◌, Exec, gets, or_raise, raise_if, pure}
use runnerup_chat.Sessions.{is_session_revoked}

pub record Principal : Type 0 where
  pub user : User
  pub session_id : Uuid
  pub device_id : Uuid

abbrev pub bearer : Text
bearer = b'b' ∷ b'e' ∷ b'a' ∷ b'r' ∷ b'e' ∷ b'r' ∷ b' ' ∷ []

-- The token of the header `authorization`: what follows "bearer ", in letters of either case.
unfoldable pub bearer_token : Option Text → Option Text
bearer_token none = none
bearer_token (some h) =
    if starts_with bearer (map ascii_lower h) then some (strip_of is_space (drop 7 h)) else none

-- `user.account_state in {"SUSPENDED", "DELETED"}`
abbrev pub is_barred : AccountState → Bool
is_barred AccountState.suspended = true
is_barred AccountState.deleted = true
is_barred AccountState.active = false
is_barred AccountState.restricted = false

unfoldable pub current_principal : Platform → (authorization : Option Text) → Exec Principal
current_principal os authorization = do
  token ← or_raise (bearer_token authorization) (not_authenticated plain)
  now ← gets (λ w. w.now)
  claims ← or_raise (decode_access_token os now token) (not_authenticated plain)
  gone ← gets (is_session_revoked claims.sid)
  raise_if gone (not_authenticated plain)
  u ←
      or_raise (← gets (λ w. select_one (λ (u : User). u.id == claims.sub) w.db.users))
        (not_authenticated plain)
  raise_if (is_some u.deleted_at) (not_authenticated plain)
  raise_if (is_barred u.account_state) account_unavailable
  pure (record { user = u; session_id = claims.sid; device_id = claims.did })

-- The headers and cookies that `require_csrf` reads.
pub record Request : Type 0 where
  pub origin : Option Text
  pub referer : Option Text
  pub csrf_header : Option Text
  pub csrf_cookie : Option Text

-- `a or b`, of texts that may be absent.
abbrev pub or_text : Option Text → Text → Text
or_text none t = t
or_text (some []) t = t
or_text (some (c ∷ cs)) t = c ∷ cs

unfoldable pub is_from : Text → List Text → Bool
is_from origin [] = false
is_from origin (o ∷ os) = starts_with o origin || is_from origin os

-- Both tokens are there, and they are the same.
abbrev pub is_matched : Option Text → Option Text → Bool
is_matched none t = false
is_matched (some []) t = false
is_matched (some (c ∷ cs)) none = false
is_matched (some (c ∷ cs)) (some t) = same_text (c ∷ cs) t

unfoldable pub require_csrf : Settings → Request → Exec (Unit {0})
require_csrf cfg r = do
  raise_if (not (is_from (or_text r.origin (or_text r.referer [])) (origins cfg)))
      (permission_denied bad_origin)
  raise_if (not (is_matched r.csrf_header r.csrf_cookie)) (permission_denied csrf_failed)
