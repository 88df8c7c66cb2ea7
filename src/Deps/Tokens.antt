-- ===== src/Deps/Tokens.antt =====
-- Which requests get past backend/app/api/deps.py.
use runnerup_chat.Base.{
  ℕ, ◌/◌, ◌≤◌, ◌≡◌, refl, inl, inr, true, false, Option, some, List, [], ◌∷◌, ◌++◌, ◌==◌,
  Bool-cases, Option-cases, is_some, select_one,
}
use runnerup_chat.Errors.{Result, ok, err, not_authenticated, account_unavailable, plain}
use runnerup_chat.Texts.{is_space, strip_of}
use runnerup_chat.Texts.Laws.{starts_with-append}
use runnerup_chat.Config.{Settings, origins}
use runnerup_chat.Security.{
  Platform, Claims, chat_api, access_claims, mint_access_token, decode_access_token,
}
use runnerup_chat.Models.Accounts.{Uuid, Time, Text, User, SystemRole}
use runnerup_chat.World.{World}
use runnerup_chat.Sessions.{is_session_revoked}
use runnerup_chat.Deps.{
  Principal, bearer, bearer_token, is_barred, current_principal, Request, or_text, is_from,
  is_matched, require_csrf,
}

-- What a request that gets past `current_principal` has shown.
pub record Known (os : Platform) (header : Option Text) (w : World) (p : Principal) : Type 0 where
  pub token : Text
  pub claims : Claims
  pub carried : bearer_token header ≡ some token
  pub signed : decode_access_token os w.now token ≡ some claims
  pub session : p.session_id ≡ claims.sid
  pub device : p.device_id ≡ claims.did
  pub not_revoked : is_session_revoked claims.sid w ≡ false
  pub found : select_one (λ (u : User). u.id == claims.sub) w.db.users ≡ some p.user
  pub not_deleted : is_some p.user.deleted_at ≡ false
  pub not_barred : is_barred p.user.account_state ≡ false

pub data Authenticated (os : Platform) (header : Option Text) (w : World)
    (x : Result Principal × World) : Type 0 where
  known : (p : Principal) → Known os header w p → x ≡ (ok p, w) → Authenticated os header w x
  unknown : x ≡ (err (not_authenticated plain), w) → Authenticated os header w x
  barred : x ≡ (err account_unavailable, w) → Authenticated os header w x

module _ (os : Platform) where
  -- A request is answered in one of three ways, and the state stays as it is. The principal that it
  -- gets is the user of a token that is carried as a bearer and verifies now, of a session that is not
  -- revoked; that user exists, is not deleted, and the account is not suspended.
  pub current_principal-Authenticated :
      (header : Option Text) (w : World) → Authenticated os header w (current_principal os header w)
  unfolding current_principal
  current_principal-Authenticated header w = elim (Option-cases (bearer_token header)) [
    | inl bare ↦ rw (bare, current_principal) (unknown refl)
    | inr (t, carried) ↦ elim (Option-cases (decode_access_token os w.now t)) [
      | inl forged ↦ rw (carried, forged, current_principal) (unknown refl)
      | inr (c, signed) ↦ elim (Bool-cases (is_session_revoked c.sid w)) [
        | inl gone ↦ rw (carried, signed, gone, current_principal) (unknown refl)
        | inr live ↦ elim (Option-cases (select_one (λ (u : User). u.id == c.sub) w.db.users)) [
          | inl nobody ↦ rw (carried, signed, live, nobody, current_principal) (unknown refl)
          | inr (u, found) ↦ elim (Bool-cases (is_some u.deleted_at)) [
            | inl deleted ↦
                rw (carried, signed, live, found, deleted, current_principal) (unknown refl)
            | inr kept ↦ elim (Bool-cases (is_barred u.account_state)) [
              | inl bar ↦
                  rw (carried, signed, live, found, kept, bar, current_principal) (barred refl)
              | inr free ↦
                  rw (carried, signed, live, found, kept, free, current_principal)
                    (known (record { user = u; session_id = c.sid; device_id = c.did })
                      (record {
                        token = t;
                        claims = c;
                        carried = carried;
                        signed = signed;
                        session = refl;
                        device = refl;
                        not_revoked = live;
                        found = found;
                        not_deleted = kept;
                        not_barred = free;
                      })
                      refl)
            ]
          ]
        ]
      ]
    ]
  ]

  -- A token that was minted is accepted until it expires. Where `jwt.decode` reads back what
  -- `jwt.encode` wrote for this issuer until its `exp`, and what it wrote here has no white space at
  -- its ends, a request that carries the token of a user's session as a bearer gets exactly that user,
  -- session and device, as long as the session is not revoked and the account is there, not
  -- deleted and not suspended.
  pub minted_token_accepted :
      (cfg : Settings) (minted : Time) (u : User) (sid did : Uuid) (role : SystemRole) (w : World)
      → ((n : ℕ) (c : Claims)
          → c.iss ≡ chat_api
          → n ≤ c.exp
          → os.jwt_decode n (os.jwt_encode c) ≡ some c)
      → strip_of is_space (mint_access_token os cfg minted u.id sid did role)
        ≡ mint_access_token os cfg minted u.id sid did role
      → w.now / 1_000_000 ≤ (access_claims os cfg minted u.id sid did role).exp
      → is_session_revoked sid w ≡ false
      → select_one (λ (r : User). r.id == u.id) w.db.users ≡ some u
      → is_some u.deleted_at ≡ false
      → is_barred u.account_state ≡ false
      → current_principal os (some (bearer ++ mint_access_token os cfg minted u.id sid did role)) w
        ≡ (ok (record { user = u; session_id = sid; device_id = did }), w)
  unfolding current_principal bearer_token mint_access_token access_claims decode_access_token
  minted_token_accepted cfg minted u sid did role w reads trims timely live found kept free =
      rw
        (
          trims,
          reads (w.now / 1_000_000) (access_claims os cfg minted u.id sid did role) refl timely,
          live,
          found,
          kept,
          free,
        )
        refl

  -- The check of the origin is one of prefixes: whatever follows an allowed origin, the request passes
  -- if its two tokens match.
  prefix_origin_passes :
      (cfg : Settings) (o suffix : Text) (rest : List Text) (r : Request) (w : World)
      → origins cfg ≡ o ∷ rest
      → or_text r.origin (or_text r.referer []) ≡ o ++ suffix
      → is_matched r.csrf_header r.csrf_cookie ≡ true
      → require_csrf cfg r w ≡ (ok tt, w)
  unfolding require_csrf is_from
  prefix_origin_passes cfg o suffix rest r w allowed sent same =
      rw (allowed, sent, starts_with-append o suffix, same) refl
