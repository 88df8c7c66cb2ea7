-- ===== src/Deps/Tests.antt =====
-- Requests that backend/app/api/deps.py lets pass.
use runnerup_chat.Base.{ℕ, ◌≤◌, ◌≡◌, ◌++◌, refl, sym, true, some, arith, leb, select_one}
use runnerup_chat.Errors.{ok}
use runnerup_chat.Models.Accounts.{SystemRole}
use runnerup_chat.Security.{Claims, chat_api, mint_access_token, access_claims}
use runnerup_chat.Texts.{strip_of, drop_while, reverse_onto, is_space}
use runnerup_chat.Sessions.{is_session_revoked}
use runnerup_chat.Deps.{bearer, current_principal}
use runnerup_chat.Deps.Tokens.{
  Authenticated, current_principal-Authenticated, minted_token_accepted,
}
use runnerup_chat.Samples.{
  sample_platform, sample_settings, numbered_role, role_number, start, noon, alice, hello, by_alice,
}

current_principal-Authenticated_example :
    Authenticated sample_platform
      (some hello)
      start
      (current_principal sample_platform (some hello) start)
current_principal-Authenticated_example =
    current_principal-Authenticated sample_platform (some hello) start

role_read : (r : SystemRole) → numbered_role (role_number r) ≡ r
role_read SystemRole.user = refl
role_read SystemRole.moderator = refl
role_read SystemRole.admin = refl
role_read SystemRole.super_admin = refl

token_read :
    (n : ℕ) (c : Claims)
    → c.iss ≡ chat_api
    → n ≤ c.exp
    → sample_platform.jwt_decode n (sample_platform.jwt_encode c) ≡ some c
token_read n c ours timely =
    let in_time : leb n c.exp ≡ true = ground arith in rw (in_time, role_read c.role, sym ours) refl

minted_token_accepted_example :
    current_principal sample_platform
      (some
        (bearer ++ mint_access_token sample_platform sample_settings noon 1 50 40 SystemRole.user))
      start
    ≡ (ok by_alice, start)
unfolding mint_access_token access_claims is_session_revoked select_one strip_of drop_while
    reverse_onto is_space
minted_token_accepted_example =
    minted_token_accepted sample_platform sample_settings noon alice 50 40 SystemRole.user start
      token_read refl (omega arith) refl refl refl refl
