-- ===== src/Ws/Revoking.antt =====
-- After a revocation of backend/app/services/sessions.py, handshakes of backend/app/ws/router.py let nobody in.
use runnerup_chat.Base.{
  ◌+◌, ◌<◌, ◌≤◌, ◌≡◌, refl, inl, inr, true, some, none, Option, List, [], ◌∷◌, ◌++◌, All,
  Bool-cases, select_all, arith, ◌==◌,
}
use runnerup_chat.Errors.{ok}
use runnerup_chat.Texts.{any_of}
use runnerup_chat.Config.{Settings, seconds}
use runnerup_chat.Models.Accounts.{Uuid, Text, RevokeReason}
use runnerup_chat.World.{World, Publication, Channel, Event, Ticket, publish}
use runnerup_chat.Security.{Platform}
use runnerup_chat.Sessions.{
  ids, is_unrevoked_of, is_session_revoked, revoke_all_for_user, announce_user, announce_revocation,
}
use runnerup_chat.Sessions.Cache.{covers, Marking, mark_later, mark_later-keeps}
use runnerup_chat.Sessions.Revocation.{revoke_all_lem, revoke_all-published}
use runnerup_chat.Ws.{Gateway, Handshake, admit, claims_of, connect}

abbrev pub revocation_of : Uuid → List Uuid → RevokeReason → Publication
revocation_of uid sids reason = record {
  channel = Channel.user uid;
  event = Event.session_revoked uid sids reason;
  origin = none;
}

announced :
    (uid : Uuid) (sids : List Uuid) (sid : Uuid) (reason : RevokeReason) (w : World)
    → any_of sids sid ≡ true
    → (announce_user uid sids reason w).1.published
      ≡ w.published ++ revocation_of uid sids reason ∷ []
unfolding announce_user announce_revocation publish
announced uid [] sid reason w named = absurd (cc)
announced uid (s ∷ ss) sid reason w named = refl

All-any {κ} : (P : Uuid → Type κ) (x : Uuid) (xs : List Uuid) → All P xs → any_of xs x ≡ true → P x
All-any P x [] h e = absurd (cc)
All-any P x (y ∷ ys) h e = elim (Bool-cases (y == x)) [
  | inl hit ↦ let same : y ≡ x = ground arith in rw same at h.0
  | inr miss ↦ All-any P x ys h.1 (ground arith)
]

-- Let `revoke_all_for_user` revoke the sessions of a user, one of them the session that a ticket was issued in.
-- It publishes one event on the channel of the user, which names exactly the sessions revoked; and, whatever
-- sessions are marked at the same time or later, until the longest lifetime of an access token and 60 seconds
-- have passed, a handshake on any replica that finds the ticket is answered as unauthorized: the ticket is
-- spent, and nothing else of the gateway has changed.
pub revoked_ticket_is_refused :
    (os : Platform) (cfg : Settings) (uid : Uuid) (reason : RevokeReason) (except : Option Uuid)
    (w : World) (j : Uuid) (ticket : Text) (g : Gateway) (claims : Ticket) (spent : World)
    (others : List Marking)
    → any_of (ids (select_all (is_unrevoked_of uid except) w.db.sessions)) claims.session_id ≡ true
    → claims_of ticket g.world ≡ (ok (some claims), spent)
    → All (λ m. w.now ≤ m.moment) others
    → spent.revoked
      ≡ (mark_later cfg others (revoke_all_for_user cfg uid reason except w).1).revoked
    → spent.now < w.now + seconds (cfg.access_token_ttl_seconds + 60)
    → ((revoke_all_for_user cfg uid reason except w).1.published
        ≡ w.published
          ++ revocation_of uid (ids (select_all (is_unrevoked_of uid except) w.db.sessions)) reason
            ∷ [])
      × (connect os j ticket g ≡ (Handshake.unauthorized, record g { world = spent }))
unfolding connect admit is_session_revoked
revoked_ticket_is_refused os cfg uid reason except w j ticket g claims spent others named found late
      keys soon =
    let sids = ids (select_all (is_unrevoked_of uid except) w.db.sessions) in
    let covered : covers claims.session_id spent.now
          (mark_later cfg others (revoke_all_for_user cfg uid reason except w).1).revoked
        ≡ true =
      mark_later-keeps cfg claims.session_id spent.now w.now others
        (revoke_all_for_user cfg uid reason except w).1 soon late
        (All-any _ claims.session_id sids (revoke_all_lem cfg uid reason except w spent.now soon).2
          named) in
    (
      rw (revoke_all-published cfg uid reason except w)
          (announced uid sids claims.session_id reason w named),
      rw (found, keys, covered) refl,
    )
