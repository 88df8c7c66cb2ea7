-- ===== src/Ws/Tests.antt =====
-- Runs of backend/app/ws/router.py.
use runnerup_chat.Base.{
  List, ◌≢◌, select_all, ◌≡◌, refl, some, none, [], ◌∷◌, ◌++◌, arith, ◌+◌, select_one, delete_rows,
}
use runnerup_chat.Errors.{ok}
use runnerup_chat.Texts.{codes}
use runnerup_chat.Models.Accounts.{Text}
use runnerup_chat.Sessions.{revoke_all_for_user, ids, is_unrevoked_of}
use runnerup_chat.Ws.{Gateway, Handshake, ticket_of, issue_ticket, redeem, connect, claims_of}
use runnerup_chat.Ws.Tickets.{ticket_is_single_use}
use runnerup_chat.Ws.Events.{Parsed, EventType, ClientEvent}
use runnerup_chat.Ws.Steps.{started, at_start}
use runnerup_chat.World.{World, Ticket}
use runnerup_chat.Models.Accounts.{RevokeReason}
use runnerup_chat.Ws.Unhashable.{Silent, unhashable_serves_nobody}
use runnerup_chat.Ws.Revoking.{revocation_of, revoked_ticket_is_refused}
use runnerup_chat.Sessions.Cache.{Marking, mark_later}
use runnerup_chat.Samples.{sample_settings, sample_platform, by_alice, start, hello, noon}

-- A second after the issue of a ticket.
abbrev issued : World
issued = record ((issue_ticket sample_settings by_alice hello start).1) { now = noon + 1000000 }

ticket_is_single_use_example :
    ((redeem hello issued).0 ≡ ok (some (ticket_of sample_settings by_alice hello start)))
    × ((redeem hello (record ((redeem hello issued).1) { now = noon + 2000000 })).0 ≡ ok none)
ticket_is_single_use_example =
    ticket_is_single_use sample_settings by_alice hello start (noon + 1000000) (noon + 2000000)
      (omega arith)

-- Every text is a wish to hear the group.
abbrev loads : Text → Parsed
loads t =
    Parsed.object (record { kind = EventType.word (codes "subscribe"); conversation_id = 10 ∷ [] })

abbrev listening : ClientEvent
listening = record { kind = EventType.word (codes "subscribe"); conversation_id = 10 ∷ [] }

-- Alice has a ticket, on a replica that has just started.
abbrev opening : Gateway
opening = started issued

unhashable_serves_nobody_example :
    Silent opening.replica × ((connect sample_platform 7 hello opening).0 ≢ Handshake.served)
unhashable_serves_nobody_example =
    unhashable_serves_nobody {os = sample_platform} {loads = loads} 7 hello (at_start issued)

-- Alice's ticket again.
abbrev her_ticket : Ticket
her_ticket = ticket_of sample_settings by_alice hello start

-- She logs out everywhere, after a second somebody else's session is marked, and then comes the handshake.
abbrev marked_later : List Marking
marked_later = record { moment = noon + 1000000; session_id = 77 } ∷ []

abbrev logged_out : World
logged_out = (revoke_all_for_user sample_settings 1 RevokeReason.user_logout_all none start).1

abbrev presented : World
presented = record issued {
  now = noon + 2000000;
  revoked = (mark_later sample_settings marked_later logged_out).revoked;
}

abbrev entry : Gateway
entry = record opening { world = presented }

revoked_ticket_is_refused_example :
    (logged_out.published
      ≡ start.published
        ++ revocation_of 1
            (ids (select_all (is_unrevoked_of 1 none) start.db.sessions))
            RevokeReason.user_logout_all
          ∷ [])
    × (connect sample_platform 8 hello entry
        ≡ (Handshake.unauthorized, record entry { world = record presented { tickets = [] } }))
unfolding claims_of redeem issue_ticket select_one select_all delete_rows
revoked_ticket_is_refused_example =
    revoked_ticket_is_refused sample_platform sample_settings 1 RevokeReason.user_logout_all none
      start 8 hello entry her_ticket (record presented { tickets = [] }) marked_later refl refl
      (omega arith, tt) refl (omega arith)
