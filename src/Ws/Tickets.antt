-- ===== src/Ws/Tickets.antt =====
-- A ticket of backend/app/ws/router.py is good once.
use runnerup_chat.Base.{
  ◌+◌, ◌<◌, ◌≡◌, refl, inl, inr, true, none, some, List, [], ◌∷◌, arith, ltb, Bool-cases,
  select_one, delete_rows,
}
use runnerup_chat.Errors.{ok}
use runnerup_chat.Texts.Laws.{same_text_refl}
use runnerup_chat.Config.{Settings, seconds}
use runnerup_chat.Models.Accounts.{Text, Time}
use runnerup_chat.World.{World, Ticket}
use runnerup_chat.Deps.{Principal}
use runnerup_chat.Ws.{is_ticket, ticket_of, issue_ticket, redeem}

deleted_is_gone :
    (t : Text) (rs : List Ticket) → select_one (is_ticket t) (delete_rows (is_ticket t) rs) ≡ none
unfolding select_one delete_rows
deleted_is_gone t [] = refl
deleted_is_gone t (r ∷ rs) = elim (Bool-cases (is_ticket t r)) [
  | inl hit ↦ rw hit (deleted_is_gone t rs)
  | inr miss ↦ rw (miss, miss) (deleted_is_gone t rs)
]

issued_is_found :
    (cfg : Settings) (p : Principal) (t : Text) (w : World)
    → select_one (is_ticket t) (ticket_of cfg p t w ∷ delete_rows (is_ticket t) w.tickets)
      ≡ some (ticket_of cfg p t w)
unfolding select_one
issued_is_found cfg p t w = rw (same_text_refl t) refl

-- A ticket round trip: in the state that an issue leaves, at any time before the ticket expires, it is
-- redeemed for the user, session and device that it was issued to; and in the state that this leaves it is
-- redeemed for nothing, at whatever time.
pub ticket_is_single_use :
    (cfg : Settings) (p : Principal) (t : Text) (w : World) (later last : Time)
    → later < w.now + seconds cfg.ws_ticket_ttl_seconds
    → let issued : World = record ((issue_ticket cfg p t w).1) { now = later } in
      let spent : World = record ((redeem t issued).1) { now = last } in
      ((redeem t issued).0 ≡ ok (some (ticket_of cfg p t w))) × ((redeem t spent).0 ≡ ok none)
unfolding issue_ticket redeem
ticket_is_single_use cfg p t w later last timely =
    let in_time : ltb later (w.now + seconds cfg.ws_ticket_ttl_seconds) ≡ true = ground arith in
    (
      rw (issued_is_found cfg p t w, in_time) refl,
      rw (deleted_is_gone t (ticket_of cfg p t w ∷ delete_rows (is_ticket t) w.tickets)) refl,
    )
