-- ===== src/Routes/Hidden.antt =====
-- What backend/app/api/v1/conversations.py tells a stranger of a conversation.
use runnerup_chat.Base.{ℕ, ◌≡◌, refl, Bool, true, Option, some, List}
use runnerup_chat.Errors.{err, not_visible}
use runnerup_chat.Security.{Platform}
use runnerup_chat.Models.Accounts.{Uuid, Text, is_usable}
use runnerup_chat.Models.Chat.{MessageKind}
use runnerup_chat.World.{Db, World}
use runnerup_chat.Authz.{resolve_access}
use runnerup_chat.Authz.Visible.{CanSee, unusable, hidden, shown, resolve_access-Outcome}
use runnerup_chat.Deps.{Principal}
use runnerup_chat.Routes.{as_uuid, get_messages, post_message, post_read, post_invite}

stranger :
    (p : Principal) (cid : Uuid) (w : World)
    → is_usable p.user ≡ true
    → ¬ CanSee w p.user cid
    → resolve_access p.user cid w ≡ (err not_visible, w)
stranger p cid w usable unseen = elim (resolve_access-Outcome p.user cid w) [
  | unusable bad e ↦ absurd (cc (bad, usable))
  | hidden u h e ↦ e
  | shown a seen r e ↦ absurd (unseen seen)
]

-- To a usable account that may not see a conversation, be it that it is not there or that the account is
-- no member, the four routes under its id give the same answer, whatever else they are given, and leave
-- the state as it is.
pub strangers_are_told_nothing :
    (os : Platform) (lower : Text → Text) (others : Db → Db) (p : Principal)
    (conversation_id : Text) (cid : Uuid) (w : World) (before after : Option ℕ) (limit : ℕ)
    (client_msg_id : Text) (body : Option Text) (kind : MessageKind) (reply : Option Uuid)
    (attachments : List Uuid) (message_id event_id : ℕ) (up_to : ℕ) (max_uses expires_in : Option ℕ)
    (approval : Bool) (invite_id : Uuid) (token : Text)
    → os.parse_uuid conversation_id ≡ some cid
    → is_usable p.user ≡ true
    → ¬ CanSee w p.user cid
    → (get_messages os p conversation_id before after limit w ≡ (err not_visible, w))
      × (post_message os lower others p conversation_id client_msg_id body kind reply attachments
            message_id event_id w
          ≡ (err not_visible, w))
      × (post_read os p conversation_id up_to w ≡ (err not_visible, w))
      × (post_invite os p conversation_id max_uses expires_in approval invite_id token w
          ≡ (err not_visible, w))
unfolding as_uuid get_messages post_message post_read post_invite
strangers_are_told_nothing os lower others p conversation_id cid w before after limit client_msg_id
      body kind reply attachments message_id event_id up_to max_uses expires_in approval invite_id
      token read usable unseen =
    rw (read, stranger p cid w usable unseen) (refl, refl, refl, refl)
