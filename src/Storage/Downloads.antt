-- ===== src/Storage/Downloads.antt =====
-- Who gets a download link from backend/app/api/v1/uploads.py.
use runnerup_chat.Base.{
  ◌⊎◌, ◌≡◌, refl, sym, inl, inr, true, Option, none, some, ◌==◌, select_one, Bool-cases,
  Option-cases,
}
use runnerup_chat.Errors.{
  ok, err, AppError, not_visible, account_unavailable, permission_denied, plain,
}
use runnerup_chat.Config.{Settings}
use runnerup_chat.Security.{Platform}
use runnerup_chat.Models.Accounts.{Uuid, Text}
use runnerup_chat.Models.Chat.{Attachment}
use runnerup_chat.World.{World}
use runnerup_chat.Authz.{Access, resolve_access, can, read_messages}
use runnerup_chat.Authz.Visible.{unusable, hidden, shown, resolve_access-Outcome}
use runnerup_chat.Deps.{Principal}
use runnerup_chat.Storage.{signed_download_url}
use runnerup_chat.Storage.Uploads.{is_ready, check_reader_in, check_reader, download_url}

-- An attachment outside every conversation is its owner's; one in a conversation is for those who may read
-- that conversation.
pub data Readable (p : Principal) (a : Attachment) (w : World) : Type 0 where
  own : a.conversation_id ≡ none → (a.owner_id == p.user.id) ≡ true → Readable p a w
  shared :
      {cid : Uuid} {access : Access}
      → a.conversation_id ≡ some cid
      → resolve_access p.user cid w ≡ (ok access, w)
      → can access read_messages ≡ true
      → Readable p a w

check_reader-Readable :
    (os : Platform) (cfg : Settings) (p : Principal) (a : Attachment) (o : Option Uuid) (w : World)
    → a.conversation_id ≡ o
    → ((check_reader_in os cfg p a o w ≡ (ok tt, w)) × Readable p a w)
      ⊎ ((e : AppError) × (check_reader_in os cfg p a o w ≡ (err e, w)))
unfolding check_reader_in
check_reader-Readable os cfg p a none w place = elim (Bool-cases (a.owner_id == p.user.id)) [
  | inl mine ↦ inl (rw mine refl, own place mine)
  | inr other ↦ inr (not_visible, rw other refl)
]
check_reader-Readable os cfg p a (some cid) w place = elim (resolve_access-Outcome p.user cid w) [
  | unusable bad e ↦ inr (account_unavailable, rw e refl)
  | hidden u h e ↦ inr (not_visible, rw e refl)
  | shown access seen r e ↦ elim (Bool-cases (can access read_messages)) [
    | inl reads ↦ inl (rw (e, reads) refl, shared place e reads)
    | inr mute ↦ inr (permission_denied plain, rw (e, mute) refl)
  ]
]

-- Where a request for a download link is answered with a link to an attachment, this is the row with the id
-- that was asked for, it is ready, the caller owns it outside every conversation or may read its
-- conversation at that time, and the request changes nothing.
pub download_granted :
    (os : Platform) (cfg : Settings) (p : Principal) (attachment_id : Text) (w w' : World)
    (url : Text) (a : Attachment)
    → download_url os cfg p attachment_id w ≡ (ok (url, a), w')
    → ((target : Uuid) × (os.parse_uuid attachment_id ≡ some target)
        × (select_one (λ (x : Attachment). x.id == target) w.db.attachments ≡ some a))
      × (is_ready a.state ≡ true)
      × Readable p a w
      × (w' ≡ w)
unfolding download_url check_reader signed_download_url
download_granted os cfg p attachment_id w w' url a done =
    elim (Option-cases (os.parse_uuid attachment_id)) [
      | inl bad ↦ absurd (cc (rw bad at done))
      | inr (target, read) ↦
          elim (Option-cases (select_one (λ (x : Attachment). x.id == target) w.db.attachments)) [
            | inl gone ↦ absurd (cc (rw (read, gone) at done))
            | inr (b, row) ↦ elim (Bool-cases (is_ready b.state)) [
              | inr waiting ↦ absurd (cc (rw (read, row, waiting) at done))
              | inl ready ↦ elim (check_reader-Readable os cfg p b b.conversation_id w refl) [
                | inr (e, refused) ↦ absurd (cc (rw (read, row, ready, refused) at done))
                | inl (passed, readable) ↦
                    let answer = rw (read, row, ready, passed) at done in
                    let same : b ≡ a = cc answer in
                    let kept : w ≡ w' = cc answer in
                    rw (sym same, sym kept) ((target, read, row), ready, readable, refl)
              ]
            ]
          ]
    ]
