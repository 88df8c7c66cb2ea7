-- ===== src/Routes/Tests.antt =====
-- Requests to backend/app/api/v1/conversations.py that name a conversation that is not there.
use runnerup_chat.Base.{◌≡◌, refl, false, some, none, [], ◌∷◌, select_one}
use runnerup_chat.Errors.{err, not_visible}
use runnerup_chat.Models.Chat.{MessageKind}
use runnerup_chat.Authz.{find_conversation}
use runnerup_chat.Authz.Visible.{CanSee}
use runnerup_chat.Routes.{get_messages, post_message, post_read, post_invite}
use runnerup_chat.Routes.Hidden.{strangers_are_told_nothing}
use runnerup_chat.Samples.{sample_platform, by_bob, bob, busy, hello, same_case}

not_there : ¬ CanSee busy bob 99
unfolding find_conversation select_one
not_there s = cc (s.found)

strangers_are_told_nothing_example :
    (get_messages sample_platform by_bob (99 ∷ []) none none 50 busy ≡ (err not_visible, busy))
    × (post_message sample_platform same_case
          (λ d. d)
          by_bob
          (99 ∷ [])
          (8 ∷ [])
          (some hello)
          MessageKind.text
          none
          []
          101
          200
          busy
        ≡ (err not_visible, busy))
    × (post_read sample_platform by_bob (99 ∷ []) 4 busy ≡ (err not_visible, busy))
    × (post_invite sample_platform by_bob (99 ∷ []) none none false 80 hello busy
        ≡ (err not_visible, busy))
strangers_are_told_nothing_example =
    strangers_are_told_nothing sample_platform same_case (λ d. d) by_bob (99 ∷ []) 99 busy none none
      50 (8 ∷ []) (some hello) MessageKind.text none [] 101 200 4 none none false 80 hello refl refl
      not_there
