-- ===== src/Keys.antt =====
-- The names of channels and keys of backend/app/core/redis.py. Uuids stand in them as text.
use runnerup_chat.Base.{◌++◌}
use runnerup_chat.Texts.{codes}
use runnerup_chat.Models.Accounts.{Text}

unfoldable pub conversation_channel : Text → Text
conversation_channel conversation_id = codes "conv:" ++ conversation_id

unfoldable pub user_channel : Text → Text
user_channel user_id = codes "user:" ++ user_id

unfoldable pub presence_key : Text → Text
presence_key user_id = codes "presence:" ++ user_id

unfoldable pub typing_key : Text → Text → Text
typing_key conversation_id user_id = codes "typing:" ++ conversation_id ++ codes ":" ++ user_id

unfoldable pub ws_ticket_key : Text → Text
ws_ticket_key ticket = codes "wsticket:" ++ ticket

unfoldable pub connection_count_key : Text → Text
connection_count_key user_id = codes "wsconn:" ++ user_id

unfoldable pub revoked_session_key : Text → Text
revoked_session_key session_id = codes "revoked:" ++ session_id
