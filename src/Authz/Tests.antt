-- ===== src/Authz/Tests.antt =====
-- Concrete decisions of services/authz.py.
use runnerup_chat.Base.{◌↔◌}
use runnerup_chat.Authz.{resolve_access}
use runnerup_chat.Authz.Visible.{Outcome, resolve_access-Outcome}
use runnerup_chat.Authz.Sending.{CanSend, MaySend, send_allowed}
use runnerup_chat.Samples.{start, bob}

send_allowed_example : CanSend bob 10 start ↔ MaySend start bob 10
send_allowed_example = send_allowed bob 10 start

resolve_access-Outcome_example : Outcome bob 10 start (resolve_access bob 10 start)
resolve_access-Outcome_example = resolve_access-Outcome bob 10 start
