-- ===== src/Samples.antt =====
-- Small concrete data for the tests: two users and one of the staff, a group of theirs with a message, a
-- direct conversation, a session, a device, and an upload with its object.
use runnerup_chat.Base.{
  ℕ, zero, suc, leb, take, if◌then◌else◌, ◌&&◌, ◌+◌, ◌*◌, true, false, Option, none, some, [], ◌∷◌,
}
use runnerup_chat.Config.{Settings, SmsProvider}
use runnerup_chat.Security.{Platform, Claims, chat_api}
use runnerup_chat.Models.Accounts.{
  Uuid, Digest, Text, Time, User, SystemRole, AccountState, OtpChallenge, UserSession, UserDevice,
}
use runnerup_chat.Models.Chat.{
  Conversation, ConversationKind, Visibility, ConversationMember, MemberRole, MemberState,
  PreviewPolicy, Message, MessageKind, Attachment, AttachmentState,
}
use runnerup_chat.World.{Db, World}
use runnerup_chat.Authz.{Access}
use runnerup_chat.Deps.{Principal}

abbrev checksum : Text → Digest
checksum [] = 7
checksum (c ∷ cs) = c + 31 * checksum cs

abbrev single : Text → Option Uuid
single [] = none
single (c ∷ []) = some c
single (c ∷ d ∷ ds) = none

abbrev pub role_number : SystemRole → ℕ
role_number SystemRole.user = 0
role_number SystemRole.moderator = 1
role_number SystemRole.admin = 2
role_number SystemRole.super_admin = 3

abbrev pub numbered_role : ℕ → SystemRole
numbered_role zero = SystemRole.user
numbered_role (suc zero) = SystemRole.moderator
numbered_role (suc (suc zero)) = SystemRole.admin
numbered_role (suc (suc (suc n))) = SystemRole.super_admin

-- A token that is its claims; it is read until it expires.
abbrev spell : Claims → Text
spell c = c.sub ∷ c.sid ∷ c.did ∷ role_number c.role ∷ c.iat ∷ c.exp ∷ c.typ

abbrev read_claims : Text → Option Claims
read_claims (u ∷ s ∷ d ∷ r ∷ i ∷ e ∷ t) = some (record {
  sub = u;
  sid = s;
  did = d;
  role = numbered_role r;
  iat = i;
  exp = e;
  iss = chat_api;
  typ = t;
})
read_claims t = none

abbrev unspell : ℕ → Text → Option Claims
unspell now t = elim (read_claims t) [
  | none ↦ none
  | some c ↦ if leb now c.exp then some c else none
]

abbrev pub sample_platform : Platform
sample_platform = record {
  hmac_digest = checksum;
  sha256 = checksum;
  parse_uuid = single;
  show_uuid = λ i. i ∷ [];
  jwt_encode = spell;
  jwt_decode = unspell;
  is_word = λ c. leb b'a' c && leb c b'z';
  read_phone = λ t r. some t;
  country_code = λ t. take 2 t;
  hex = λ i. i ∷ [];
  presign_put = λ k n t. k;
  presign_get = λ k d t. k;
}

abbrev pub sample_settings : Settings
sample_settings = record {
  is_production = false;
  cookie_secure = true;
  access_token_ttl_seconds = 900;
  refresh_token_ttl_seconds = 86400;
  otp_ttl_seconds = 300;
  otp_max_attempts = 5;
  max_upload_bytes = 1000000;
  sms_provider = SmsProvider.console;
  allowed_origins = b'h' ∷ b':' ∷ [];
  ws_ticket_ttl_seconds = 30;
  upload_url_ttl_seconds = 300;
  download_url_ttl_seconds = 300;
}

abbrev pub same_case : Text → Text
same_case t = t

abbrev pub hello : Text
hello = b'h' ∷ b'e' ∷ b'y' ∷ []

abbrev pub phone : Text
phone = b'+' ∷ b'1' ∷ []

abbrev pub code : Text
code = b'1' ∷ b'2' ∷ b'3' ∷ b'4' ∷ b'5' ∷ b'6' ∷ []

abbrev pub refresh : Text
refresh = b'r' ∷ []

abbrev pub noon : Time
noon = 1_000_000_000

abbrev a_user : Uuid → User
a_user i = record {
  id = i;
  phone_hash = 70 + i;
  phone_last4 = [];
  phone_country = [];
  username = none;
  display_name = [];
  system_role = SystemRole.user;
  account_state = AccountState.active;
  deleted_at = none;
}

abbrev pub alice : User
alice = a_user 1

abbrev pub bob : User
bob = a_user 2

abbrev pub group : Conversation
group = record {
  id = 10;
  kind = ConversationKind.group;
  visibility = Visibility.private;
  slug = none;
  title = none;
  created_by = some 1;
  last_seq = 4;
  send_policy = MemberRole.member;
  invite_policy = MemberRole.admin;
  pin_policy = MemberRole.moderator;
  edit_info_policy = MemberRole.admin;
  member_limit = 512;
  is_archived = false;
  updated_at = 0;
  deleted_at = none;
}

abbrev pub membership : Uuid → MemberRole → ConversationMember
membership uid r = record {
  conversation_id = 10;
  user_id = uid;
  role = r;
  state = MemberState.active;
  muted_until = none;
  restricted_until = none;
  last_read_seq = 2;
  notify_policy = PreviewPolicy.show_preview;
  invited_by = none;
  left_at = none;
}

abbrev pub message : Message
message = record {
  id = 100;
  conversation_id = 10;
  seq = 4;
  sender_id = some 1;
  kind = MessageKind.text;
  body = some hello;
  client_msg_id = 33;
  reply_to_id = none;
  edited_at = none;
  edit_count = 0;
  deleted_at = none;
  deleted_by = none;
  created_at = noon;
}

abbrev pub session : UserSession
session = record {
  id = 50;
  user_id = 1;
  device_id = 40;
  family_id = 60;
  refresh_hash = checksum refresh;
  previous_id = none;
  rotated_at = none;
  revoked_at = none;
  revoked_reason = none;
  expires_at = noon + 1000000;
  last_used_at = none;
}

abbrev pub challenge : OtpChallenge
challenge = record {
  id = 7;
  phone_hash = checksum (b'p' ∷ b'h' ∷ b'o' ∷ b'n' ∷ b'e' ∷ b':' ∷ phone);
  code_hash = checksum (7 ∷ b':' ∷ code);
  attempts = 0;
  max_attempts = 5;
  request_ip = none;
  user_agent_hash = none;
  consumed_at = none;
  expires_at = noon + 300000000;
}

abbrev pub tables : Db
tables = record {
  users = alice ∷ bob ∷ [];
  challenges = challenge ∷ [];
  devices = [];
  sessions = session ∷ [];
  conversations = group ∷ [];
  direct_keys = [];
  members = membership 1 MemberRole.owner ∷ membership 2 MemberRole.member ∷ [];
  messages = message ∷ [];
  reactions = [];
  mentions = [];
  edits = [];
  attachments = [];
  invites = [];
  blocks = [];
  reports = [];
  events = [];
  audit_logs = [];
  security_events = [];
}

abbrev pub start : World
start = record {
  db = tables;
  saved = tables;
  buckets = [];
  revoked = [];
  published = [];
  objects = [];
  tickets = [];
  now = noon;
}

-- Alice in the group, with every permission.
abbrev pub access : Access
access = record {
  user = alice;
  conversation = group;
  membership = some (membership 1 MemberRole.owner);
  permissions = λ p. true;
}

-- Alice's requests in her session, and Bob's.
abbrev pub by_alice : Principal
by_alice = record { user = alice; session_id = 50; device_id = 40 }

abbrev pub by_bob : Principal
by_bob = record { user = bob; session_id = 51; device_id = 41 }

-- Of the staff.
abbrev pub carol : User
carol = record (a_user 3) { system_role = SystemRole.admin }

abbrev pub by_carol : Principal
by_carol = record { user = carol; session_id = 52; device_id = 42 }

-- A direct conversation of the two.
abbrev pub chat : Conversation
chat = record group { id = 11; kind = ConversationKind.direct; member_limit = 2 }

-- A photo of Alice's that waits for its validation, and its object in storage.
abbrev pub photo : Attachment
photo = record {
  id = 90;
  owner_id = 1;
  conversation_id = some 10;
  message_id = none;
  storage_key = 5 ∷ [];
  display_name = hello;
  byte_size = 4;
  detected_mime = [];
  declared_mime = none;
  state = AttachmentState.pending;
  scan_verdict = none;
  width = none;
  height = none;
  duration_ms = none;
  created_at = noon;
  finalized_at = none;
}

abbrev pub phone_of_alice : UserDevice
phone_of_alice = record {
  id = 40;
  user_id = 1;
  platform = hello;
  display_label = hello;
  ip_first_seen = none;
  ip_last_seen = none;
  created_at = 0;
  last_active_at = 0;
  revoked_at = none;
}

-- With the staff, the chat, the photo and the device.
abbrev pub full : Db
full = record tables {
  users = alice ∷ bob ∷ carol ∷ [];
  conversations = group ∷ chat ∷ [];
  direct_keys = record { conversation_id = 11; user_lo = 1; user_hi = 2 } ∷ [];
  attachments = photo ∷ [];
  devices = phone_of_alice ∷ [];
}

abbrev pub busy : World
busy = record start {
  db = full;
  saved = full;
  objects = record { key = 5 ∷ []; content = 255 ∷ 216 ∷ 255 ∷ 224 ∷ [] } ∷ [];
}
