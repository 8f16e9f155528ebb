-- ===== src/Examples/Data.antt =====
-- The data that the examples share.
use galopush.Prelude.{
  ℕ, Bytes, codes, Bool, true, false, [], ◌∷◌, ◌++◌, replicate, some, ltb, ◌&&◌, ◌=ₛ◌, ◌≡◌, refl,
  All, arith,
}
use galopush.Prelude.Assoc.{Assoc, lookup, insert}
use galopush.Protocol.Message.{Header, AddHeader, ParamReg, IsByte, IsParamReg}
use galopush.Rds.Defs.{Item, Session, Sessions, Document, Redis}
use galopush.Rds.Store.{Storager, first_plat}
use galopush.Rds.Delivery.{Sees, Holds}
use galopush.Rds.Messages.{
  save_push_msg, save_callback_msg, save_im_msg, get_push_msg, get_callback_msg, get_im_msg,
}
use galopush.Comet.Session as CometSession
use galopush.Comet.Session.{Conn, tcp}
use galopush.Comet.Ident.{session_key}
use galopush.Comet.State.{OfflineStore, Outside, Comet}

abbrev pub alice : Bytes
alice = codes "alice"

abbrev pub secret : Bytes
secret = codes "secret"

-- A heartbeat, type 3, under the number 258.
abbrev pub beat_head : Header
beat_head = record { line = 3; tid = 258 }

-- An instant message, type 9, with its bits turned.
abbrev pub im_head : Header
im_head = record { line = 73; tid = 7 }

-- A callback, type 7, under the ring encoding.
abbrev pub callback_head : Header
callback_head = record { line = 199; tid = 9 }

abbrev pub long : ℕ → AddHeader
long n = record { len = n }

-- The 32 bytes of a name.
abbrev pub alice_array : Bytes
alice_array = alice ++ replicate 27 0

abbrev pub secret_array : Bytes
secret_array = secret ++ replicate 26 0

abbrev pub alice_form : ParamReg
alice_form = record { version = 1; terminal_type = 1; id = alice_array; token = secret_array }

abbrev pub reg_head : Header
reg_head = record { line = 1; tid = 1 }

-- The bytes of a list, each with its bound checked.
unfoldable pub all_bytes : Bytes → Bool
all_bytes [] = true
all_bytes (x ∷ xs) = ltb x 256 && all_bytes xs

pub all_bytes_lem : (b : Bytes) → all_bytes b ≡ true → All IsByte b
unfolding all_bytes
all_bytes_lem [] h = tt
all_bytes_lem (x ∷ xs) h = (ground arith, all_bytes_lem xs (ground arith))

pub alice_form_fits : IsParamReg alice_form
unfolding all_bytes
alice_form_fits = record {
  version_fits = omega arith;
  terminal_type_fits = omega arith;
  id_length = refl;
  token_length = refl;
  id_bytes = all_bytes_lem alice_array refl;
  token_bytes = all_bytes_lem secret_array refl;
}

-- Redis as a map that always answers.
abbrev pub RedisState : Type 0
RedisState = Assoc Document

abbrev pub redis : Redis RedisState
redis = record { get = λ r k. lookup k r; put = λ r k d. (insert k d r, true) }

abbrev pub item : Bytes → Item
item msg = record { web_online = false; msg = msg }

-- Alice on Android, logged in, with a push, a callback and an instant message that wait.
abbrev pub alice_phone : Session
alice_phone = record {
  id = alice;
  plat = 1;
  online = true;
  login = true;
  auth_code = secret;
  ios_token = [];
  off_msg = record {
    push = record { off_cnt = 2; msg = codes "news" };
    cb = item (codes "a") ∷ [];
    im = item (codes "x") ∷ [];
  };
}

abbrev pub alice_box : Sessions
alice_box = record { id = alice; comet_id = codes "c1"; sess = 0 ∷ [] }

abbrev pub storage : Storager RedisState
storage = record {
  cli = [];
  boxes = alice_box ∷ [];
  items = alice_phone ∷ [];
  mem_store = (alice, 0) ∷ [];
}

pub alice_cached : Sees redis storage alice (0 ∷ [])
unfolding lookup ◌=ₛ◌
alice_cached = record {
  ptr = 0;
  box = alice_box;
  cached = refl;
  stored = refl;
  named = refl;
  lists = refl;
}

pub alice_held : Holds redis storage alice 1 (0 ∷ []) 0 alice_phone
unfolding first_plat
alice_held = record { sees = alice_cached; first = refl; at = refl }

-- The store that the comets use, over that Redis.
abbrev pub store : OfflineStore (Storager RedisState)
store = record {
  save_push = save_push_msg redis;
  save_callback = save_callback_msg redis;
  save_im = save_im_msg redis;
  get_push = get_push_msg redis;
  get_callbacks = get_callback_msg redis;
  get_ims = get_im_msg redis;
}

-- A router that takes everything, and connections on which every write succeeds.
abbrev pub out : Outside
out = record {
  auth = λ id plat token. true;
  msg_upward = λ id plat msg. true;
  write_good = λ conn n. true;
  pack_json = λ m. some [];
  comet_id = codes "c1";
}

abbrev pub strict : Outside
strict = record out { auth = λ id plat token. false }

abbrev pub phone : Conn
phone = tcp (codes "10.0.0.1:4000")

abbrev pub new_phone : Conn
new_phone = tcp (codes "10.0.0.1:4001")

abbrev pub empty_comet : Comet (Storager RedisState)
empty_comet = record {
  ids = [];
  sessions = [];
  heap = [];
  store = storage;
  writes = 0;
  sent = [];
  closed = [];
  notified = [];
  apns = [];
}

-- Alice's session on a connection.
abbrev pub alice_on : Conn → ℕ → CometSession.Session
alice_on conn encode = record {
  id = alice;
  plat = 1;
  conn = conn;
  encode = encode;
  tid = 3;
  token = secret;
  trans = [];
}

-- A comet on which Alice came back on a second connection before the first one ended.
abbrev pub alice_key : Bytes
alice_key = session_key alice 1

abbrev pub twice : Comet (Storager RedisState)
twice = record empty_comet {
  ids = (codes "10.0.0.1:4000", alice_key) ∷ (codes "10.0.0.1:4001", alice_key) ∷ [];
  sessions = (alice_key, 1) ∷ [];
  heap = alice_on phone 0 ∷ alice_on new_phone 3 ∷ [];
}
