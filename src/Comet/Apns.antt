-- ===== src/Comet/Apns.antt =====
-- comet/apns.go: a push for an iOS terminal that is not connected, handed to Apple's service. The
-- client of that service, the certificate and the configuration are parameters.
pub mod Laws
use galopush.Prelude.{
  ℕ, Bytes, codes, Bool, true, false, ◌==◌, if◌then◌else◌, List, [], ◌∷◌, ◌++◌, Option, none, some,
  get_elem?,
}
use galopush.Prelude.Int.{ℤ, pos, negsuc}
use galopush.Protocol.Json.{Json, num, str, obj, other, Fields, JsonLib, value_at}
use galopush.Comet.State.{ApnsRequest}

-- apns.Notification with its payload.
pub record Notification : Type 0 where
  pub device_token : Bytes
  pub badge : ℕ
  pub alert_title : Bytes
  pub alert_body : Bytes
  pub sound : Bytes
  pub msg_id : Bytes

-- What becomes of a call of client.Push: a response with its status, an error, or a panic.
pub data Reply : Type 0 where
  status : ℕ → Reply
  refused : Reply
  crashed : Reply

-- The reply to each try of sending a notification.
abbrev pub Client : Type 0
Client = ℕ → Notification → Reply

-- How a body of Go code ends: with a nil error, with an error, or in a panic.
pub data End : Type 0 where
  nil : End
  error : End
  panic : End

-- The end of a push, and the notifications that the service was called with.
pub record Attempt : Type 0 where
  pub end : End
  pub pushed : List Notification

-- What apns.go reads at its start: the certificate by file and password, and the two services.
pub record Setup (K : Type 0) : Type 0 where
  pub value : Bytes → Bytes
  pub atoi : Bytes → Option ℤ
  pub from_p12 : Bytes → Bytes → Option K
  pub development : K → Client
  pub production : K → Client

abbrev pub is_one : Option ℤ → Bool
is_one none = false
is_one (some (pos n)) = n == 1
is_one (some (negsuc n)) = false

-- init of apns.go: without a certificate there are neither a client nor sounds.
unfoldable pub init : {K : Type 0} → Setup K → Option Client
init setup =
    elim (setup.from_p12 (setup.value (codes "pemFile")) (setup.value (codes "password"))) [
      | none ↦ none
      | some cert ↦ some (
          if is_one (setup.atoi (setup.value (codes "development")))
          then setup.development cert
          else setup.production cert)
    ]

abbrev pub ios_sound : List Bytes
ios_sound = codes "default.mp3" ∷ codes "chatnotify.mp3" ∷ codes "tasknotify.mp3" ∷ []

-- `s, _ := v.(string)` and `n, _ := v.(float64)` with `int(n)`.
abbrev pub str_or_empty : Option Json → Bytes
str_or_empty none = []
str_or_empty (some (num z)) = []
str_or_empty (some (str s)) = s
str_or_empty (some (obj f)) = []
str_or_empty (some other) = []

abbrev pub num_or_zero : Option Json → ℤ
num_or_zero none = pos 0
num_or_zero (some (num z)) = z
num_or_zero (some (str s)) = pos 0
num_or_zero (some (obj f)) = pos 0
num_or_zero (some other) = pos 0

-- The notification that apnsPush composes: in a talk of two the sender is the title, and otherwise
-- the receiver is, with the sender before the text.
unfoldable pub compose : Bytes → Bytes → Fields → Notification
compose token sound m =
    let msg_id = str_or_empty (value_at (codes "MSG00101") m) in
    let content = str_or_empty (value_at (codes "MSG00109") m) in
    let sender = str_or_empty (value_at (codes "MSG00103") m) in
    let receiver = str_or_empty (value_at (codes "MSG00105") m) in
    let in_two = is_one (some (num_or_zero (value_at (codes "MSG00107") m))) in
    record {
      device_token = token;
      badge = 1;
      alert_title = if in_two then sender else receiver;
      alert_body = if in_two then content else sender ++ codes ":" ++ content;
      sound = sound;
      msg_id = msg_id;
    }

-- `res.StatusCode != 200`, a panic where there is no response.
unfoldable pub check_status : Option ℕ → End
check_status none = panic
check_status (some code) = if code == 200 then nil else error

-- apnsPushOnceMore and the check behind it: after a panic that it recovers there is neither a
-- response nor an error.
unfoldable pub apns_push_once_more : Reply → End
unfolding check_status
apns_push_once_more (status code) = check_status (some code)
apns_push_once_more refused = error
apns_push_once_more crashed = check_status none

-- What follows the first reply: a second try after an error, and a panic goes on.
unfoldable pub after_push : Client → Notification → Reply → Attempt
unfolding check_status apns_push_once_more
after_push client note (status code) = record { end = check_status (some code); pushed = note ∷ [] }
after_push client note refused = record {
  end = apns_push_once_more (client 1 note);
  pushed = note ∷ note ∷ [];
}
after_push client note crashed = record { end = panic; pushed = note ∷ [] }

abbrev pub send : Client → Notification → Attempt
send client note = after_push client note (client 0 note)

-- The body of apnsPush. Where there is no client there are no sounds either, and `iOSSound[flag]`
-- panics first.
unfoldable pub try_push : JsonLib → Option Client → ApnsRequest → Attempt
try_push lib client req = elim (lib.unmarshal req.body) [
  | none ↦ record { end = error; pushed = [] }
  | some m ↦ elim client [
    | none ↦ record { end = panic; pushed = [] }
    | some cli ↦ elim (get_elem? ios_sound req.flag) [
      | none ↦ record { end = panic; pushed = [] }
      | some sound ↦ send cli (compose req.token sound m)
    ]
  ]
]

-- `defer recover`: after a panic the error that is returned is nil.
abbrev pub recovered : End → End
recovered nil = nil
recovered error = error
recovered panic = nil

-- apnsPush
unfoldable pub apns_push : JsonLib → Option Client → ApnsRequest → Attempt
unfolding try_push
apns_push lib client req =
    let done = try_push lib client req in record { end = recovered done.end; pushed = done.pushed }

-- The notifications of a list of pushes, one goroutine after the other.
unfoldable pub apple_calls : JsonLib → Option Client → List ApnsRequest → List Notification
apple_calls lib client [] = []
apple_calls lib client (req ∷ rest) =
    (apns_push lib client req).pushed ++ apple_calls lib client rest
