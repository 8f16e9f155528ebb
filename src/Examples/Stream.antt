-- ===== src/Examples/Stream.antt =====
-- The TCP loop, the session keys and the transactions, at concrete values.
use galopush.Prelude.{
  All, length, ◌≤◌, ℕ, ◌≡◌, refl, Bytes, codes, true, List, [], ◌∷◌, none, some, arith,
}
use galopush.Protocol.Message.{Message, im_up, register, header}
use galopush.Protocol.Head.{get_msg_type, get_encode}
use galopush.Protocol.Binary.RoundTrip.{plain_body}
use galopush.Comet.Session.{Transaction, Session, tcp, destroy, expire, get_trans}
use galopush.Comet.Session.Laws.{expire-destroy}
use galopush.Comet.Session.Check.{Watched, watch, stopped, Steps}
use galopush.Comet.Session.Check.Laws.{Steps-saved_once}
use galopush.Comet.Session.Check.Race.{overtaken, overtaken-Steps}
use galopush.Comet.Tcp.{remain, read_frame, serve, handle_tcp_conn}
use galopush.Comet.Tcp.Frames.{IsSendable}
use galopush.Comet.Tcp.Typed.{IsTyped, serve-IsTyped}
use galopush.Comet.Tcp.Stream.{handle_tcp_conn-serve, pack_all, serve-pack_all, read_frame_short}
use galopush.Examples.Data.{alice, secret, im_head, beat_head, reg_head, long, alice_form}

abbrev hello : Message
hello = im_up im_head (long 3) (104 ∷ 105 ∷ 33 ∷ [])

abbrev beat : Message
beat = header beat_head

abbrev joins : Message
joins = register reg_head (long 66) alice_form

hello_good : IsSendable hello
unfolding get_msg_type plain_body get_encode
hello_good = (
  (refl, omega arith),
  record {
    head_fits = record { line_fits = omega arith; tid_fits = omega arith };
    len_fits = omega arith;
    exact = refl;
    bytes = (omega arith, (omega arith, (omega arith, tt)));
    no_empty_ring = λ e. omega arith;
  },
)

beat_good : IsSendable beat
unfolding get_msg_type
beat_good = (record { line_fits = omega arith; tid_fits = omega arith }, refl)

abbrev noise : List Bytes
noise = (3 ∷ 0 ∷ 0 ∷ []) ∷ (1 ∷ 2 ∷ []) ∷ []

handle_tcp_conn-serve_example : handle_tcp_conn 9 noise ≡ some (serve 7 noise)
handle_tcp_conn-serve_example = handle_tcp_conn-serve 9 7 noise (omega arith) (omega arith)

serve-IsTyped_example : All IsTyped (serve 9 noise)
serve-IsTyped_example =
    serve-IsTyped 9 noise
      ((omega arith, (omega arith, (omega arith, tt))), ((omega arith, (omega arith, tt)), tt))

serve-pack_all_example :
    (stream : Bytes) × (pack_all (hello ∷ beat ∷ hello ∷ []) ≡ some stream)
    × (serve 5 (remain stream []) ≡ hello ∷ beat ∷ hello ∷ [])
serve-pack_all_example =
    serve-pack_all (hello ∷ beat ∷ hello ∷ []) 5 (hello_good, (beat_good, (hello_good, tt)))
      (omega arith)

read_frame_short_example :
    read_frame ((3 ∷ []) ∷ (0 ∷ 0 ∷ 1 ∷ 2 ∷ []) ∷ [])
    ≡ some (record {
      cached = some (header (record { line = 3; tid = 0 }));
      stream = (0 ∷ 0 ∷ 1 ∷ 2 ∷ []) ∷ [];
    })
read_frame_short_example =
    read_frame_short beat_head ((0 ∷ 0 ∷ 1 ∷ 2 ∷ []) ∷ []) beat_good.0 beat_good.1

abbrev pending : ℕ → ℕ → Transaction
pending n t = record { tid = n; msg_type = t; msg = codes "hi"; running = true }

abbrev busy : Session
busy = record {
  id = alice;
  plat = 1;
  conn = tcp (codes "10.0.0.1:4000");
  encode = 0;
  tid = 5;
  token = secret;
  trans = pending 4 5 ∷ pending 5 7 ∷ [];
}

-- The state in which an answer to the callback 5 came while its timeout saved it, and a second answer
-- after that.
abbrev caught : Watched
caught = overtaken (pending 5 7) busy

abbrev caught_again : Watched
caught_again = record caught { sess = stopped 5 caught.sess; answering = 1 }

busy_catches : Steps (pending 5 7) (watch busy) caught
unfolding get_trans
busy_catches = overtaken-Steps (pending 5 7) busy refl refl

Steps-saved_once_example : length caught.saved ≤ 1
Steps-saved_once_example = Steps-saved_once (pending 5 7) busy_catches

expire-destroy_example : expire (destroy busy) 5 ≡ none
expire-destroy_example = expire-destroy busy 5
