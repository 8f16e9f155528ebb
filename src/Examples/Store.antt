-- ===== src/Examples/Store.antt =====
-- The store of offline messages, at Alice's phone.
use galopush.Prelude.{◌≡◌, refl, codes, [], ◌∷◌, some, ◌=ₛ◌}
use galopush.Prelude.Assoc.{lookup}
use galopush.Rds.Defs.{Push}
use galopush.Rds.Store.{first_plat, find_sessions, copy_box, save_sessions, marshal}
use galopush.Rds.Messages.{
  save_callback_msg, get_push_msg, get_callback_msg, get_push_found, terminal_of, terminals,
  change_item, read_push,
}
use galopush.Rds.Offline.{get_push_msg_empty}
use galopush.Rds.Fetch.{OneMore, get_callback_msg-save_callback_msg}
use galopush.Examples.Data.{alice, alice_phone, item, redis, storage, alice_held}

-- GetPushMsg finds Alice's push, and what its caller sees is empty.
push_found : (get_push_msg redis storage alice 1).0 ≡ some (record { off_cnt = 0; msg = [] })
unfolding get_push_msg get_push_found find_sessions copy_box save_sessions terminal_of terminals
    first_plat change_item read_push marshal lookup ◌=ₛ◌
push_found = refl

get_push_msg_empty_example :
    ◌≡◌ {A = Push} (record { off_cnt = 0; msg = [] }) (record { off_cnt = 0; msg = [] })
get_push_msg_empty_example = get_push_msg_empty redis storage alice 1 push_found

get_callback_msg-save_callback_msg_example :
    let saved = save_callback_msg redis storage alice 1 (codes "b") in
    let fetched = get_callback_msg redis saved alice 1 in
    OneMore (codes "b") (item (codes "a") ∷ []) fetched.0
    × ((get_callback_msg redis fetched.1 alice 1).0 ≡ [])
get_callback_msg-save_callback_msg_example =
    get_callback_msg-save_callback_msg redis storage alice 1 (0 ∷ []) 0 alice_phone alice_held
      (codes "b")
