-- ===== src/Buffer/Tests.antt =====
-- A small buffer that moves its bytes and then grows.
use embedded_linux_iot_gatew.Prelude.{
  ◌≡◌, refl, Option, none, some, List, [], ◌∷◌, Text, arith, memcpy, memmove_down,
}
use embedded_linux_iot_gatew.Buffer.{
  Buffer, new_buffer, retrieve, retrieve_until, make_space, ensure_writeable, copy_in, append,
  read_fd,
}
use embedded_linux_iot_gatew.Buffer.Refine.{unread}
use embedded_linux_iot_gatew.Buffer.Runs.{
  Op, appends, receives, retrieves, retrieves_until, perform_all, perform_text_all, Agrees,
  perform_all-Agrees,
}

abbrev ops : List Op
ops =
    appends (1 ∷ 2 ∷ 3 ∷ [])
    ∷ retrieves 1
    ∷ retrieves_until 1
    ∷ receives (4 ∷ 5 ∷ [])
    ∷ appends (6 ∷ 7 ∷ 8 ∷ [])
    ∷ []

perform_all-Agrees_example :
    Agrees (perform_all ops (new_buffer 4)) (perform_text_all ops (unread (new_buffer 4)))
perform_all-Agrees_example =
    perform_all-Agrees ops (new_buffer 4) (record { ordered = omega arith; within = omega arith })

abbrev text_of : Option Buffer → Text
text_of none = []
text_of (some b) = unread b

holds_six : text_of (perform_all ops (new_buffer 4)) ≡ 3 ∷ 4 ∷ 5 ∷ 6 ∷ 7 ∷ 8 ∷ []
unfolding append read_fd retrieve retrieve_until copy_in ensure_writeable make_space memcpy
    memmove_down
holds_six = refl
