-- ===== src/LogMng/Task.antt =====
-- The two ends of the log queue: `writeLogApi`, which any thread calls, and the round of
-- `logMngTask`, which one thread runs. The System V queue is a list; what `msgsnd` answers is an
-- argument, and a call that waits for a message is a step that changes nothing.
pub mod Delivery
use embedded_linux_iot_gatew.Prelude.{
  ℕ, Bool, Option, none, some, List, [], ◌∷◌, ◌++◌, ◌==◌, if◌then◌else◌,
}
use embedded_linux_iot_gatew.LogMng.{
  Layout, LogItem, LogWriteParam, World, Answers, Ret, success, failure, make_item, write_log,
}

-- `init_ok` is `init_result == 0`, which the caller sees once the initialisation is over.
pub write_log_api :
    (init_ok sent : Bool)
    → Option LogWriteParam
    → Option (List ℕ)
    → ℕ
    → List LogItem
    → List LogItem × Ret
write_log_api init_ok sent none text len queue = (queue, failure)
write_log_api init_ok sent (some p) none len queue = (queue, failure)
write_log_api init_ok sent (some p) (some text) len queue =
    if len == 0
    then (queue, failure)
    else (if init_ok
        then (if sent then (queue ++ (make_item p text len ∷ []), success) else (queue, failure))
        else (queue, failure))

abbrev pub param_of : LogItem → LogWriteParam
param_of item = record { major = item.major; minor = item.minor; time = item.time }

module _ (lay : Layout) where
  -- One round of the loop: the first message is taken, and its text goes to `writeLog`, whose result
  -- is dropped.
  pub log_mng_task_round : Answers → List LogItem → World → List LogItem × World
  log_mng_task_round a [] w = ([], w)
  log_mng_task_round a (item ∷ queue) w =
      let (w', _) = write_log lay a (some (param_of item)) (some item.info) item.info_len w in
      (queue, w')

-- What the threads do, one step after the other.
pub data Event : Type 0 where
  post : (init_ok sent : Bool) → LogWriteParam → List ℕ → ℕ → Event
  take_message : Answers → Event

module _ (lay : Layout) where
  pub run : List Event → List LogItem → World → List LogItem × World
  unfolding log_mng_task_round
  run [] queue w = (queue, w)
  run (post init_ok sent p text len ∷ es) queue w =
      let (queue', _) = write_log_api init_ok sent (some p) (some text) len queue in run es queue' w
  run (take_message a ∷ es) queue w =
      let (queue', w') = log_mng_task_round lay a queue w in run es queue' w'
