-- ===== src/LogMng/Task/Delivery.antt =====
-- The interleavings of `writeLogApi` and the consumer's rounds (demo/logMng/LogMng.c), and the
-- entries on their way from the callers to the journal.
use embedded_linux_iot_gatew.Prelude.{
  ℕ, ◌+◌, ◌-◌, ◌≤◌, ◌<◌, ◌^◌, ◌≡◌, refl, sym, ap, ◌∙◌, inl, inr, Bool, true, false, not, some, List,
  [], ◌∷◌, ◌++◌, arith, length, take, replicate, ◌==◌, if◌then◌else◌, ◌&&◌, Bool-cases, length-take,
  take-take, take-append_le, append-nil, append_assoc, Option,
}
use embedded_linux_iot_gatew.LogMng.{
  Layout, LogItem, LogWriteParam, World, success, failure, make_item, copy_len, log_info_len,
}
use embedded_linux_iot_gatew.LogMng.Journal
use embedded_linux_iot_gatew.LogMng.Write.{AllOk}
use embedded_linux_iot_gatew.LogMng.Consistent.{journal, IsConsistent}
use embedded_linux_iot_gatew.LogMng.Refine.{write_log-append}
use embedded_linux_iot_gatew.LogMng.Task.{write_log_api, param_of, Event, post, take_message, run}

copy_len_again : (len : ℕ) → copy_len (copy_len len) ≡ copy_len len
unfolding copy_len
copy_len_again len = ground arith

copy_len-le : (len : ℕ) → copy_len len ≤ len
unfolding copy_len
copy_len-le len = ground arith

copy_len-pos : (len : ℕ) → 0 < len → 0 < copy_len len
unfolding copy_len
copy_len-pos len h = ground arith

take_again :
    (c : ℕ) (text zeros : List ℕ) → c ≤ length text → take c (take c text ++ zeros) ≡ take c text
take_again c text zeros h =
    take-append_le c (take c text) zeros (omega (arith, length-take c text))
    ∙ take-take c c text (omega arith)

-- An entry whose text is not cut again on its way to the disk.
abbrev IsCut : LogItem → Type 0
IsCut item = (0 < item.info_len) × (make_item (param_of item) item.info item.info_len ≡ item)

make_item-IsCut :
    (p : LogWriteParam) (text : List ℕ) (len : ℕ)
    → len ≤ length text
    → 0 < len
    → IsCut (make_item p text len)
unfolding make_item
make_item-IsCut p text len h pos = (
  copy_len-pos len pos,
  rw (
    copy_len_again len,
    take_again (copy_len len) text (replicate (log_info_len - copy_len len) 0)
        (omega (arith, copy_len-le len)),
  ),
)

abbrev AllCut : List LogItem → Type 0
AllCut [] = Unit
AllCut (item ∷ items) = IsCut item × AllCut items

AllCut-append : (xs : List LogItem) (x : LogItem) → AllCut xs → IsCut x → AllCut (xs ++ (x ∷ []))
AllCut-append [] x all one = (one, tt)
AllCut-append (y ∷ xs) x all one = (all.0, AllCut-append xs x all.1 one)

-- The entries that `writeLogApi` accepted.
pub accepted : List Event → List LogItem
accepted [] = []
accepted (post init_ok sent p text len ∷ es) =
    if init_ok && sent && not (len == 0) then make_item p text len ∷ accepted es else accepted es
accepted (take_message a ∷ es) = accepted es

-- The text behind each pointer is as long as the call says, and the consumer's system calls succeed.
abbrev pub IsSound : List Event → Type 0
IsSound [] = Unit
IsSound (post init_ok sent p text len ∷ es) = (len ≤ length text) × IsSound es
IsSound (take_message a ∷ es) = AllOk a × IsSound es

abbrev pub append_all : List LogItem → List (List (Option LogItem)) → List (List (Option LogItem))
append_all [] js = js
append_all (item ∷ items) js = append_all items (Journal.append (some item) js)

module _ (init_ok sent : Bool) (p : LogWriteParam) (text : List ℕ) (len : ℕ)
    (queue : List LogItem) where
  api_accepts :
      (init_ok && sent && not (len == 0)) ≡ true
      → write_log_api init_ok sent (some p) (some text) len queue
        ≡ (queue ++ (make_item p text len ∷ []), success)
  unfolding write_log_api
  api_accepts h = ground arith

  api_refuses :
      (init_ok && sent && not (len == 0)) ≡ false
      → write_log_api init_ok sent (some p) (some text) len queue ≡ (queue, failure)
  unfolding write_log_api
  api_refuses h = ground arith

module _ (lay : Layout) where
  -- What has been taken from the queue is in the journal, and the rest is still queued.
  abbrev Delivers : List LogItem → World → List LogItem × World → Type 0
  Delivers all w (queue, w') =
      (done : List LogItem) × (done ++ queue ≡ all)
      × IsConsistent lay w'
      × (journal lay w' ≡ append_all done (journal lay w))

  run-Delivers :
      (es : List Event) (queue : List LogItem) (w : World)
      → IsConsistent lay w
      → IsSound es
      → AllCut queue
      → w.mng.seq + length es < 2 ^ 31
      → Delivers (queue ++ accepted es) w (run lay es queue w)
  unfolding run accepted
  run-Delivers [] queue w c s cut small = ([], sym (append-nil queue), c, refl)
  run-Delivers (post init_ok sent p text len ∷ es) queue w c s cut small =
      elim (Bool-cases (init_ok && sent && not (len == 0))) [
        | inl yes' ↦
            let pos : 0 < len = ground arith in
            let (done, split, c', js) =
              run-Delivers es (queue ++ (make_item p text len ∷ [])) w c s.1
                (AllCut-append queue _ cut (make_item-IsCut p text len s.0 pos)) (omega arith) in
            rw (yes', api_accepts init_ok sent p text len queue yes', run)
              (done, split ∙ append_assoc queue (make_item p text len ∷ []) (accepted es), c', js)
        | inr no' ↦
            rw (no', api_refuses init_ok sent p text len queue no', run)
              (run-Delivers es queue w c s.1 cut (omega arith))
      ]
  run-Delivers (take_message a ∷ es) [] w c s cut small =
      run-Delivers es [] w c s.1 tt (omega arith)
  run-Delivers (take_message a ∷ es) (item ∷ queue) w c s cut small =
      let (w1, wrote, kept, seq, eq) =
        write_log-append lay a (param_of item) item.info item.info_len w s.0 c (omega arith)
          cut.0.0 in
      let (done, split, c', js) = run-Delivers es queue w1 kept s.1 cut.1 (omega arith) in
      rw (wrote, run)
        (
          item ∷ done,
          ap (λ t. item ∷ t) split,
          c',
          js
              ∙ ap (append_all done)
                  (eq ∙ ap (λ i. Journal.append (some i) (journal lay w)) cut.0.1),
        )

  -- However calls of `writeLogApi` and rounds of the consumer interleave, from an empty queue and a
  -- consistent state, with texts as long as their callers say and system calls that succeed in the
  -- consumer: the entries that were accepted are, in the order of acceptance, first those in the
  -- journal, each appended once, and then those in the queue. The state stays consistent.
  pub run_delivers :
      (es : List Event) (w : World)
      → IsConsistent lay w
      → IsSound es
      → w.mng.seq + length es < 2 ^ 31
      → let (queue, w') = run lay es [] w in
        (done : List LogItem) × (done ++ queue ≡ accepted es)
        × IsConsistent lay w'
        × (journal lay w' ≡ append_all done (journal lay w))
  run_delivers es w c s small = run-Delivers es [] w c s tt small
