-- ===== src/LogMng/Refine.antt =====
-- `writeLog` (demo/logMng/LogMng.c) and the journal: calls in which the system calls succeed.
use embedded_linux_iot_gatew.Prelude.{
  text_eq_iff, ℕ, ◌+◌, ◌^◌, ◌≤◌, ◌<◌, ◌≡◌, refl, sym, ap, ap₂, subst, ◌∙◌, inl, inr, true, false,
  none, some, List, [], ◌∷◌, ◌++◌, arith, length, leb, map, Bool-cases, Option-cases, ◌==◌,
  length-append,
}
use embedded_linux_iot_gatew.LogMng.{
  FileName, log_name, Layout, LogFile, LogHeadInfo, LogItem, LogWriteParam, Disk, LogMng, World,
  Answers, success, Ret, first_head, put_item, new_file, rotate, close_file, needs_new_file,
  write_opened, write_log, make_item,
}
use embedded_linux_iot_gatew.LogMng.Name.Laws.{log_name-injective}
use embedded_linux_iot_gatew.LogMng.Journal
use embedded_linux_iot_gatew.LogMng.Journal.{
  has, Distinct, last, map-same, is_full_lem, last-append, has-append, Distinct-append,
}
use embedded_linux_iot_gatew.LogMng.Entries.{entries, head_entries, InPlace, slots, length-slots}
use embedded_linux_iot_gatew.LogMng.Write.{AllOk, put_item-Put, Begun, new_file-Begun}
use embedded_linux_iot_gatew.LogMng.Consistent.{
  journal, Current, Listed, IsConsistent, put-Listed, put-Current, put-journal, rotate-Rotated,
}

last-none : (ks : List FileName) → last ks ≡ none → ks ≡ []
last-none [] h = refl
last-none (k ∷ []) h = cc
last-none (k ∷ j ∷ ks) h = cc (last-none (j ∷ ks) h)

last-pos : (ks : List FileName) {n : FileName} → last ks ≡ some n → 0 < length ks
last-pos [] h = cc
last-pos (k ∷ ks) h = omega arith

append-room {ℓ} :
    {A : Type ℓ} (x : A) (js : List (List A))
    → Journal.is_full js ≡ false
    → Journal.append x js ≡ Journal.add_last x js
unfolding Journal.append
append-room x js h = rw h

append-full {ℓ} :
    {A : Type ℓ} (x : A) (js : List (List A))
    → Journal.is_full js ≡ true
    → Journal.append x js ≡ Journal.limit js ++ ((x ∷ []) ∷ [])
unfolding Journal.append
append-full x js h = rw h

add_last-append {ℓ} :
    {A : Type ℓ} (x : A) (js : List (List A))
    → Journal.add_last x (js ++ ([] ∷ [])) ≡ js ++ ((x ∷ []) ∷ [])
unfolding Journal.add_last
add_last-append x [] = refl
add_last-append x (f ∷ []) = refl
add_last-append x (f ∷ g ∷ js) = ap (λ t. f ∷ t) (add_last-append x (g ∷ js))

map-append_one {ℓ κ} :
    {A : Type ℓ} {B : Type κ} (e : A → B) (ks : List A) (n : A)
    → map e (ks ++ (n ∷ [])) ≡ map e ks ++ (e n ∷ [])
map-append_one e [] n = refl
map-append_one e (k ∷ ks) n = ap (λ t. e k ∷ t) (map-append_one e ks n)

module _ (lay : Layout) where
  length-entries :
      (m : LogMng) (d : Disk) (n : FileName)
      → Current lay m d n
      → length (entries lay (d n)) ≡ m.log_head.log_item_num
  unfolding entries
  length-entries m d n c =
      ap (λ o. length (entries lay o)) c.on_disk
      ∙ ap (λ o. length (head_entries lay c.file o)) c.head_eq
      ∙ length-slots lay.item_size c.file.item_at lay.head_size m.log_head.log_item_num

  -- The manager asks for a new file when the journal says that there is no room.
  is_full-needs_new_file :
      (w : World) → IsConsistent lay w → Journal.is_full (journal lay w) ≡ needs_new_file w.mng
  unfolding needs_new_file Journal.is_full
  is_full-needs_new_file w c = elim (Option-cases (last w.mng.files)) [
    | inl e ↦
        let empty : w.mng.files ≡ [] = last-none w.mng.files e in
        ap (λ ks. Journal.is_full (map (λ k. entries lay (w.disk k)) ks)) empty
        ∙ ground (arith, c.listed.counted, ap length empty)
    | inr (n, e) ↦
        is_full_lem (λ k. entries lay (w.disk k)) n w.mng.files e
        ∙ ap (leb 10) (length-entries w.mng w.disk n (c.current n e))
        ∙ ground (arith, c.listed.counted, last-pos w.mng.files e)
  ]

  first_head-InPlace : (p : LogWriteParam) → InPlace lay (first_head lay p)
  first_head-InPlace p = record { few = omega arith; place = omega arith }

  -- With room, there is a last file, and it is open.
  pub open_last :
      (w : World)
      → IsConsistent lay w
      → needs_new_file w.mng ≡ false
      → (n : FileName) × (last w.mng.files ≡ some n)
        × (w.mng.fd ≡ some n)
        × (w.mng.log_head.log_item_num < 10)
  unfolding needs_new_file
  open_last w c room = elim (Option-cases (last w.mng.files)) [
    | inl e ↦ absurd (ground (arith, c.listed.counted, ap length (last-none w.mng.files e)))
    | inr (n, e) ↦ let cur = c.current n e in (n, e, ground (arith, cur.opened), ground arith)
  ]

  module _ (a : Answers) (all : AllOk a) (p : LogWriteParam) (item : LogItem) where
    -- The entry goes to the open file `n`, the last one, which has room.
    put_last :
        (w : World) (n : FileName) (h : LogHeadInfo) (f : LogFile)
        → Listed lay w.mng
        → last w.mng.files ≡ some n
        → w.mng.fd ≡ some n
        → f.head ≡ some h
        → InPlace lay h
        → h.log_item_num < 10
        → w.disk n ≡ some f
        → (w' : World) × (put_item lay a p item w.mng.fd h w ≡ (w', success))
          × IsConsistent lay w'
          × (w'.mng.seq ≡ w.mng.seq)
          × (journal lay w' ≡ Journal.add_last (some item) (journal lay w))
    put_last w n h f l is_last is_open e i few on_disk =
        let (w', run, put) = put_item-Put lay a all p item w n h f on_disk in
        (
          w',
          ap (λ o. put_item lay a p item o h w) is_open ∙ run,
          record {
            listed = put-Listed lay a all p item w w' n h f l is_last is_open e i few on_disk put;
            current = put-Current lay a all p item w w' n h f l is_last is_open e i few on_disk put;
          },
          ap (λ m. m.seq) put.mng_eq,
          put-journal lay a all p item w w' n h f l is_last is_open e i few on_disk put,
        )

    -- The outcome that the theorem below speaks of.
    abbrev Appends : World → World × Ret → Type 0
    Appends w out =
        (w' : World) × (out ≡ (w', success))
        × IsConsistent lay w'
        × (w'.mng.seq ≤ w.mng.seq + 1)
        × (journal lay w' ≡ Journal.append (some item) (journal lay w))

    put-Appends :
        (w : World)
        → IsConsistent lay w
        → needs_new_file w.mng ≡ false
        → Appends w (put_item lay a p item w.mng.fd w.mng.log_head w)
    put-Appends w c room =
        let (n, e, is_open, few) = open_last w c room in
        let cur = c.current n e in
        let (w', run, kept, seq_eq, eq) =
          put_last w n w.mng.log_head cur.file c.listed e is_open cur.head_eq cur.in_place few
            cur.on_disk in
        (
          w',
          run,
          kept,
          omega (arith, seq_eq),
          eq ∙ sym (append-room (some item) (journal lay w) (is_full-needs_new_file w c ∙ room)),
        )

    Begun-Listed :
        {w w' : World}
        → Begun lay p w w'
        → Listed lay w.mng
        → w.mng.log_file_num < 20
        → Listed lay w'.mng
    Begun-Listed {w} b l small = subst (Listed lay) (sym b.mng_eq) (record {
      counted = omega (arith, l.counted, length-append w.mng.files (log_name w.mng.seq ∷ []));
      bounded = omega arith;
      distinct = Distinct-append w.mng.files _ l.distinct (l.fresh w.mng.seq (omega arith));
      fresh = λ k later. ground (
        arith,
        has-append (log_name k) w.mng.files (log_name w.mng.seq),
        l.fresh k,
        (text_eq_iff (log_name k) (log_name w.mng.seq)).0,
        log_name-injective k w.mng.seq,
      );
    })

    Begun-journal :
        {w w' : World}
        → Begun lay p w w'
        → Listed lay w.mng
        → journal lay w' ≡ journal lay w ++ ([] ∷ [])
    unfolding entries slots
    Begun-journal {w} {w'} b l =
        let n = log_name w.mng.seq in
        ap (λ m. map (λ k. entries lay (w'.disk k)) m.files) b.mng_eq
        ∙ map-append_one (λ k. entries lay (w'.disk k)) w.mng.files n
        ∙ ap₂ (λ js f. js ++ (f ∷ []))
            (map-same (λ k. entries lay (w.disk k)) (λ k. entries lay (w'.disk k)) n
              (λ k o. ap (entries lay) (b.others k o)) w.mng.files
              (l.fresh w.mng.seq (omega arith)))
            (ap (entries lay) b.on_disk ∙ ap (head_entries lay b.file) b.head_eq)

    begin-Appends :
        (w : World)
        → IsConsistent lay w
        → w.mng.seq < 2 ^ 31
        → needs_new_file w.mng ≡ true
        → Appends w (write_opened lay a p item (new_file lay a p (rotate a (close_file w))))
    unfolding write_opened
    begin-Appends w c small full =
        let r = rotate-Rotated lay a w c.listed in
        let w1 : World = rotate a (close_file w) in
        let (w2, begun, b) = new_file-Begun lay p a w1 all.opening (omega (arith, r.seq_eq)) in
        let l = Begun-Listed b r.listed r.small in
        let (w', run, kept, seq_eq, eq) =
          put_last w2 (log_name w1.mng.seq) (first_head lay p) b.file l
            (ap (λ m. last m.files) b.mng_eq ∙ last-append w1.mng.files (log_name w1.mng.seq))
            (ap (λ m. m.fd) b.mng_eq) b.head_eq (first_head-InPlace p) (omega arith) b.on_disk in
        (
          w',
          ap (write_opened lay a p item) begun ∙ run,
          kept,
          omega (arith, seq_eq, ap (λ m. m.seq) b.mng_eq, r.seq_eq),
          eq
              ∙ ap (Journal.add_last (some item)) (Begun-journal b r.listed)
              ∙ add_last-append (some item) (journal lay w1)
              ∙ ap (λ js. js ++ ((some item ∷ []) ∷ [])) r.journal_eq
              ∙ sym (append-full (some item) (journal lay w) (is_full-needs_new_file w c ∙ full)),
        )

  -- Where every call succeeds, `writeLog` with some text returns 0, keeps the manager's state and the
  -- disk consistent (at most 20 files, each once in the list, the header in memory that of the last
  -- file), uses at most one new file number, and appends the entry to the journal: behind the last entry if the last file has room, and
  -- else as the first one of a new file, for which the oldest of 20 files goes.
  pub write_log-append :
      (a : Answers) (p : LogWriteParam) (text : List ℕ) (len : ℕ) (w : World)
      → AllOk a
      → IsConsistent lay w
      → w.mng.seq < 2 ^ 31
      → 0 < len
      → (w' : World) × (write_log lay a (some p) (some text) len w ≡ (w', success))
        × IsConsistent lay w'
        × (w'.mng.seq ≤ w.mng.seq + 1)
        × (journal lay w' ≡ Journal.append (some (make_item p text len)) (journal lay w))
  unfolding write_log write_opened
  write_log-append a p text len w all c small some_text =
      let test : (len == 0) ≡ false = ground arith in
      elim (Bool-cases (needs_new_file w.mng)) [
        | inl full ↦ rw (test, full) (begin-Appends a all p (make_item p text len) w c small full)
        | inr room ↦ rw (test, room) (put-Appends a all p (make_item p text len) w c room)
      ]
