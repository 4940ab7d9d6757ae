-- ===== src/LogMng/Consistent.antt =====
-- The invariant of the log manager (demo/logMng/LogMng.c), over the steps of `writeLog` whose calls
-- succeed.
use embedded_linux_iot_gatew.Prelude.{
  text_eq, ℕ, suc, ◌≤◌, ◌<◌, ◌≡◌, refl, sym, ap, subst, ◌∙◌, ◌⊎◌, inl, inr, Bool, true, false,
  Option, none, some, List, [], ◌∷◌, ◌++◌, arith, length, leb, leb→le, map, Bool-cases,
  if◌then◌else◌,
}
use embedded_linux_iot_gatew.LogMng.{
  FileName, log_name, Layout, LogFile, LogHeadInfo, LogItem, LogWriteParam, Disk, update, LogMng,
  World, Answers, rotate, drop_oldest, close_file, write_head,
}
use embedded_linux_iot_gatew.LogMng.Journal
use embedded_linux_iot_gatew.LogMng.Journal.{
  has, Distinct, last, map-same, map-add_last, is_full_lem, has-last, last-append, has-append,
  Distinct-append,
}
use embedded_linux_iot_gatew.LogMng.Entries.{
  entries, InPlace, with_entry, entries-with_entry, next_head-InPlace,
}
use embedded_linux_iot_gatew.LogMng.Write.{AllOk, Put}

pub length-map {ℓ κ} :
    {A : Type ℓ} {B : Type κ} (f : A → B) (xs : List A) → length (map f xs) ≡ length xs
length-map f [] = refl
length-map f (x ∷ xs) = ap suc (length-map f xs)

limit-tail {ℓ} :
    {A : Type ℓ} (js : List (List A)) → 20 ≤ length js → Journal.limit js ≡ Journal.tail js
unfolding Journal.limit
limit-tail js h = ground arith

limit_of_lt {ℓ} : {A : Type ℓ} (js : List (List A)) → length js < 20 → Journal.limit js ≡ js
unfolding Journal.limit
limit_of_lt js h = ground arith

module _ (lay : Layout) where
  -- The entries of the files in the manager's list.
  abbrev pub journal : World → List (List (Option LogItem))
  journal w = map (λ n. entries lay (w.disk n)) w.mng.files

  -- The last file: the manager has its header, and it is open unless it is full.
  pub record Current (m : LogMng) (d : Disk) (n : FileName) : Type 0 where
    pub opened : (10 ≤ m.log_head.log_item_num) ⊎ (m.fd ≡ some n)
    pub file : LogFile
    pub on_disk : d n ≡ some file
    pub head_eq : file.head ≡ some m.log_head
    pub in_place : InPlace lay m.log_head

  -- The list counts the files, names each once, and none of its names will be given again.
  pub record Listed (m : LogMng) : Type 0 where
    pub counted : m.log_file_num ≡ length m.files
    pub bounded : m.log_file_num ≤ 20
    pub distinct : Distinct m.files
    pub fresh : (k : ℕ) → m.seq ≤ k → has (log_name k) m.files ≡ false

  pub record IsConsistent (w : World) : Type 0 where
    pub listed : Listed w.mng
    pub current : (n : FileName) → last w.mng.files ≡ some n → Current w.mng w.disk n

  module _ (a : Answers) (all : AllOk a) (p : LogWriteParam) (item : LogItem) where
    -- The entry goes to the file `n`, the last one of the list.
    module _ (w w' : World) (n : FileName) (h : LogHeadInfo) (f : LogFile) (l : Listed w.mng)
        (is_last : last w.mng.files ≡ some n) (is_open : w.mng.fd ≡ some n) (e : f.head ≡ some h)
        (i : InPlace lay h) (few : h.log_item_num < 10) (on_disk : w.disk n ≡ some f)
        (put : Put lay a all p item w n h f w') where
      pub put-Listed : Listed w'.mng
      put-Listed = subst Listed (sym put.mng_eq) (record {
        counted = l.counted;
        bounded = l.bounded;
        distinct = l.distinct;
        fresh = l.fresh;
      })

      pub put-Current : (k : FileName) → last w'.mng.files ≡ some k → Current w'.mng w'.disk k
      unfolding write_head
      put-Current =
          subst (λ m. (k : FileName) → last m.files ≡ some k → Current m w'.disk k) (sym put.mng_eq)
            (λ k is_k.
              let same : k ≡ n = cc (is_k, is_last) in
              record {
                opened = inr (is_open ∙ ap some (sym same));
                file = with_entry lay f p h item;
                on_disk = ap w'.disk same ∙ put.file;
                head_eq = refl;
                in_place = (next_head-InPlace lay p h i few).0;
              })

      pub put-journal : journal w' ≡ Journal.add_last (some item) (journal w)
      put-journal =
          ap (λ m. map (λ k. entries lay (w'.disk k)) m.files) put.mng_eq
          ∙ map-add_last (λ k. entries lay (w.disk k)) (λ k. entries lay (w'.disk k)) n
              (λ k o. ap (entries lay) (put.others k o)) (some item) w.mng.files is_last l.distinct
              (ap (entries lay) put.file
                ∙ entries-with_entry lay f p h item e i few
                ∙ ap (λ o. entries lay o ++ (some item ∷ [])) (sym on_disk))

  -- The world once there is room for one more file.
  pub record Rotated (w w' : World) : Type 0 where
    pub listed : Listed w'.mng
    pub small : w'.mng.log_file_num < 20
    pub seq_eq : w'.mng.seq ≡ w.mng.seq
    pub journal_eq : journal w' ≡ Journal.limit (journal w)

  spared :
      (b : Bool) (n : FileName) (d : Disk) (k : FileName)
      → text_eq n k ≡ false
      → entries lay ((if b then update d n none else d) k) ≡ entries lay (d k)
  unfolding update
  spared true n d k h = rw h
  spared false n d k h = refl

  module _ (a : Answers) where
    drop_oldest-Rotated :
        (w : World) (ks : List FileName)
        → w.mng.files ≡ ks
        → Listed w.mng
        → 20 ≤ w.mng.log_file_num
        → Rotated w (drop_oldest a ks w)
    unfolding drop_oldest Journal.limit
    drop_oldest-Rotated w [] e l many = absurd (omega (arith, l.counted, ap length e))
    drop_oldest-Rotated w (oldest ∷ rest) e l many =
        let d = rw e at l.distinct in
        let d' : Disk = if a.unlink_ok then update w.disk oldest none else w.disk in
        record {
          listed = record {
            counted = omega (arith, l.counted, ap length e);
            bounded = omega (arith, l.bounded);
            distinct = d.1;
            fresh = λ k h. ground (arith, l.fresh k h, ap (has (log_name k)) e);
          };
          small = omega (arith, l.bounded);
          seq_eq = refl;
          journal_eq =
              map-same (λ k. entries lay (w.disk k)) (λ k. entries lay (d' k)) oldest
                (λ k o. spared a.unlink_ok oldest w.disk k o) rest d.0
              ∙ sym (
                  limit-tail (journal w)
                    (omega (arith, l.counted, length-map (λ k. entries lay (w.disk k)) w.mng.files))
                  ∙ ap (λ ns. Journal.tail (map (λ k. entries lay (w.disk k)) ns)) e);
        }

    pub rotate-Rotated : (w : World) → Listed w.mng → Rotated w (rotate a (close_file w))
    unfolding rotate
    rotate-Rotated w l = elim (Bool-cases (leb 20 w.mng.log_file_num)) [
      | inl many ↦
          let r =
            drop_oldest-Rotated (close_file w) w.mng.files refl
              (record {
                counted = l.counted;
                bounded = l.bounded;
                distinct = l.distinct;
                fresh = l.fresh;
              })
              (leb→le _ _ many) in
          rw many (record {
            listed = r.listed;
            small = r.small;
            seq_eq = r.seq_eq;
            journal_eq = r.journal_eq;
          })
      | inr few ↦ rw few (record {
        listed = record {
          counted = l.counted;
          bounded = l.bounded;
          distinct = l.distinct;
          fresh = l.fresh;
        };
        small = ground arith;
        seq_eq = refl;
        journal_eq = sym (
            limit_of_lt (journal w)
              (ground (arith, l.counted, length-map (λ k. entries lay (w.disk k)) w.mng.files)));
      })
    ]
