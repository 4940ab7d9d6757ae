-- ===== src/LogMng/Init/Names.antt =====
-- The names that `initLogMng` sorts and takes the largest number from.
use embedded_linux_iot_gatew.Prelude.{
  text_eq_iff, text_eq_refl, text_eq, ℕ, suc, ◌≤◌, ◌<◌, leb, ◌≡◌, refl, sym, ap, ◌∙◌, true, false,
  ◌||◌, Option, none, some, List, [], ◌∷◌, arith, length, inl, inr, Bool-cases,
}
use embedded_linux_iot_gatew.LogMng.{FileName, log_name}
use embedded_linux_iot_gatew.LogMng.Journal.{has, Distinct}
use embedded_linux_iot_gatew.LogMng.Init.{
  to_int, int_max, scan_log, insert_name, sort_names, name_le, max_of, next_seq,
}
use embedded_linux_iot_gatew.LogMng.Init.Parse.{scan_log-to_int}

module _ (n : FileName) where
  has-insert_name :
      (k : FileName) (ks : List FileName) → has k (insert_name n ks) ≡ (text_eq k n || has k ks)
  unfolding insert_name
  has-insert_name k [] = refl
  has-insert_name k (j ∷ ks) = ground (arith, has-insert_name k ks)

  Distinct-insert_name :
      (ks : List FileName) → Distinct ks → has n ks ≡ false → Distinct (insert_name n ks)
  unfolding insert_name
  Distinct-insert_name [] d h = (refl, tt)
  Distinct-insert_name (j ∷ ks) d h = elim (Bool-cases (name_le n j)) [
    | inl first ↦ rw first (h, d)
    | inr later ↦
        let other : text_eq j n ≡ false = ground (arith, (text_eq_iff j n).0, text_eq_refl n) in
        rw later
          (has-insert_name j ks ∙ ground (arith, d.0), Distinct-insert_name ks d.1 (ground arith))
  ]

  length-insert_name : (ks : List FileName) → length (insert_name n ks) ≡ suc (length ks)
  unfolding insert_name
  length-insert_name [] = refl
  length-insert_name (j ∷ ks) = ground (arith, length-insert_name ks)

pub has-sort_names : (k : FileName) (ns : List FileName) → has k (sort_names ns) ≡ has k ns
unfolding sort_names
has-sort_names k [] = refl
has-sort_names k (n ∷ ns) =
    has-insert_name n k (sort_names ns) ∙ ap (λ b. text_eq k n || b) (has-sort_names k ns)

pub Distinct-sort_names : (ns : List FileName) → Distinct ns → Distinct (sort_names ns)
unfolding sort_names
Distinct-sort_names [] d = tt
Distinct-sort_names (n ∷ ns) d =
    Distinct-insert_name n (sort_names ns) (Distinct-sort_names ns d.1) (has-sort_names n ns ∙ d.0)

pub length-sort_names : (ns : List FileName) → length (sort_names ns) ≡ length ns
unfolding sort_names
length-sort_names [] = refl
length-sort_names (n ∷ ns) = length-insert_name n (sort_names ns) ∙ ap suc (length-sort_names ns)

-- The largest number in the names, from a first one on.
unfoldable pub max_from : Option ℕ → List FileName → Option ℕ
max_from m [] = m
max_from m (n ∷ ns) = max_from (max_of m (scan_log n)) ns

max_of-le : (m : Option ℕ) (o : Option (Option ℕ)) → next_seq m ≤ next_seq (max_of m o)
max_of-le m none = omega arith
max_of-le m (some none) = omega arith
max_of-le none (some (some s)) = omega arith
max_of-le (some k) (some (some s)) = ground arith

max_of-lt : (m : Option ℕ) (s : ℕ) → s < next_seq (max_of m (some (some s)))
max_of-lt none s = omega arith
max_of-lt (some k) s = ground arith

max_from-le : (m : Option ℕ) (ns : List FileName) → next_seq m ≤ next_seq (max_from m ns)
unfolding max_from
max_from-le m [] = omega arith
max_from-le m (n ∷ ns) =
    omega (arith, max_of-le m (scan_log n), max_from-le (max_of m (scan_log n)) ns)

-- The numbers in the names have a next one that is an `int`.
abbrev pub AllBelow : List FileName → Type 0
AllBelow ns = (n : FileName) → has n ns ≡ true → (s : ℕ) → scan_log n ≡ some (some s) → s < int_max

AllBelow-tail : (n : FileName) (ns : List FileName) → AllBelow (n ∷ ns) → AllBelow ns
AllBelow-tail n ns below k h s read = below k (ground arith) s read

to_int-lt : (k : ℕ) → to_int k < int_max → to_int k ≡ k
to_int-lt k h = elim (Bool-cases (leb k int_max)) [
  | inl fits ↦ rw fits refl
  | inr wide ↦ let e : to_int k ≡ int_max = rw wide refl in absurd (omega (arith, e, h))
]

pub max_from-lt :
    (m : Option ℕ) (ns : List FileName) (k : ℕ)
    → AllBelow ns
    → has (log_name k) ns ≡ true
    → k < next_seq (max_from m ns)
unfolding max_from
max_from-lt m [] k below h = cc
max_from-lt m (n ∷ ns) k below h = elim (Bool-cases (text_eq (log_name k) n)) [
  | inl here ↦
      let same = (text_eq_iff (log_name k) n).0 here in
      let int : scan_log n ≡ some (some (to_int k)) = ap scan_log (sym same) ∙ scan_log-to_int k in
      let inside : has n (n ∷ ns) ≡ true = ground (arith, text_eq_refl n) in
      let value = to_int-lt k (below n inside (to_int k) int) in
      let read : scan_log n ≡ some (some k) = int ∙ ap (λ v. some (some v)) value in
      rw read (omega (arith, max_of-lt m k, max_from-le (max_of m (some (some k))) ns))
  | inr later ↦ max_from-lt (max_of m (scan_log n)) ns k (AllBelow-tail n ns below) (ground arith)
]

max_of-small :
    (m : Option ℕ) (o : Option (Option ℕ))
    → next_seq m ≤ int_max
    → ((s : ℕ) → o ≡ some (some s) → s < int_max)
    → next_seq (max_of m o) ≤ int_max
max_of-small m none h below = h
max_of-small m (some none) h below = h
max_of-small none (some (some s)) h below = omega (arith, below s refl)
max_of-small (some k) (some (some s)) h below = let less = below s refl in ground arith

-- The next number is an `int`.
pub max_from-small :
    (m : Option ℕ) (ns : List FileName)
    → next_seq m ≤ int_max
    → AllBelow ns
    → next_seq (max_from m ns) ≤ int_max
unfolding max_from
max_from-small m [] h below = h
max_from-small m (n ∷ ns) h below =
    let inside : has n (n ∷ ns) ≡ true = ground (arith, text_eq_refl n) in
    max_from-small (max_of m (scan_log n)) ns (max_of-small m (scan_log n) h (below n inside))
      (AllBelow-tail n ns below)
