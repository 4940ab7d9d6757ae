-- ===== src/UserStore/Tests.antt =====
-- A file of accounts, and a database that is the map itself.
use embedded_linux_iot_gatew.Prelude.{
  ℕ, ◌≡◌, refl, true, false, ◌&&◌, Bool-cases, inl, inr, subst, unsome, no_result, Option, none,
  some, [], ◌∷◌, if◌then◌else◌, Text, text_eq,
}
use embedded_linux_iot_gatew.UserStore.{
  Users, assign, verify, account, load_line, load_lines, load_from_file,
}
use embedded_linux_iot_gatew.UserStore.Words.{next_word, some_word, span_word, skip_space, lines}
use embedded_linux_iot_gatew.UserStore.Database.{
  c_str, fails, completes, Sqlite, IsSqlite, sql_verify, sql_verify_in,
}
use embedded_linux_iot_gatew.UserStore.Verify.{
  Agrees, may_log_in, verify-register, sql_verify-verify,
}

insert_new : Users → (name pwd : Text) → Option Text → Users × ℕ
insert_new users name pwd none = (assign users name pwd, 1)
insert_new users name pwd (some stored) = (users, 0)

-- With the number of rows that the last insertion has added.
abbrev map_sql : Sqlite
map_sql = record {
  Db = Users × ℕ;
  select = λ d n. d.0 n;
  insert = λ d name pwd. insert_new d.0 name pwd (d.0 name);
  changes = λ d. d.1;
}

map_sql-IsSqlite : IsSqlite map_sql
unfolding insert_new assign
map_sql-IsSqlite = record {
  inserted = λ d name pwd n absent. rw absent refl;
  counted = λ d name pwd absent. rw absent refl;
  ignored = λ d name pwd stored n present. rw present refl;
  not_counted = λ d name pwd stored present. rw present refl;
}

-- "ab" has the password "x".
abbrev ab_users : Users
ab_users n = if text_eq n (b'a' ∷ b'b' ∷ []) then some (b'x' ∷ []) else none

abbrev cd : Text
cd = b'c' ∷ b'd' ∷ []

verify-register_example :
    let done = (verify ab_users cd (b'y' ∷ []) false).0 in
    let after = (verify ab_users cd (b'y' ∷ []) false).1 in
    (done ≡ true)
    × ((n p : Text)
        → may_log_in after n p
          ≡ (if done && text_eq n cd then text_eq (b'y' ∷ []) p else may_log_in ab_users n p))
unfolding text_eq
verify-register_example = verify-register ab_users cd (b'y' ∷ []) refl refl

ab_users_plain : (n p : Text) → ab_users n ≡ some p → c_str p ≡ p
ab_users_plain n p e = elim (Bool-cases (text_eq n (b'a' ∷ b'b' ∷ []))) [
  | inl named ↦ subst (λ q. c_str q ≡ q) (unsome (rw named at e)) refl
  | inr other ↦ no_result (rw other at e)
]

sql_verify-verify_example :
    (d1 : Users × ℕ) × (sql_verify map_sql completes (some (ab_users, 0)) cd (b'y' ∷ []) false
      ≡ ((verify ab_users cd (b'y' ∷ []) false).0, some d1))
    × Agrees map_sql d1 (verify ab_users cd (b'y' ∷ []) false).1
sql_verify-verify_example =
    sql_verify-verify map_sql map_sql-IsSqlite (ab_users, 0) ab_users cd (b'y' ∷ []) false
      (λ n. refl) ab_users_plain refl refl

-- An insertion that fails, behind one that has added a row, is answered as a success.
stale_answer :
    sql_verify map_sql fails (some (ab_users, 1)) cd (b'y' ∷ []) false ≡ (true, some (ab_users, 1))
unfolding sql_verify sql_verify_in
stale_answer = refl

-- A comment, and "cd" twice.
abbrev conf : Text
conf = b'#' ∷ 10 ∷ b'c' ∷ b'd' ∷ 32 ∷ b'1' ∷ 10 ∷ b'c' ∷ b'd' ∷ 32 ∷ b'2' ∷ 10 ∷ []

last_cd : load_from_file (some []) (some conf) ab_users cd ≡ some (b'2' ∷ [])
unfolding load_from_file load_lines load_line account assign next_word some_word span_word
    skip_space lines text_eq
last_cd = refl
