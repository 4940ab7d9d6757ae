-- ===== src/UserStore/Database.antt =====
-- The accounts in a database (webServer/code/auth/userstore.cpp, built with USE_SQLITE). SQLite is an
-- interface, and what becomes of a statement is an argument.
use embedded_linux_iot_gatew.Prelude.{
  ℕ, ◌+◌, ◌≡◌, Bool, true, false, ◌||◌, ◌==◌, Option, none, some, List, [], ◌∷◌, ltb, if◌then◌else◌,
  Text, text_eq,
}
use embedded_linux_iot_gatew.UserStore.{is_empty, account, log_in}
use embedded_linux_iot_gatew.UserStore.Words.{lines}

-- A string up to its first zero byte, as `c_str` gives it to a C function.
abbrev pub c_str : Text → Text
c_str [] = []
c_str (c ∷ s) = let rest = c_str s in if c == 0 then [] else c ∷ rest

-- `sqlite3_prepare_v2` refuses a statement, `sqlite3_step` fails, or the statement is carried out.
pub data Statement : Type 0 where
  unprepared fails completes : Statement

-- The two statements of the program on the table of users, in which a name is a primary key, when
-- they are carried out: `SELECT password FROM users WHERE username=? LIMIT 1`, and `INSERT OR IGNORE
-- INTO users(username, password) VALUES(?,?)`. `changes` is what `sqlite3_changes` returns: the
-- number of rows that the last insertion that was carried out has added.
pub record Sqlite : Type 1 where
  pub Db : Type 0
  pub select : Db → Text → Option Text
  pub insert : Db → (name pwd : Text) → Db
  pub changes : Db → ℕ

-- What SQLite's documentation says of them.
pub record IsSqlite (sql : Sqlite) : Type 0 where
  pub inserted :
      (d : sql.Db) (name pwd n : Text)
      → sql.select d name ≡ none
      → sql.select (sql.insert d name pwd) n ≡ (if text_eq n name then some pwd else sql.select d n)
  pub counted :
      (d : sql.Db) (name pwd : Text)
      → sql.select d name ≡ none
      → sql.changes (sql.insert d name pwd) ≡ 1
  pub ignored :
      (d : sql.Db) (name pwd stored n : Text)
      → sql.select d name ≡ some stored
      → sql.select (sql.insert d name pwd) n ≡ sql.select d n
  pub not_counted :
      (d : sql.Db) (name pwd stored : Text)
      → sql.select d name ≡ some stored
      → sql.changes (sql.insert d name pwd) ≡ 0

-- The password that is stored is compared as a C string.
abbrev pub stored_text : Option Text → Option Text
stored_text none = none
stored_text (some stored) = some (c_str stored)

module _ (sql : Sqlite) where
  -- A bound insertion, whose result nothing looks at.
  abbrev pub run_insert : Statement → sql.Db → (name pwd : Text) → sql.Db
  run_insert unprepared d name pwd = d
  run_insert fails d name pwd = d
  run_insert completes d name pwd = sql.insert d (c_str name) (c_str pwd)

  unfoldable pub import_line : Statement → sql.Db → Option (Text × Text) → sql.Db
  import_line statement d none = d
  import_line statement d (some (name, pwd)) = run_insert statement d name pwd

  -- The loop of `LoadFromFile`; `statement k` belongs to its turn `k`.
  unfoldable pub import_lines : (statement : ℕ → Statement) → sql.Db → List Text → sql.Db
  import_lines statement d [] = d
  import_lines statement d (line ∷ more) =
      import_lines (λ k. statement (k + 1)) (import_line (statement 0) d (account line)) more

  -- `LoadFromFile`, given the database that is opened, with its table, and what stands in the file.
  unfoldable pub sql_load_from_file :
      (statement : ℕ → Statement)
      → (opened : Option sql.Db) → (path file : Option Text) → Option sql.Db
  sql_load_from_file statement none path file = none
  sql_load_from_file statement (some d) none file = some d
  sql_load_from_file statement (some d) (some path) none = some d
  sql_load_from_file statement (some d) (some path) (some file) =
      some (import_lines statement d (lines file))

  unfoldable pub sql_verify_in :
      Statement → Option sql.Db → (name pwd : Text) → (is_login : Bool) → Bool × Option sql.Db
  sql_verify_in statement none name pwd is_login = (false, none)
  sql_verify_in unprepared (some d) name pwd is_login = (false, some d)
  sql_verify_in fails (some d) name pwd true = (false, some d)
  sql_verify_in completes (some d) name pwd true =
      (log_in pwd (stored_text (sql.select d (c_str name))), some d)
  sql_verify_in fails (some d) name pwd false =
      let d1 = run_insert fails d name pwd in (ltb 0 (sql.changes d1), some d1)
  sql_verify_in completes (some d) name pwd false =
      let d1 = run_insert completes d name pwd in (ltb 0 (sql.changes d1), some d1)

  -- `Verify`
  unfoldable pub sql_verify :
      Statement → Option sql.Db → (name pwd : Text) → (is_login : Bool) → Bool × Option sql.Db
  sql_verify statement db name pwd is_login =
      if is_empty name || is_empty pwd
      then (false, db)
      else sql_verify_in statement db name pwd is_login
