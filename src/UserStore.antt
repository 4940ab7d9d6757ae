-- ===== src/UserStore.antt =====
-- webServer/code/auth/userstore.cpp: the accounts of the web server, in a map in the memory or, when
-- the program is built so, in a database. The map is a function from names to passwords, a string is
-- the list of its bytes. What the functions log is left out, and a lock is held throughout each, so
-- that they run one after another.
pub mod Words
pub mod Database
pub mod Verify
mod Tests
use embedded_linux_iot_gatew.Prelude.{
  ℕ, Bool, true, false, ◌||◌, Option, none, some, List, [], ◌∷◌, ◌==◌, if◌then◌else◌, ◌>>=◌, Text,
  text_eq,
}
use embedded_linux_iot_gatew.UserStore.Words.{next_word, lines}

-- `s_users`
abbrev pub Users : Type 0
Users = Text → Option Text

-- s_users[name] = pwd
unfoldable pub assign : Users → (name pwd : Text) → Users
assign users name pwd n = if text_eq n name then some pwd else users n

abbrev pub is_empty : Text → Bool
is_empty [] = true
is_empty (_ ∷ _) = false

-- line.empty() || line[0] == '#'
abbrev pub is_comment : Text → Bool
is_comment [] = true
is_comment (c ∷ line) = c == 35

-- The account on a line, if there is one.
unfoldable pub account : Text → Option (Text × Text)
account line =
    if is_comment line
    then none
    else (next_word line >>= λ (name, rest). next_word rest >>= λ (pwd, more). some (name, pwd))

unfoldable pub load_line : Users → Option (Text × Text) → Users
load_line users none = users
load_line users (some (name, pwd)) = assign users name pwd

-- The loop of `LoadFromFile`.
unfoldable pub load_lines : Users → List Text → Users
load_lines users [] = users
load_lines users (line ∷ more) = load_lines (load_line users (account line)) more

-- `LoadFromFile`, given what stands in the file, if it can be opened.
unfoldable pub load_from_file : (path file : Option Text) → Users → Users
load_from_file none file users = users
load_from_file (some path) none users = users
load_from_file (some path) (some file) users = load_lines users (lines file)

unfoldable pub log_in : (pwd : Text) → Option Text → Bool
log_in pwd none = false
log_in pwd (some stored) = text_eq stored pwd

unfoldable pub register : Users → (name pwd : Text) → Option Text → Bool × Users
register users name pwd none = (true, assign users name pwd)
register users name pwd (some stored) = (false, users)

-- `Verify`
unfoldable pub verify : Users → (name pwd : Text) → (is_login : Bool) → Bool × Users
verify users name pwd is_login =
    if is_empty name || is_empty pwd
    then (false, users)
    else (if is_login
        then (log_in pwd (users name), users)
        else register users name pwd (users name))
