-- ===== src/UserStore/Verify.antt =====
-- `Verify` over the map and over the database (webServer/code/auth/userstore.cpp).
use embedded_linux_iot_gatew.Prelude.{
  ◌≡◌, refl, ap, ap₂, ◌∙◌, Bool, ltb, true, false, ◌||◌, ◌&&◌, Bool-cases, Option-cases, inl, inr,
  Option, none, some, [], ◌∷◌, if◌then◌else◌, Text, text_eq, text_eq_iff,
}
use embedded_linux_iot_gatew.UserStore.{Users, assign, is_empty, log_in, register, verify}
use embedded_linux_iot_gatew.UserStore.Database.{
  c_str, completes, Sqlite, IsSqlite, stored_text, sql_verify, sql_verify_in,
}

-- The database holds the accounts of the map.
abbrev pub Agrees : (sql : Sqlite) → sql.Db → Users → Type 0
Agrees sql d users = (n : Text) → sql.select d n ≡ users n

-- A string without a zero byte, and an account map whose passwords have none.
abbrev pub IsPlain : Text → Type 0
IsPlain s = c_str s ≡ s

abbrev pub ArePlain : Users → Type 0
ArePlain users = (n p : Text) → users n ≡ some p → IsPlain p

stored_text_lem : (o : Option Text) → ((p : Text) → o ≡ some p → IsPlain p) → stored_text o ≡ o
stored_text_lem none plain = refl
stored_text_lem (some p) plain = ap some (plain p refl)

text_eq-empty : (s p : Text) → is_empty s ≡ false → is_empty p ≡ true → text_eq s p ≡ false
unfolding text_eq
text_eq-empty [] p some_s no_p = cc
text_eq-empty (c ∷ s) [] some_s no_p = refl
text_eq-empty (c ∷ s) (d ∷ p) some_s no_p = cc

-- The answer to a login.
abbrev pub may_log_in : Users → (name pwd : Text) → Bool
may_log_in users name pwd = (verify users name pwd true).0

may_log_in_lem :
    (users : Users) (n p : Text)
    → (verify users n p true).0 ≡ (if is_empty n || is_empty p then false else log_in p (users n))
unfolding verify
may_log_in_lem users n p = elim (Bool-cases (is_empty n || is_empty p)) [
  | inl refused ↦ rw refused refl
  | inr asked ↦ rw asked refl
]

assign-may_log_in :
    (users : Users) (name pwd n p : Text)
    → is_empty name ≡ false
    → is_empty pwd ≡ false
    → may_log_in (assign users name pwd) n p
      ≡ (if text_eq n name then text_eq pwd p else may_log_in users n p)
unfolding assign log_in
assign-may_log_in users name pwd n p named secret =
    may_log_in_lem (assign users name pwd) n p ∙ elim (Bool-cases (text_eq n name)) [
      | inr other ↦ rw (other, may_log_in_lem users n p) refl
      | inl same ↦
          let named_n : is_empty n ≡ false = ap is_empty ((text_eq_iff n name).0 same) ∙ named in
          rw (same, named_n)
            (elim (Bool-cases (is_empty p)) [
              | inl no_p ↦ rw (no_p, text_eq-empty pwd p secret no_p) refl
              | inr some_p ↦ rw some_p refl
            ])
    ]

-- A registration with a name and a password succeeds exactly when the name has no account yet. When
-- it does, the name can log in afterwards with that password and no other, and all other logins are
-- answered as before; when it does not, all are.
pub verify-register :
    (users : Users) (name pwd : Text)
    → is_empty name ≡ false
    → is_empty pwd ≡ false
    → let done = (verify users name pwd false).0 in
      let after = (verify users name pwd false).1 in
      (done ≡ (elim (users name) [ none ↦ true | some stored ↦ false ]))
      × ((n p : Text)
          → may_log_in after n p
            ≡ (if done && text_eq n name then text_eq pwd p else may_log_in users n p))
unfolding verify register
verify-register users name pwd named secret = elim (Option-cases (users name)) [
  | inl new ↦
      rw (named, secret, new) (refl, λ n p. assign-may_log_in users name pwd n p named secret)
  | inr (stored, known) ↦ rw (named, secret, known) (refl, λ n p. refl)
]

module _ (sql : Sqlite) (d : sql.Db) (name pwd : Text) where
  sql_verify-insert :
      (is_empty name || is_empty pwd) ≡ false
      → IsPlain name
      → IsPlain pwd
      → let d1 = sql.insert d name pwd in
        sql_verify sql completes (some d) name pwd false ≡ (ltb 0 (sql.changes d1), some d1)
  unfolding sql_verify sql_verify_in
  sql_verify-insert asked name_plain pwd_plain = rw asked (
      ap (λ d1. (ltb 0 (sql.changes d1), some d1))
        (ap₂ (λ n p. sql.insert d n p) name_plain pwd_plain))

  sql_verify-log_in :
      (users : Users)
      → (is_empty name || is_empty pwd) ≡ false
      → Agrees sql d users
      → ArePlain users
      → IsPlain name
      → sql_verify sql completes (some d) name pwd true ≡ (log_in pwd (users name), some d)
  unfolding sql_verify sql_verify_in
  sql_verify-log_in users asked same stored_plain name_plain =
      let found : stored_text (sql.select d (c_str name)) ≡ users name =
        ap (λ n. stored_text (sql.select d n)) name_plain
        ∙ ap stored_text (same name)
        ∙ stored_text_lem (users name) (stored_plain name) in
      rw asked (ap (λ o. (log_in pwd o, some d)) found)

  sql_verify-empty :
      (is_login : Bool)
      → (is_empty name || is_empty pwd) ≡ true
      → sql_verify sql completes (some d) name pwd is_login ≡ (false, some d)
  unfolding sql_verify
  sql_verify-empty is_login refused = rw refused refl

-- Over a database with the accounts of the map, when its statement is carried out, `Verify` gives the
-- same answer as over the map, and leaves a database with the accounts that it leaves in the map, if
-- neither the name nor the password nor a stored password has a zero byte.
pub sql_verify-verify :
    (sql : Sqlite) (laws : IsSqlite sql) (d : sql.Db) (users : Users) (name pwd : Text)
    (is_login : Bool)
    → Agrees sql d users
    → ArePlain users
    → IsPlain name
    → IsPlain pwd
    → (d1 : sql.Db) × (sql_verify sql completes (some d) name pwd is_login
        ≡ ((verify users name pwd is_login).0, some d1))
      × Agrees sql d1 (verify users name pwd is_login).1
unfolding verify register assign
sql_verify-verify sql laws d users name pwd is_login same stored_plain name_plain pwd_plain =
    elim (Bool-cases (is_empty name || is_empty pwd)) [
      | inl refused ↦
          let answer = sql_verify-empty sql d name pwd is_login refused in
          rw refused (d, answer, same)
      | inr asked ↦
          elim is_login
            as (λ b.
              (d1 : sql.Db) × (sql_verify sql completes (some d) name pwd b
                ≡ ((verify users name pwd b).0, some d1))
              × Agrees sql d1 (verify users name pwd b).1) [
                | true ↦
                    let answer =
                      sql_verify-log_in sql d name pwd users asked same stored_plain name_plain in
                    rw asked (d, answer, same)
                | false ↦
                    let d1 = sql.insert d name pwd in
                    let answer = sql_verify-insert sql d name pwd asked name_plain pwd_plain in
                    elim (Option-cases (users name)) [
                      | inl new ↦
                          let absent = same name ∙ new in
                          rw (asked, new)
                            (
                              d1,
                              answer
                                  ∙ ap (λ k. (ltb 0 k, some d1)) (laws.counted d name pwd absent),
                              λ n.
                                  laws.inserted d name pwd n absent
                                  ∙ ap (λ o. if text_eq n name then some pwd else o) (same n),
                            )
                      | inr (stored, known) ↦
                          let present = same name ∙ known in
                          rw (asked, known)
                            (
                              d1,
                              answer
                                  ∙ ap (λ k. (ltb 0 k, some d1))
                                      (laws.not_counted d name pwd stored present),
                              λ n. laws.ignored d name pwd stored n present ∙ same n,
                            )
                    ]
              ]
    ]
