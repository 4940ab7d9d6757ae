-- ===== src/HttpRequest/Turns.antt =====
-- The turns of the loop of `parse` (webServer/code/http/httprequest.cpp).
use embedded_linux_iot_gatew.Prelude.{
  ℕ, zero, suc, ◌≡◌, ◌+◌, ◌-◌, ◌∙◌, ◌≤◌, ◌<◌, ◌&&◌, ◌||◌, ◌==◌, refl, ap, unsome, Bool-cases,
  Option-cases, inl, inr, Option, none, some, [], ◌∷◌, length, arith, Text,
}
use embedded_linux_iot_gatew.UserStore.{Users, is_empty}
use embedded_linux_iot_gatew.HttpRequest.{Request, is_finished, split_line, parse_line, parse_lines}

-- What comes behind a line is shorter than the text.
split_line-shorter :
    (text line more : Text) → split_line text ≡ some (line, more) → length more < length text
unfolding split_line
split_line-shorter [] line more e = cc
split_line-shorter (c ∷ []) line more e = cc
split_line-shorter (c ∷ d ∷ text) line more e = elim (Bool-cases (c == 13 && d == 10)) [
  | inl ends ↦
      let pair : ◌≡◌ {A = Text × Text} ([], text) (line, more) = unsome (rw ends at e) in
      omega (arith, ap (λ (r : Text × Text). length r.1) pair)
  | inr goes_on ↦ elim (Option-cases (split_line (d ∷ text))) [
    | inl no_line ↦
        let refuted : ◌≡◌ {A = Option (Text × Text)} none (some (line, more)) =
          rw (goes_on, no_line) at e in
        cc
    | inr ((line1, more1), found) ↦
        let pair : ◌≡◌ {A = Text × Text} (c ∷ line1, more1) (line, more) =
          unsome (rw (goes_on, found) at e) in
        let shorter = split_line-shorter (d ∷ text) line1 more1 found in
        omega (arith, shorter, ap (λ (r : Text × Text). length r.1) pair)
  ]
]

parse_lines-suc :
    (fuel : ℕ) (text : Text) (r : Request) (users : Users)
    → length text ≤ fuel
    → parse_lines (suc fuel) text r users ≡ parse_lines fuel text r users
unfolding parse_lines
parse_lines-suc zero [] r users enough = refl
parse_lines-suc zero (c ∷ text) r users enough = absurd (omega arith)
parse_lines-suc (suc fuel) text r users enough =
    elim (Bool-cases (is_empty text || is_finished r.state)) [
      | inl ends ↦ rw ends refl
      | inr goes_on ↦ elim (Option-cases (split_line text)) [
        | inl last ↦ rw (goes_on, last) refl
        | inr ((line, more), found) ↦
            let shorter = split_line-shorter text line more found in
            elim (Option-cases (parse_line (length text) r users line r.state)) [
              | inl refused ↦ rw (goes_on, found, refused) refl
              | inr ((r1, users1), parsed) ↦
                  rw (goes_on, found, parsed) (parse_lines-suc fuel more r1 users1 (omega arith))
            ]
      ]
    ]

more_turns :
    (fuel : ℕ) (text : Text) (r : Request) (users : Users)
    → parse_lines (length text + fuel) text r users ≡ parse_lines (length text) text r users
more_turns zero text r users = ap (λ k. parse_lines k text r users) (omega arith)
more_turns (suc fuel) text r users =
    let e : length text + suc fuel ≡ suc (length text + fuel) = omega arith in
    ap (λ k. parse_lines k text r users) e
    ∙ parse_lines-suc (length text + fuel) text r users (omega arith)
    ∙ more_turns fuel text r users

-- With fuel for as many turns as the buffer has bytes, `parse` does not run out of it: more fuel
-- gives the same result.
pub parse_lines-enough :
    (fuel : ℕ) (text : Text) (r : Request) (users : Users)
    → length text ≤ fuel
    → parse_lines fuel text r users ≡ parse_lines (length text) text r users
parse_lines-enough fuel text r users enough =
    let e : fuel ≡ length text + (fuel - length text) = omega arith in
    ap (λ k. parse_lines k text r users) e ∙ more_turns (fuel - length text) text r users
