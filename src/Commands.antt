-- ===== src/Commands.antt =====
-- src/bot/commands.rs: the commands that comments give to the bot. The slug of the app is an
-- argument, as the environment gives it.
use codasaurus.Finding.{utf8}
use codasaurus.Prelude.{
  ℕ, zero, suc, String, Text, codes, starts_with, contains, trim, trim_start_by, to_ascii_lowercase,
  split_whitespace, is_empty_text, is_whitespace, List, [], ◌∷◌, ◌++◌, Option, none, some, Bool,
  false, not, ◌&&◌, ◌||◌, leb, if◌then◌else◌, length, any,
}

pub data BotCommand : Type 0 where
  review describe improve summarize labels changelog security add_docs similar : BotCommand
  fix : Option Text → BotCommand
  impact digest : BotCommand
  ask : Text → BotCommand
  ignore : Option Text → BotCommand
  retry wiki : BotCommand
  approve_rule : Option Text → BotCommand
  help generate_tests : BotCommand

abbrev pub drop {ℓ} : {A : Type ℓ} → ℕ → List A → List A
drop zero xs = xs
drop (suc n) [] = []
drop (suc n) (x ∷ xs) = drop n xs

-- `split(p)`: the second piece, from the first occurrence of `p` to the next.
abbrev pub before_text : Text → Text → Text
before_text p [] = []
before_text p (c ∷ s) = if starts_with p (c ∷ s) then [] else c ∷ before_text p s

abbrev pub after_text : Text → Text → Option Text
after_text p [] = none
after_text p (c ∷ s) =
    let rest = after_text p s in
    if starts_with p (c ∷ s) then some (drop (length p) (c ∷ s)) else rest

abbrev pub second_piece : Text → Text → Option Text
second_piece p s = elim (after_text p s) [ none ↦ none | some rest ↦ some (before_text p rest) ]

-- The body after the first occurrence of `p` in the body in lower case.
abbrev pub after_lowered : Text → Text → Option Text
after_lowered p [] = none
after_lowered p (c ∷ s) =
    let rest = after_lowered p s in
    if starts_with p (to_ascii_lowercase (c ∷ s)) then some (drop (length p) (c ∷ s)) else rest

abbrev pub first_word : Text → Text
first_word s = elim (split_whitespace s) [ [] ↦ [] | w ∷ ws ↦ trim w ]

abbrev pub or_else {ℓ} : {A : Type ℓ} → Option A → Option A → Option A
or_else none b = b
or_else (some a) b = some a

-- What is made of the rest of the body after a prefix, if anything.
abbrev pub then_try : (Text → Option Text) → Option Text → Option Text
then_try accept none = none
then_try accept (some rest) = accept rest

-- For each prefix as it is written, then in any case.
abbrev pub extract_by : (Text → Option Text) → List String → Text → Option Text
extract_by accept [] body = none
extract_by accept (p ∷ ps) body =
    or_else (then_try accept (second_piece (codes p) body))
      (or_else (then_try accept (after_lowered (codes p) body)) (extract_by accept ps body))

abbrev pub a_question : Text → Option Text
a_question rest = let q = trim rest in if is_empty_text q then none else some q

unfoldable pub extract_ask_question : Text → Option Text
extract_ask_question body =
    extract_by a_question
      ("@codasaurus ask " ∷ "@codasaurus-bot ask " ∷ "/codasaurus ask " ∷ "codasaurus ask " ∷ [])
      body

-- At least 8 bytes.
abbrev pub a_fingerprint : Text → Option Text
a_fingerprint rest =
    let fp = first_word rest in
    if not (is_empty_text fp) && leb 8 (length (utf8 fp)) then some fp else none

unfoldable pub extract_ignore_fingerprint : Text → Option Text
unfolding utf8
extract_ignore_fingerprint body =
    extract_by a_fingerprint
      ("@codasaurus ignore " ∷ "@codasaurus-bot ignore " ∷ "@codasaurus dismiss "
        ∷ "@codasaurus-bot dismiss " ∷ [])
      body

abbrev pub an_id : Text → Option Text
an_id rest = let id = first_word rest in if is_empty_text id then none else some id

unfoldable pub extract_rule_id : Text → Option Text
extract_rule_id body = then_try an_id (after_lowered (codes "approve-rule ") body)

abbrev pub a_plain_fingerprint : Text → Option Text
a_plain_fingerprint rest =
    let fp = first_word rest in
    if not (is_empty_text fp) && (leb 8 (length (utf8 fp)) && not (starts_with (codes "<") fp))
    then some fp
    else none

unfoldable pub extract_fix_fingerprint : Text → Option Text
unfolding utf8
extract_fix_fingerprint body =
    extract_by a_plain_fingerprint
      ("@codasaurus fix " ∷ "@codasaurus-bot fix " ∷ "@codasaurus autofix "
        ∷ "@codasaurus apply_fix " ∷ [])
      body

abbrev pub contains_any : Text → List String → Bool
contains_any lower words = any (λ w. contains (codes w) lower) words

abbrev pub starts_with_any : Text → List String → Bool
starts_with_any s words = any (λ w. starts_with (codes w) s) words

-- `@` and the slug of the app.
abbrev pub names_slug : Option Text → Text → Bool
names_slug none lower = false
names_slug (some slug) lower =
    let s = to_ascii_lowercase (trim slug) in
    not (is_empty_text s) && contains (codes "@" ++ s) lower

unfoldable pub is_bot_addressed : Option Text → Text → Bool
is_bot_addressed slug lower =
    contains_any lower ("@codasaurus" ∷ "@codasaurus-bot" ∷ [])
    || (starts_with_any (trim_start_by is_whitespace lower)
          ("/codasaurus" ∷ "codasaurus " ∷ "codasaurus\n" ∷ "codasaurus\t" ∷ [])
        || names_slug slug lower)

-- A comment that asks a question gets here if no earlier word is in it.
abbrev pub ask_or_later : Option Text → Text → Option BotCommand
ask_or_later (some q) lower = some (ask q)
ask_or_later none lower =
    if contains_any lower ("review" ∷ [])
    then some review
    else if contains_any lower ("retry" ∷ "re-run" ∷ "rerun" ∷ [])
    then some retry
    else none

unfoldable pub parse_bot_command : Option Text → Text → Option BotCommand
unfolding is_bot_addressed extract_ask_question
parse_bot_command slug body =
    let lower = to_ascii_lowercase body in
    if not (is_bot_addressed slug lower)
    then none
    else if contains_any lower ("codasaurus help" ∷ "codasaurus-bot help" ∷ [])
    then some help
    else if contains_any lower ("add_docs" ∷ "add-docs" ∷ "add docs" ∷ [])
    then some add_docs
    else if contains_any lower ("changelog" ∷ "update_changelog" ∷ [])
    then some changelog
    else if contains_any lower ("similar" ∷ "related_prs" ∷ "related-prs" ∷ [])
    then some similar
    else if contains_any lower ("impact" ∷ "blast-radius" ∷ "blast_radius" ∷ [])
    then some impact
    else if contains_any lower ("digest" ∷ "weekly" ∷ [])
    then some digest
    else if contains_any lower ("wiki" ∷ "rules" ∷ [])
    then some wiki
    else if contains_any lower ("approve-rule" ∷ "approve_rule" ∷ [])
    then some (approve_rule (extract_rule_id body))
    else if contains_any lower
        ("@codasaurus fix" ∷ "@codasaurus-bot fix" ∷ " autofix" ∷ " apply_fix" ∷ [])
    then some (fix (extract_fix_fingerprint body))
    else if contains_any lower ("security" ∷ [])
    then some security
    else if contains_any lower ("labels" ∷ "label" ∷ [])
    then some labels
    else if contains_any lower ("summarize" ∷ "summary" ∷ [])
    then some summarize
    else if contains_any lower ("describe" ∷ [])
    then some describe
    else if contains_any lower ("generate-tests" ∷ "generate_tests" ∷ [])
    then some generate_tests
    else if contains_any lower ("improve" ∷ [])
    then some improve
    else if contains_any lower (" ignore" ∷ " dismiss" ∷ [])
    then some (ignore (extract_ignore_fingerprint body))
    else ask_or_later (extract_ask_question body) lower
