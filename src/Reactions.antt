-- ===== src/Reactions.antt =====
-- src/bot/reactions.rs and src/bot/threads.rs: dismissals by a reaction on a finding, and by
-- resolving its thread.
use codasaurus.Finding.{utf8}
use codasaurus.Commands.{after_text, after_lowered, first_word, or_else, then_try}
use codasaurus.Learning.Store.{Store, un_dismiss_fingerprint}
use codasaurus.Learning.Promotion.{LearningConfig, dismiss_fingerprint_for_repo}
use codasaurus.Prelude.{
  ℕ, String, Text, codes, strip_prefix, trim, trim_start_by, trim_end_by, text_one_of, lines,
  is_whitespace, List, [], ◌∷◌, ◌++◌, Option, none, some, Bool, true, false, ◌&&◌, ◌||◌, leb, ◌==◌,
  if◌then◌else◌, length,
}

abbrev pub is_tick : ℕ → Bool
is_tick c = c == b'`'

-- `split` at a backquote, a space or a middle dot, and the first piece.
abbrev pub ends_fingerprint : ℕ → Bool
ends_fingerprint c = c == b'`' || (is_whitespace c || c == 0xb7)

abbrev pub take_until : (ℕ → Bool) → Text → Text
take_until p [] = []
take_until p (c ∷ s) = if p c then [] else c ∷ take_until p s

abbrev pub long_enough : Text → Option Text
long_enough fp = if leb 8 (length (utf8 fp)) then some fp else none

abbrev pub after_marker : Text → Option Text
after_marker rest =
    long_enough (trim (take_until ends_fingerprint (trim_start_by is_tick (trim rest))))

abbrev pub after_label : Text → Option Text
after_label rest =
    long_enough
      (trim (take_until ends_fingerprint (trim_end_by is_tick (trim_start_by is_tick (trim rest)))))

abbrev pub from_line : Text → Option Text
from_line line =
    let t = trim line in
    or_else (then_try after_marker (strip_prefix (codes "`fingerprint:") t))
      (then_try after_label (after_text (codes "fingerprint:") t))

abbrev pub from_lines : List Text → Option Text
from_lines [] = none
from_lines (l ∷ ls) = or_else (from_line l) (from_lines ls)

abbrev pub from_footer : List String → Text → Option Text
from_footer [] body = none
from_footer (p ∷ ps) body =
    or_else (then_try (λ rest. long_enough (first_word rest)) (after_lowered (codes p) body))
      (from_footer ps body)

unfoldable pub fingerprint_from_comment_body : Text → Option Text
unfolding utf8
fingerprint_from_comment_body body =
    or_else (from_lines (lines body))
      (from_footer ("@codasaurus ignore " ∷ "@codasaurus-bot ignore " ∷ []) body)

abbrev pub is_dismiss_reaction : Text → Bool
is_dismiss_reaction content = text_one_of content ("-1" ∷ "confused" ∷ [])

-- The bodies of the comments of a thread; a comment without a body is left out.
unfoldable pub fingerprint_from_thread : List (Option Text) → Option Text
fingerprint_from_thread [] = none
fingerprint_from_thread (none ∷ bodies) = fingerprint_from_thread bodies
fingerprint_from_thread (some body ∷ bodies) =
    or_else (fingerprint_from_comment_body body) (fingerprint_from_thread bodies)

module _ (id_le : Text → Text → Bool) (to_lowercase : Text → Text) (uuid : Store → Text)
    (cfg : LearningConfig) (now : ℕ) where
  abbrev pub dismiss_by : String → Text → Text → Text → Store → Store
  dismiss_by source fp message repo s =
      dismiss_fingerprint_for_repo id_le to_lowercase uuid cfg now fp source repo message
        (some repo) none none true s

  abbrev pub react : Option Text → Text → Text → Bool → Store → Bool × Store
  react none content repo allowed s = (false, s)
  react (some fp) content repo allowed s =
      if is_dismiss_reaction content && allowed
      then (
        true,
        dismiss_by "reaction" fp (codes "dismissed via " ++ (content ++ codes " reaction")) repo s,
      )
      else (false, s)

  -- A positive reaction is only logged.
  unfoldable pub handle_reaction_event : Text → Text → Text → Text → Bool → Store → Bool × Store
  handle_reaction_event action content body repo allowed s =
      if text_one_of action ("created" ∷ [])
      then react (fingerprint_from_comment_body body) content repo allowed s
      else (false, s)

  abbrev pub thread_change : Option Text → Text → Text → Bool → Store → Bool × Store
  thread_change none action repo allowed s = (false, s)
  thread_change (some fp) action repo allowed s =
      if text_one_of action ("resolved" ∷ [])
      then (if allowed
          then (true, dismiss_by "resolve" fp (codes "dismissed via resolved review thread") repo s)
          else (false, s))
      else if text_one_of action ("unresolved" ∷ [])
      then un_dismiss_fingerprint fp (some repo) s
      else (false, s)

  unfoldable pub handle_thread_event :
      Text → List (Option Text) → Text → Bool → Store → Bool × Store
  handle_thread_event action bodies repo allowed s =
      thread_change (fingerprint_from_thread bodies) action repo allowed s
