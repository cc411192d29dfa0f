-- ===== src/Prelude/Texts.antt =====
-- Texts that the program walks, as lists of code points, and the parts of Rust's `str` that it
-- uses. `String` is for tags, which are only compared.
use Prim.Native.Nat.{ℕ, zero, suc, ◌+◌, ◌-◌, ◌*◌, ◌^◌, ◌/◌, ◌%◌}
use Prim.Native.Char.{code}
use Prim.Native.String.{String}
use mathlib.Core.Path.{◌≡◌, refl}
use mathlib.Core.Bool.{Bool, true, false, ◌&&◌, ◌||◌}
use mathlib.Core.Logic.{inl, inr, ◌↔◌}
use mathlib.Core.List.{List, [], ◌∷◌, ◌++◌, reverse, map}
use mathlib.Core.Option.{Option, none, some}
use native.Mathlib.Omega.{arith}
use codasaurus.Prelude.Tests.{Bool-cases, ◌==◌, leb, ltb, if◌then◌else◌, is_some}

abbrev pub Text : Type 0
Text = List ℕ

abbrev pub codes : String → Text
codes String.[] = []
codes (String.◌∷◌ c s) = code c ∷ codes s

-- `==` on `str`.
abbrev pub text_eq : Text → Text → Bool
text_eq [] [] = true
text_eq (a ∷ s) (b ∷ t) = a == b && text_eq s t
text_eq _ _ = false

-- `str::cmp` is by bytes, which for UTF-8 is by code points; this is `a <= b`.
abbrev pub text_le : Text → Text → Bool
text_le [] t = true
text_le (a ∷ s) [] = false
text_le (a ∷ s) (b ∷ t) = let rest = text_le s t in if a == b then rest else leb a b

abbrev pub strip_prefix : Text → Text → Option Text
strip_prefix [] s = some s
strip_prefix (p ∷ ps) [] = none
strip_prefix (p ∷ ps) (c ∷ s) = let rest = strip_prefix ps s in if p == c then rest else none

abbrev pub starts_with : Text → Text → Bool
starts_with p s = is_some (strip_prefix p s)

abbrev pub ends_with : Text → Text → Bool
ends_with p s = starts_with (reverse p) (reverse s)

abbrev pub rev_some : Option Text → Option Text
rev_some none = none
rev_some (some s) = some (reverse s)

abbrev pub strip_suffix : Text → Text → Option Text
strip_suffix p s = rev_some (strip_prefix (reverse p) (reverse s))

-- `str::contains` with a text, and with a character.
abbrev pub contains : Text → Text → Bool
contains p [] = starts_with p []
contains p (c ∷ s) = starts_with p (c ∷ s) || contains p s

abbrev pub has_char : ℕ → Text → Bool
has_char c [] = false
has_char c (d ∷ s) = c == d || has_char c s

-- `trim_start_matches` and `trim_end_matches` with a test on characters.
abbrev pub trim_start_by : (ℕ → Bool) → Text → Text
trim_start_by p [] = []
trim_start_by p (c ∷ s) = let rest = trim_start_by p s in if p c then rest else c ∷ s

abbrev pub trim_end_by : (ℕ → Bool) → Text → Text
trim_end_by p s = reverse (trim_start_by p (reverse s))

-- `char::is_whitespace`.
abbrev pub is_whitespace : ℕ → Bool
is_whitespace c =
    (leb 9 c && leb c 13)
    || (c == 32
        || (c == 0x85
            || (c == 0xa0
                || (c == 0x1680
                    || ((leb 0x2000 c && leb c 0x200a)
                        || (c == 0x2028
                            || (c == 0x2029 || (c == 0x202f || (c == 0x205f || c == 0x3000)))))))))

abbrev pub trim : Text → Text
trim s = trim_end_by is_whitespace (trim_start_by is_whitespace s)

abbrev pub is_slash : ℕ → Bool
is_slash c = c == b'/'

abbrev pub trim_start_slashes : Text → Text
trim_start_slashes = trim_start_by is_slash

abbrev pub trim_end_slashes : Text → Text
trim_end_slashes = trim_end_by is_slash

abbrev pub ascii_lower : ℕ → ℕ
ascii_lower c = if leb b'A' c && leb c b'Z' then c + 32 else c

abbrev pub to_ascii_lowercase : Text → Text
to_ascii_lowercase = map ascii_lower

-- `split` at the characters of a test: the pieces between them, empty ones too.
abbrev pub cons_first : ℕ → List Text → List Text
cons_first c [] = (c ∷ []) ∷ []
cons_first c (w ∷ ws) = (c ∷ w) ∷ ws

abbrev pub split_by : (ℕ → Bool) → Text → List Text
split_by p [] = [] ∷ []
split_by p (c ∷ s) = let rest = split_by p s in if p c then [] ∷ rest else cons_first c rest

-- `rsplit('/').next()`.
abbrev pub last_piece : Text → List Text → Text
last_piece d [] = d
last_piece d (w ∷ ws) = last_piece w ws

abbrev pub last_segment : Text → Text
last_segment s = last_piece [] (split_by is_slash s)

-- `format!("{n}")` of a number.
abbrev decimal_from : ℕ → ℕ → Text → Text
decimal_from zero n acc = acc
decimal_from (suc fuel) n acc =
    let more = decimal_from fuel (n / 10) ((48 + n % 10) ∷ acc) in
    let last = (48 + n) ∷ acc in if leb n 9 then last else more

abbrev pub decimal : ℕ → Text
decimal n = decimal_from (suc n) n []

-- `matches!(text, "a" | "b")`.
abbrev pub text_one_of : Text → List String → Bool
text_one_of s [] = false
text_one_of s (t ∷ ts) = text_eq s (codes t) || text_one_of s ts

-- `split_whitespace` and the pieces of `split` that are not empty.
abbrev pub nonempty : List Text → List Text
nonempty [] = []
nonempty ([] ∷ ws) = nonempty ws
nonempty ((c ∷ w) ∷ ws) = (c ∷ w) ∷ nonempty ws

abbrev pub split_whitespace : Text → List Text
split_whitespace s = nonempty (split_by is_whitespace s)

abbrev pub is_empty_text : Text → Bool
is_empty_text [] = true
is_empty_text (c ∷ s) = false

-- `parse::<usize>` on a 64-bit target: an optional plus sign, digits, and no overflow.
abbrev pub digits_from : ℕ → Text → Option ℕ
digits_from n [] = some n
digits_from n (c ∷ s) =
    let rest = digits_from (n * 10 + (c - 48)) s in
    if leb 48 c && (leb c 57 && ltb (n * 10 + (c - 48)) (2 ^ 64)) then rest else none

abbrev pub unsigned_from : Text → Option ℕ
unsigned_from [] = none
unsigned_from (c ∷ s) = digits_from 0 (c ∷ s)

abbrev pub parse_usize : Text → Option ℕ
parse_usize [] = none
parse_usize (c ∷ s) =
    let unsigned = unsigned_from s in
    let plain = unsigned_from (c ∷ s) in if c == b'+' then unsigned else plain

-- `lines`: a line end is a line feed with an optional carriage return in front, and a last piece
-- with no line end counts only if it is not empty.
abbrev pub is_newline : ℕ → Bool
is_newline c = c == 10

abbrev pub without_return : Text → Text
without_return s = elim (strip_suffix (13 ∷ []) s) [ none ↦ s | some r ↦ r ]

abbrev pub lines_of : List Text → List Text
lines_of [] = []
lines_of ([] ∷ []) = []
lines_of ((c ∷ w) ∷ []) = (c ∷ w) ∷ []
lines_of (w ∷ v ∷ ws) = without_return w ∷ lines_of (v ∷ ws)

abbrev pub lines : Text → List Text
lines s = lines_of (split_by is_newline s)

-- `split_once` at a character, and `rsplit_once`.
abbrev pub before_char : ℕ → Text → Option (Text × Text)
before_char c [] = none
before_char c (d ∷ s) =
    let rest = before_char c s in
    if c == d then some ([], s) else elim rest [ none ↦ none | some (a, b) ↦ some (d ∷ a, b) ]

pub text_eq_refl : (s : Text) → text_eq s s ≡ true
text_eq_refl [] = refl
text_eq_refl (a ∷ s) = ground (arith, text_eq_refl s)

pub text_eq→eq : (s t : Text) → text_eq s t ≡ true → s ≡ t
text_eq→eq [] [] h = refl
text_eq→eq [] (b ∷ t) h = ground arith
text_eq→eq (a ∷ s) [] h = ground arith
text_eq→eq (a ∷ s) (b ∷ t) h = ground (arith, text_eq→eq s t)

pub text_eq_iff : (s t : Text) → (text_eq s t ≡ true) ↔ (s ≡ t)
text_eq_iff s t = (text_eq→eq s t, λ e. rw e (text_eq_refl t))

-- A prefix is what concatenation puts in front.
pub strip_prefix→append : (p s r : Text) → strip_prefix p s ≡ some r → s ≡ p ++ r
strip_prefix→append [] s r h = ground arith
strip_prefix→append (c ∷ p) [] r h = ground arith
strip_prefix→append (c ∷ p) (d ∷ s) r h = ground (arith, strip_prefix→append p s r)

pub strip_prefix-append : (p r : Text) → strip_prefix p (p ++ r) ≡ some r
strip_prefix-append [] r = refl
strip_prefix-append (c ∷ p) r = ground (arith, strip_prefix-append p r)

pub text_le_refl : (s : Text) → text_le s s ≡ true
text_le_refl [] = refl
text_le_refl (a ∷ s) = ground (arith, text_le_refl s)

pub text_le_total : (s t : Text) → text_le s t ≡ false → text_le t s ≡ true
text_le_total [] t h = ground arith
text_le_total (a ∷ s) [] h = refl
text_le_total (a ∷ s) (b ∷ t) h = ground (arith, text_le_total s t)

pub text_le_trans : (s t u : Text) → text_le s t ≡ true → text_le t u ≡ true → text_le s u ≡ true
text_le_trans [] t u h k = refl
text_le_trans (a ∷ s) [] u h k = ground arith
text_le_trans (a ∷ s) (b ∷ t) [] h k = ground arith
text_le_trans (a ∷ s) (b ∷ t) (c ∷ u) h k = ground (arith, text_le_trans s t u)

pub text_le_antisym : (s t : Text) → text_le s t ≡ true → text_le t s ≡ true → s ≡ t
text_le_antisym [] [] h k = refl
text_le_antisym [] (b ∷ t) h k = ground arith
text_le_antisym (a ∷ s) [] h k = ground arith
text_le_antisym (a ∷ s) (b ∷ t) h k = ground (arith, text_le_antisym s t)

pub text_eq_sym : (s t : Text) → text_eq s t ≡ text_eq t s
text_eq_sym s t = elim (Bool-cases (text_eq s t)) [
  | inl e ↦ let same = text_eq→eq s t e in rw same
  | inr e ↦ elim (Bool-cases (text_eq t s)) [
    | inl h ↦ let same = text_eq→eq t s h in rw same
    | inr h ↦ rw (e, h)
  ]
]
