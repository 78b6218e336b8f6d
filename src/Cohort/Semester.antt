-- ===== src/Cohort/Semester.antt =====
-- parseSemesterNumber of backend/src/types/schedule.types.ts. Its regular expressions are searches
-- over the text that know whether the character before is of the class \w.
pub mod Laws
use Prim.Native.Char.{code}
use Prim.Native.String
use wall_e_campus_assistant.Prelude.{
  ℕ, Bool, true, false, ◌&&◌, ◌||◌, not, Option, some, none, List, [], ◌∷◌, String, ◌==◌,
  if◌then◌else◌, any,
}
use wall_e_campus_assistant.Text.{Text, trim_start, trim, to_lower_case, text_eq, is_word}

pub data SemesterValue : Type 0 where
  number : ℕ → SemesterValue
  text : Text → SemesterValue
  null : SemesterValue

-- The codes of a literal.
abbrev pub codes : String → Text
codes String.[] = []
codes (String.◌∷◌ c s) = code c ∷ codes s

-- The rest of a text behind a word.
unfoldable pub strip_prefix : Text → Text → Option Text
strip_prefix [] s = some s
strip_prefix (a ∷ w) [] = none
strip_prefix (a ∷ w) (b ∷ s) = if a == b then strip_prefix w s else none

-- \b behind a word: the text ends here or goes on with no word character.
unfoldable pub at_boundary : Text → Bool
unfolding is_word
at_boundary [] = true
at_boundary (c ∷ s) = not (is_word c)

-- ([12])\b
unfoldable pub one_or_two : Text → Option ℕ
unfolding at_boundary
one_or_two [] = none
one_or_two (c ∷ s) =
    if not (at_boundary s)
    then none
    else if c == b'1'
    then some 1
    else if c == b'2'
    then some 2
    else none

-- \s*([12])\b behind an alternative that matched.
abbrev pub number_behind : Option Text → Option ℕ
number_behind none = none
number_behind (some s) = one_or_two (trim_start s)

infixr 30 ◌or_else◌
abbrev pub ◌or_else◌ : Option ℕ → Option ℕ → Option ℕ
some n or_else m = some n
none or_else m = m

-- (?:semester|sem|s)\s*([12])\b at one position.
unfoldable pub numbered_at : Text → Option ℕ
unfolding strip_prefix one_or_two trim_start
numbered_at s =
    number_behind (strip_prefix (codes "semester") s)
    or_else number_behind (strip_prefix (codes "sem") s)
    or_else number_behind (strip_prefix (codes "s") s)

-- The leftmost match of /\b(?:semester|sem|s)\s*([12])\b/. An alternative begins with a word
-- character, so \b before it asks that the character before is none.
unfoldable pub numbered : Bool → Text → Option ℕ
unfolding numbered_at is_word
numbered after_word [] = none
numbered after_word (c ∷ s) =
    (if after_word then none else numbered_at (c ∷ s)) or_else numbered (is_word c) s

abbrev ends_word : Option Text → Bool
ends_word none = false
ends_word (some s) = at_boundary s

-- The test of /\b(?:…|…)\b/ for alternatives that begin with a word character.
unfoldable pub has_word : List Text → Bool → Text → Bool
unfolding strip_prefix at_boundary is_word
has_word words after_word [] = false
has_word words after_word (c ∷ s) =
    (not after_word && any (λ w. ends_word (strip_prefix w (c ∷ s))) words)
    || has_word words (is_word c) s

-- The four tests for a named semester.
unfoldable pub named_semester : Text → Option ℕ
unfolding has_word
named_semester s =
    if has_word (codes "first" ∷ codes "1st" ∷ []) false s
    then some 1
    else if has_word (codes "second" ∷ codes "2nd" ∷ []) false s
    then some 2
    else if has_word (codes "fall" ∷ codes "autumn" ∷ []) false s
    then some 1
    else if has_word (codes "spring" ∷ []) false s
    then some 2
    else none

-- The tests on the trimmed text in small letters.
unfoldable pub semester_of_text : Text → Option ℕ
unfolding numbered named_semester text_eq
semester_of_text s =
    if text_eq s (codes "1")
    then some 1
    else if text_eq s (codes "2")
    then some 2
    else numbered false s or_else named_semester s

unfoldable pub parse_semester_number : SemesterValue → Option ℕ
unfolding semester_of_text trim to_lower_case
parse_semester_number (number n) = if n == 1 || n == 2 then some n else none
parse_semester_number null = none
parse_semester_number (text []) = none
parse_semester_number (text (c ∷ s)) = semester_of_text (to_lower_case (trim (c ∷ s)))
