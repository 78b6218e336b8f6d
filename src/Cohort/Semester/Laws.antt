-- ===== src/Cohort/Semester/Laws.antt =====
-- What the semester reader returns (backend/src/types/schedule.types.ts).
use wall_e_campus_assistant.Prelude.{
  ℕ, ◌≡◌, ◌⊎◌, refl, inl, inr, Bool, true, false, Option, some, none, [], ◌∷◌, arith, if◌then◌else◌,
  Bool-cases, ◌==◌, ◌||◌, List,
}
use wall_e_campus_assistant.Text.{Text, trim, trim_start, to_lower_case, is_word}
use wall_e_campus_assistant.Cohort.Semester.{
  SemesterValue, number, text, null, codes, one_or_two, number_behind, numbered_at, strip_prefix,
  ◌or_else◌, numbered, has_word, semester_of_text, named_semester, parse_semester_number,
}

-- A reading is none, or the first semester or the second.
pub data IsSemester : Option ℕ → Type 0 where
  unread : IsSemester none
  read : {n : ℕ} → (n ≡ 1) ⊎ (n ≡ 2) → IsSemester (some n)

first : IsSemester (some 1)
first = read (inl refl)

second : IsSemester (some 2)
second = read (inr refl)

if-IsSemester :
    (b : Bool) (x y : Option ℕ) → IsSemester x → IsSemester y → IsSemester (if b then x else y)
if-IsSemester true x y h k = h
if-IsSemester false x y h k = k

or_else-IsSemester : (a b : Option ℕ) → IsSemester a → IsSemester b → IsSemester (a or_else b)
or_else-IsSemester none b h k = k
or_else-IsSemester (some n) b h k = h

one_or_two-IsSemester : (s : Text) → IsSemester (one_or_two s)
unfolding one_or_two
one_or_two-IsSemester [] = unread
one_or_two-IsSemester (c ∷ s) =
    if-IsSemester _ _ _ unread (if-IsSemester _ _ _ first (if-IsSemester _ _ _ second unread))

number_behind-IsSemester : (o : Option Text) → IsSemester (number_behind o)
number_behind-IsSemester none = unread
number_behind-IsSemester (some s) = one_or_two-IsSemester (trim_start s)

numbered_at-IsSemester : (s : Text) → IsSemester (numbered_at s)
unfolding numbered_at
numbered_at-IsSemester s =
    let behind = λ (w : Text). number_behind-IsSemester (strip_prefix w s) in
    or_else-IsSemester _ _ (behind (codes "semester"))
      (or_else-IsSemester _ _ (behind (codes "sem")) (behind (codes "s")))

numbered-IsSemester : (w : Bool) (s : Text) → IsSemester (numbered w s)
unfolding numbered
numbered-IsSemester w [] = unread
numbered-IsSemester w (c ∷ s) =
    or_else-IsSemester _ _
      (if-IsSemester w none (numbered_at (c ∷ s)) unread (numbered_at-IsSemester (c ∷ s)))
      (numbered-IsSemester (is_word c) s)

named_semester-IsSemester : (s : Text) → IsSemester (named_semester s)
unfolding named_semester
named_semester-IsSemester s =
    let says = λ (words : List Text). has_word words false s in
    if-IsSemester (says (codes "first" ∷ codes "1st" ∷ [])) _ _ first (
      if-IsSemester (says (codes "second" ∷ codes "2nd" ∷ [])) _ _ second (
        if-IsSemester (says (codes "fall" ∷ codes "autumn" ∷ [])) _ _ first
          (if-IsSemester (says (codes "spring" ∷ [])) _ _ second unread)))

semester_of_text-IsSemester : (s : Text) → IsSemester (semester_of_text s)
unfolding semester_of_text
semester_of_text-IsSemester s = if-IsSemester _ _ _ first (
    if-IsSemester _ _ _ second
      (or_else-IsSemester _ _ (numbered-IsSemester false s) (named_semester-IsSemester s)))

number-IsSemester : (n : ℕ) → IsSemester (if n == 1 || n == 2 then some n else none)
number-IsSemester n = elim (Bool-cases (n == 1 || n == 2)) [
  | inl e ↦ rw e (read (ground arith))
  | inr e ↦ rw e unread
]

-- Whatever the value, it is read as the first semester, as the second, or not at all.
pub parse_semester_number-IsSemester : (v : SemesterValue) → IsSemester (parse_semester_number v)
unfolding parse_semester_number
parse_semester_number-IsSemester (number n) = number-IsSemester n
parse_semester_number-IsSemester (text []) = unread
parse_semester_number-IsSemester (text (c ∷ s)) =
    semester_of_text-IsSemester (to_lower_case (trim (c ∷ s)))
parse_semester_number-IsSemester null = unread

parse_semester_number_text :
    (s : Text) → parse_semester_number (text s) ≡ semester_of_text (to_lower_case (trim s))
unfolding parse_semester_number
parse_semester_number_text [] = refl
parse_semester_number_text (c ∷ s) = refl

-- Two texts that are the same up to case and to white space at their ends are read alike.
pub parse_semester_number_respects :
    (s t : Text)
    → to_lower_case (trim s) ≡ to_lower_case (trim t)
    → parse_semester_number (text s) ≡ parse_semester_number (text t)
parse_semester_number_respects s t e =
    rw (parse_semester_number_text s, parse_semester_number_text t, e)

readings :
    (parse_semester_number (text (codes " First Semester ")) ≡ some 1)
    × (parse_semester_number (text (codes "Fall 2025")) ≡ some 1)
    × (parse_semester_number (text (codes "SEM 2")) ≡ some 2)
    × (parse_semester_number (text (codes "s3")) ≡ none)
    × (parse_semester_number (text (codes "midsemester1")) ≡ none)
unfolding parse_semester_number
readings = (refl, refl, refl, refl, refl)
