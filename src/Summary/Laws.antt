-- ===== src/Summary/Laws.antt =====
-- That the summary counts every attendance (getMyAttendanceSummary of
-- backend/src/services/attendance.service.ts).
use wall_e_campus_assistant.Prelude.{
  ℕ, ◌+◌, ◌≡◌, refl, inl, inr, Bool, true, false, ◌&&◌, ◌||◌, Option, none, some, List, [], ◌∷◌,
  ∈-map_iff, same_option, any, count, if◌then◌else◌, ◌∈◌, sym, ◌∙◌, subst, arith, Bool-cases,
  any_iff, any-false,
}
use wall_e_campus_assistant.Database.Rows.Laws.{Distinct}
use wall_e_campus_assistant.Database.Rows.Single.{count-pos}
use wall_e_campus_assistant.Session.Window.{AttendanceStatus, present, late, absent}
use wall_e_campus_assistant.Session.Store.{Course}
use wall_e_campus_assistant.Summary.{
  StatusRow, Counts, Tally, no_counts, counted, key_of, has_key, add_row, tally_rows, Presented,
  presented, get_my_attendance_summary,
}

abbrev pub is_status : AttendanceStatus → AttendanceStatus → Bool
is_status present present = true
is_status late late = true
is_status absent absent = true
is_status _ _ = false

abbrev pub of_status : AttendanceStatus → Counts → ℕ
of_status present c = c.present_
of_status late c = c.late_
of_status absent c = c.absent_

of_status-counted :
    (s r : AttendanceStatus) (c : Counts)
    → of_status s (counted r c) ≡ of_status s c + (if is_status s r then 1 else 0)
of_status-counted present present c = omega arith
of_status-counted present late c = omega arith
of_status-counted present absent c = omega arith
of_status-counted late present c = omega arith
of_status-counted late late c = omega arith
of_status-counted late absent c = omega arith
of_status-counted absent present c = omega arith
of_status-counted absent late c = omega arith
of_status-counted absent absent c = omega arith

-- What is counted under a key.
amount : Option ℕ → AttendanceStatus → List Tally → ℕ
amount key s [] = 0
amount key s (t ∷ tallies) =
    (if has_key key t then of_status s t.counts else 0) + amount key s tallies

abbrev pub is_row : Option ℕ → AttendanceStatus → StatusRow → Bool
is_row key s row = same_option (key_of row.course) key && is_status s row.status

same_option_lem : (a b : Option ℕ) → same_option a b ≡ true → a ≡ b
same_option_lem none none h = refl
same_option_lem none (some b) h = cc
same_option_lem (some a) none h = cc
same_option_lem (some a) (some b) h = ground arith

same_option_refl : (a : Option ℕ) → same_option a a ≡ true
same_option_refl none = refl
same_option_refl (some a) = ground arith

same_option_symmetric : (a b : Option ℕ) → same_option a b ≡ same_option b a
same_option_symmetric none none = refl
same_option_symmetric none (some b) = refl
same_option_symmetric (some a) none = refl
same_option_symmetric (some a) (some b) = ground arith

of_status-no_counts : (s : AttendanceStatus) → of_status s no_counts ≡ 0
of_status-no_counts present = refl
of_status-no_counts late = refl
of_status-no_counts absent = refl

amount-add_row :
    (key : Option ℕ) (s : AttendanceStatus) (row : StatusRow) (tallies : List Tally)
    → amount key s (add_row row tallies)
      ≡ amount key s tallies + (if is_row key s row then 1 else 0)
unfolding amount add_row
amount-add_row key s row [] =
    let c = of_status-counted s row.status no_counts in
    let z = of_status-no_counts s in
    elim (Bool-cases (same_option (key_of row.course) key)) [
      | inl e ↦ rw e (omega arith)
      | inr e ↦ rw e (omega arith)
    ]
amount-add_row key s row (t ∷ tallies) =
    let c = of_status-counted s row.status t.counts in
    let ih = amount-add_row key s row tallies in
    elim (Bool-cases (has_key (key_of row.course) t)) [
      | inl e ↦
          let same = same_option_lem (key_of t.course) (key_of row.course) e in
          rw (e, ← same)
            (elim (Bool-cases (same_option (key_of t.course) key)) [
              | inl k ↦ rw k (omega arith)
              | inr k ↦ rw k (omega arith)
            ])
      | inr e ↦ rw e (omega arith)
    ]

tally_rows-amount :
    (key : Option ℕ) (s : AttendanceStatus) (rows : List StatusRow) (overall : Counts)
    (tallies : List Tally)
    → amount key s (tally_rows rows overall tallies).1
      ≡ amount key s tallies + count (is_row key s) rows
unfolding tally_rows
tally_rows-amount key s [] overall tallies = omega arith
tally_rows-amount key s (row ∷ rows) overall tallies =
    let ih = tally_rows-amount key s rows (counted row.status overall) (add_row row tallies) in
    let one = amount-add_row key s row tallies in omega arith

tally_rows-overall :
    (s : AttendanceStatus) (rows : List StatusRow) (overall : Counts) (tallies : List Tally)
    → of_status s (tally_rows rows overall tallies).0
      ≡ of_status s overall + count (λ r. is_status s r.status) rows
unfolding tally_rows
tally_rows-overall s [] overall tallies = omega arith
tally_rows-overall s (row ∷ rows) overall tallies =
    let ih = tally_rows-overall s rows (counted row.status overall) (add_row row tallies) in
    let one = of_status-counted s row.status overall in omega arith

abbrev same_key : Tally → Tally → Bool
same_key a b = has_key (key_of a.course) b

-- The keys after a row are those before it, and its own.
add_row-any :
    (key : Option ℕ) (row : StatusRow) (tallies : List Tally)
    → any (has_key key) (add_row row tallies)
      ≡ (same_option (key_of row.course) key || any (has_key key) tallies)
unfolding add_row
add_row-any key row [] = refl
add_row-any key row (t ∷ tallies) =
    let ih = add_row-any key row tallies in
    elim (Bool-cases (has_key (key_of row.course) t)) [
      | inl e ↦
          let same = same_option_lem (key_of t.course) (key_of row.course) e in
          rw (e, ← same) (ground arith)
      | inr e ↦ rw e (ground arith)
    ]

add_row-Distinct :
    (row : StatusRow) (tallies : List Tally)
    → Distinct same_key tallies
    → Distinct same_key (add_row row tallies)
unfolding add_row
add_row-Distinct row [] d = (refl, tt)
add_row-Distinct row (t ∷ tallies) (n, d) =
    let ih = add_row-Distinct row tallies d in
    elim (Bool-cases (has_key (key_of row.course) t)) [
      | inl e ↦ rw e (n, d)
      | inr e ↦
          let apart = add_row-any (key_of t.course) row tallies in
          let q = same_option_symmetric (key_of row.course) (key_of t.course) in
          rw e (ground arith, ih)
    ]

tally_rows-Distinct :
    (rows : List StatusRow) (overall : Counts) (tallies : List Tally)
    → Distinct same_key tallies
    → Distinct same_key (tally_rows rows overall tallies).1
unfolding tally_rows
tally_rows-Distinct [] overall tallies d = d
tally_rows-Distinct (row ∷ rows) overall tallies d =
    tally_rows-Distinct rows (counted row.status overall) (add_row row tallies)
      (add_row-Distinct row tallies d)

amount-zero :
    (key : Option ℕ) (s : AttendanceStatus) (tallies : List Tally)
    → any (has_key key) tallies ≡ false
    → amount key s tallies ≡ 0
unfolding amount
amount-zero key s [] h = refl
amount-zero key s (t ∷ tallies) h =
    let rest = amount-zero key s tallies (ground arith) in
    let off : has_key key t ≡ false = ground arith in rw off (omega arith)

-- With one tally to a key, what is counted under the key is the tally's.
amount-∈ :
    (s : AttendanceStatus) (tallies : List Tally) (t : Tally)
    → Distinct same_key tallies
    → t ∈ tallies
    → amount (key_of t.course) s tallies ≡ of_status s t.counts
unfolding amount
amount-∈ s [] t d m = absurd m
amount-∈ s (x ∷ tallies) t (n, d) m = elim m [
  | inl e ↦
      let zero_rest = amount-zero (key_of x.course) s tallies n in
      let self : has_key (key_of x.course) x ≡ true = same_option_refl (key_of x.course) in
      let here : (if has_key (key_of x.course) x then of_status s x.counts else 0)
            + amount (key_of x.course) s tallies
          ≡ of_status s x.counts =
        rw self (omega (arith, zero_rest)) in
      subst (λ (z : Tally). amount (key_of z.course) s (x ∷ tallies) ≡ of_status s z.counts) (sym e)
        here
  | inr k ↦
      let ih = amount-∈ s tallies t d k in
      let off : has_key (key_of t.course) x ≡ false =
        same_option_symmetric (key_of x.course) (key_of t.course)
        ∙ any-false (same_key x) tallies n k in
      rw off (omega arith)
]

nothing_before : (key : Option ℕ) (s : AttendanceStatus) (n : ℕ) → amount key s [] + n ≡ n
unfolding amount
nothing_before key s n = omega arith

is_status_refl : (s : AttendanceStatus) → is_status s s ≡ true
is_status_refl present = refl
is_status_refl late = refl
is_status_refl absent = refl

is_row_self : (r : StatusRow) → is_row (key_of r.course) r.status r ≡ true
is_row_self r =
    let a = same_option_refl (key_of r.course) in let b = is_status_refl r.status in ground arith

-- The summary counts every attendance once over all, and once under its course: over all and under
-- each course that is listed there are as many of each status as the rows have, and every row's course
-- is listed, those without a course together.
pub get_my_attendance_summary_exact :
    (rows : List StatusRow)
    → ((s : AttendanceStatus)
        → of_status s (get_my_attendance_summary rows).0.counts
          ≡ count (λ r. is_status s r.status) rows)
      × ((entry : Option Course × Presented)
          → entry ∈ (get_my_attendance_summary rows).1
          → (s : AttendanceStatus)
          → of_status s entry.1.counts ≡ count (is_row (key_of entry.0) s) rows)
      × ((r : StatusRow)
          → r ∈ rows
          → (entry : Option Course × Presented) × (entry ∈ (get_my_attendance_summary rows).1)
            × (key_of entry.0 ≡ key_of r.course))
unfolding get_my_attendance_summary
get_my_attendance_summary_exact rows =
    let tallies = (tally_rows rows no_counts []).1 in
    let show : Tally → Option Course × Presented = λ t. (t.course, presented t.counts) in
    (
      λ s.
          let e = tally_rows-overall s rows no_counts [] in
          let z = of_status-no_counts s in omega arith,
      λ entry m s.
          let (t, k, e) = (∈-map_iff show entry tallies).0 m in
          let here = amount-∈ s tallies t (tally_rows-Distinct rows no_counts [] tt) k in
          let all = tally_rows-amount (key_of t.course) s rows no_counts [] in
          subst
            (λ (z : Option Course × Presented).
              of_status s z.1.counts ≡ count (is_row (key_of z.0) s) rows)
            (sym e) (sym here ∙ all ∙ nothing_before (key_of t.course) s _),
      λ r m. elim (Bool-cases (any (has_key (key_of r.course)) tallies)) [
        | inl e ↦
            let (t, k, q) = (any_iff (has_key (key_of r.course)) tallies).0 e in
            (show t, (∈-map_iff show (show t) tallies).1 (t, k, refl), same_option_lem _ _ q)
        | inr e ↦
            let none_there = amount-zero (key_of r.course) r.status tallies e in
            let all = tally_rows-amount (key_of r.course) r.status rows no_counts [] in
            let some_there =
              count-pos (is_row (key_of r.course) r.status) rows r m (is_row_self r) in
            let nothing =
              nothing_before (key_of r.course) r.status
                (count (is_row (key_of r.course) r.status) rows) in
            absurd (ground arith)
      ],
    )
