-- ===== src/Timetable/Clashes.antt =====
-- Two lectures that cannot both be held, described apart from the queries of
-- backend/src/repositories/schedule.repository.ts that look for them.
use wall_e_campus_assistant.Prelude.{
  ℕ, ◌≡◌, Bool, true, false, ◌&&◌, ◌||◌, Option, some, none, List, ◌∈◌, sym, ap, ◌∙◌, arith, ◌==◌,
  same_option, ok, same_truth, find-none,
}
use wall_e_campus_assistant.Text.{Text, trim, to_lower_case, text_eq, text_ltb}
use wall_e_campus_assistant.Cohort.Laws.{text_eq_iff}
use wall_e_campus_assistant.Database.{Prisma}
use wall_e_campus_assistant.Database.Rows.Laws.{Distinct}
use wall_e_campus_assistant.Session.Store.{LectureSchedule}
use wall_e_campus_assistant.Timetable.{
  same_day, day_index, same_schedule_id, overlapping, same_text_as, find_instructor_conflict,
  find_room_conflict,
}
use wall_e_campus_assistant.Timetable.Service.{probe_of, no_clash, assert_slot_is_free}

-- The same room, whatever the case of its letters.
unfoldable pub rooms_alike : Text → Text → Bool
rooms_alike a b = text_eq (to_lower_case a) (to_lower_case b)

eq_symmetric : (a b : ℕ) → (a == b) ≡ (b == a)
eq_symmetric a b = ground arith

rooms_alike_symmetric : (a b : Text) → rooms_alike a b ≡ rooms_alike b a
unfolding rooms_alike
rooms_alike_symmetric a b =
    let ab = text_eq_iff (to_lower_case a) (to_lower_case b) in
    let ba = text_eq_iff (to_lower_case b) (to_lower_case a) in
    same_truth _ _ (λ h. ba.1 (sym (ab.0 h))) (λ h. ab.1 (sym (ba.0 h)))

module _ (prisma : Prisma) where
  -- The hours meet.
  abbrev pub meets : LectureSchedule → LectureSchedule → Bool
  meets a b = prisma.text_less a.start_time b.end_time && prisma.text_less b.start_time a.end_time

  -- Both are held, in one organization, on one day, at hours that meet, by one instructor or in one
  -- room.
  unfoldable pub clashes : LectureSchedule → LectureSchedule → Bool
  unfolding rooms_alike
  clashes a b =
      a.is_active
      && b.is_active
      && a.organization_id == b.organization_id
      && same_day a.day_of_week b.day_of_week
      && meets a b
      && (a.instructor_id == b.instructor_id || rooms_alike a.room b.room)

  pub clashes_symmetric : (a b : LectureSchedule) → clashes a b ≡ clashes b a
  unfolding clashes
  clashes_symmetric a b =
      rw
        (
          eq_symmetric a.organization_id b.organization_id,
          eq_symmetric (day_index a.day_of_week) (day_index b.day_of_week),
          eq_symmetric a.instructor_id b.instructor_id,
          rooms_alike_symmetric a.room b.room,
        )
        (ground arith)

  -- A timetable in which nobody teaches two lectures at once and no room holds two.
  pub record IsTimetable (rows : List LectureSchedule) : Type 0 where
    pub apart : Distinct (clashes) rows
    pub one_id : Distinct same_schedule_id rows
    pub tidy : (l : LectureSchedule) → l ∈ rows → trim l.room ≡ l.room
    pub hours : (l : LectureSchedule) → l ∈ rows → text_ltb l.start_time l.end_time ≡ true

  room_asked :
      (wanted room : Text)
      → trim wanted ≡ wanted
      → same_text_as prisma wanted room ≡ rooms_alike wanted room
  unfolding same_text_as rooms_alike
  room_asked wanted room tidy =
      let insensitive = prisma.equals_insensitive_iff room (trim wanted) in
      let alike = text_eq_iff (to_lower_case wanted) (to_lower_case room) in
      same_truth _ _ (λ h. alike.1 (ap to_lower_case (sym tidy) ∙ sym (insensitive.0 h)))
        (λ h. insensitive.1 (sym (alike.0 h) ∙ ap to_lower_case (sym tidy)))

  -- What a slot that is found free says of each row that is not left out.
  pub assert_slot_is_free-clashes :
      (l : LectureSchedule) (exclude_id : Option ℕ) (rows : List LectureSchedule)
      → assert_slot_is_free prisma l exclude_id rows ≡ ok tt
      → trim l.room ≡ l.room
      → (other : LectureSchedule) → other ∈ rows
      → same_option exclude_id (some other.id) ≡ false
      → clashes l other ≡ false
  unfolding assert_slot_is_free no_clash find_instructor_conflict find_room_conflict overlapping
      clashes
  assert_slot_is_free-clashes l exclude_id rows free tidy other m own =
      let probe = probe_of l exclude_id in
      let teaches =
        λ (y : LectureSchedule). overlapping prisma probe y && y.instructor_id == l.instructor_id in
      let booked =
        λ (y : LectureSchedule). overlapping prisma probe y && same_text_as prisma l.room y.room in
      let nobody : prisma.find_unique LectureSchedule teaches rows ≡ none = ground arith in
      let nowhere : prisma.find_unique LectureSchedule booked rows ≡ none = ground arith in
      let a =
        find-none teaches rows (sym (prisma.find_unique_lem LectureSchedule teaches rows) ∙ nobody)
          m in
      let b =
        find-none booked rows (sym (prisma.find_unique_lem LectureSchedule booked rows) ∙ nowhere)
          m in
      let c = room_asked l.room other.room tidy in
      let d = eq_symmetric l.organization_id other.organization_id in
      let e = eq_symmetric (day_index l.day_of_week) (day_index other.day_of_week) in
      let f = eq_symmetric l.instructor_id other.instructor_id in ground arith
