-- ===== src/Occurrence/Next.antt =====
-- That a weekly slot is always held again within eight days (nextOccurrence of
-- backend/src/utils/occurrence.util.ts).
use wall_e_campus_assistant.Prelude.{
  ℕ, ◌+◌, ◌-◌, ◌*◌, ◌/◌, ◌%◌, ◌≤◌, ◌<◌, ◌≡◌, refl, inl, inr, some, List, [], ◌∷◌, ◌∈◌, sym, ap, ◌∙◌,
  subst, arith, Bool-cases, ltb, ◌==◌,
}
use wall_e_campus_assistant.Session.Store.{
  DayOfWeek, sunday, monday, tuesday, wednesday, thursday, friday, saturday,
}
use wall_e_campus_assistant.Timetable.{day_index}
use wall_e_campus_assistant.Occurrence.{
  TimeZone, RecurringSlot, day_ms, utc_day, zoned_time_to_utc, days_walked, occurrences_at,
  occurrences_between, next_occurrence, parse_clock, first_of,
}
use wall_e_campus_assistant.Occurrence.Laws.{IsSlotTime, walk_days-first, occurrences_between_iff}
use wall_e_campus_assistant.Occurrence.Zones.{
  IsZone, IsUnambiguous, date_of, whole_date, shown, only,
}

day_index_lt : (d : DayOfWeek) → day_index d < 7
day_index_lt sunday = omega arith
day_index_lt monday = omega arith
day_index_lt tuesday = omega arith
day_index_lt wednesday = omega arith
day_index_lt thursday = omega arith
day_index_lt friday = omega arith
day_index_lt saturday = omega arith

-- The next day of the week that is wanted, the first day counted.
next_day : (first wanted : ℕ) → wanted < 7 → (k : ℕ) × (k < 7) × (utc_day (first + k) ≡ wanted)
next_day first wanted h = ((wanted + 7 - (first + 4) % 7) % 7, omega arith, omega arith)

a_week_on : (day : ℕ) → utc_day (day + 7) ≡ utc_day day
a_week_on day = omega arith

first_of-some : (l : List ℕ) (x : ℕ) → x ∈ l → (y : ℕ) × (first_of l ≡ some y) × (y ∈ l)
first_of-some [] x m = absurd m
first_of-some (y ∷ l) x m = (y, refl, inl refl)

module _ (zone : TimeZone) (real : IsZone zone) (clock : ℕ) (short : clock < day_ms) (from : ℕ)
    (clear : IsUnambiguous zone clock from) where
  abbrev at_day : ℕ → ℕ
  at_day day = zoned_time_to_utc zone (day * day_ms + clock)

  day_shown :
      (day : ℕ) → zone.reading from / day_ms ≤ day → zone.reading (at_day day) / day_ms ≡ day
  day_shown day h = (date_of _ day clock (shown zone clock short from clear day h) short).0

  -- On a later day the slot's time is still to come.
  still_to_come : (day : ℕ) → zone.reading from / day_ms < day → from < at_day day
  still_to_come day h = elim (Bool-cases (ltb from (at_day day))) [
    | inl e ↦ ground arith
    | inr e ↦
        let shown_at = day_shown day (omega arith) in
        let back = real.later_day (at_day day) from (ground arith) in absurd (omega arith)
  ]

  soon :
      (day : ℕ)
      → zone.reading from / day_ms ≤ day
      → day < zone.reading from / day_ms + 7
      → from < at_day day
      → at_day day ≤ from + 8 * day_ms
  soon day lo hi later =
      let drift = real.behind from (at_day day) (omega arith) in
      let at = shown zone clock short from clear day lo in omega arith

  a_week_later :
      (day : ℕ)
      → zone.reading from / day_ms ≤ day
      → at_day day ≤ from
      → at_day (day + 7) ≤ from + 8 * day_ms
  a_week_later day lo past =
      let next = still_to_come (day + 7) (omega arith) in
      let drift = real.behind (at_day day) (at_day (day + 7)) (omega arith) in
      let at = shown zone clock short from clear day lo in
      let at' = shown zone clock short from clear (day + 7) (omega arith) in omega arith

  -- A day of the slot's on which it is held within eight days.
  held_soon :
      (wanted : ℕ)
      → wanted < 7
      → (day : ℕ) × (zone.reading from / day_ms ≤ day)
        × (utc_day day ≡ wanted)
        × (from < at_day day)
        × (at_day day ≤ from + 8 * day_ms)
  held_soon wanted h =
      let first = zone.reading from / day_ms in
      let (k, small, w) = next_day first wanted h in
      elim (Bool-cases (ltb from (at_day (first + k)))) [
        | inl e ↦
            let later : from < at_day (first + k) = ground arith in
            (first + k, omega arith, w, later, soon (first + k) (omega arith) (omega arith) later)
        | inr e ↦ (
          first + k + 7,
          omega arith,
          a_week_on (first + k) ∙ w,
          still_to_come (first + k + 7) (omega arith),
          a_week_later (first + k) (omega arith) (ground arith),
        )
      ]

  occurrences-first :
      (wanted horizon_ms t s : ℕ)
      → first_of (occurrences_at zone wanted (some clock) from horizon_ms) ≡ some t
      → t ≤ from + horizon_ms
      → from < s
      → s < t
      → ¬ IsSlotTime zone clock wanted s
  occurrences-first wanted horizon_ms t s h hi lo before (w, c) =
      let first = zone.reading from / day_ms in
      let (d, a, held, q, none_before) =
        walk_days-first zone wanted clock from (from + horizon_ms) (days_walked horizon_ms) first t
          h in
      let later = zone.reading s in
      let e : later ≡ (later / day_ms) * day_ms + clock =
        sym (whole_date later) ∙ ap (λ z. (later / day_ms) * day_ms + z) c in
      let p : s ≡ at_day (later / day_ms) =
        sym (only zone clock short from clear real s lo c) ∙ ap (zoned_time_to_utc zone) e in
      let day_of_t : zone.reading t / day_ms ≡ d =
        ap (λ z. zone.reading z / day_ms) q ∙ day_shown d a in
      let order = real.later_day s t (omega arith) in
      elim (Bool-cases (later / day_ms == d)) [
        | inl same ↦
            let here : later / day_ms ≡ d = ground arith in
            let equal : s ≡ t = p ∙ ap at_day here ∙ sym q in omega arith
        | inr apart ↦
            none_before (later / day_ms) (real.later_day from s (omega arith)) (ground arith)
              (w, subst (λ z. from < z) p lo, subst (λ z. z ≤ from + horizon_ms) p (omega arith))
      ]

  -- A weekly slot whose time the clock shows on each day, and about which it is not changed, has a next occurrence, whenever one asks:
  -- it is after that instant and at most eight days on, the clock shows the slot's day of the week and
  -- its time, and at no instant before it does the clock show these.
  pub next_occurrence_exists :
      (slot : RecurringSlot)
      → parse_clock slot.start_time ≡ some clock
      → (t : ℕ) × (next_occurrence slot from zone ≡ some t)
        × (from < t)
        × (t ≤ from + 8 * day_ms)
        × IsSlotTime zone clock (day_index slot.day_of_week) t
        × ((s : ℕ) → from < s → s < t → ¬ IsSlotTime zone clock (day_index slot.day_of_week) s)
  unfolding next_occurrence occurrences_between
  next_occurrence_exists slot parsed =
      let wanted = day_index slot.day_of_week in
      let (day, lo, w, later, hi) = held_soon wanted (day_index_lt slot.day_of_week) in
      let found = occurrences_between_iff zone real clock short from clear slot (8 * day_ms) in
      let (day_is, clock_is) =
        date_of _ day clock (shown zone clock short from clear day lo) short in
      let m = (found (at_day day) parsed).1 (later, hi, (ap utc_day day_is ∙ w, clock_is)) in
      let (t, e, k) =
        first_of-some (occurrences_between slot from (8 * day_ms) zone) (at_day day) m in
      let (a, b, c) = (found t parsed).0 k in
      (
        t,
        e,
        a,
        b,
        c,
        λ s lo before. occurrences-first wanted (8 * day_ms) t s (rw parsed at e) b lo before,
      )
