-- ===== src/Occurrence/Laws.antt =====
-- Which instants are found (backend/src/utils/occurrence.util.ts).
use wall_e_campus_assistant.Prelude.{
  ℕ, zero, suc, ◌+◌, ◌*◌, ◌/◌, ◌%◌, ◌≤◌, ◌<◌, ◌≡◌, ◌↔◌, inl, inr, true, ◌&&◌, some, ◌∈◌, sym, ap,
  ◌∙◌, subst, arith, Bool-cases, false≢true, ltb, leb, ◌==◌,
}
use wall_e_campus_assistant.Timetable.{day_index}
use wall_e_campus_assistant.Occurrence.{
  TimeZone, RecurringSlot, day_ms, utc_day, zoned_time_to_utc, walk_days, days_walked,
  occurrences_at, occurrences_between, parse_clock, first_of,
}
use wall_e_campus_assistant.Occurrence.Zones.{
  IsZone, IsUnambiguous, date_of, whole_date, shown, only,
}

module _ (zone : TimeZone) (wanted clock from until : ℕ) where
  -- The day is one of the slot's, and the slot's time on it is in the window.
  abbrev pub IsHeld : ℕ → Type 0
  IsHeld day =
      (utc_day day ≡ wanted)
      × (from < zoned_time_to_utc zone (day * day_ms + clock))
      × (zoned_time_to_utc zone (day * day_ms + clock) ≤ until)

  IsHeld-iff :
      (day : ℕ)
      → ((utc_day day == wanted
            && ltb from (zoned_time_to_utc zone (day * day_ms + clock))
            && leb (zoned_time_to_utc zone (day * day_ms + clock)) until)
          ≡ true)
        ↔ IsHeld day
  IsHeld-iff day = ground arith

  -- The loop finds the slot's times on the days that it walks, and no others.
  pub ∈-walk_days_iff :
      (left day t : ℕ)
      → (t ∈ walk_days zone wanted clock from until left day) ↔ (
          (d : ℕ) × (day ≤ d)
          × (d < day + left)
          × IsHeld d
          × (t ≡ zoned_time_to_utc zone (d * day_ms + clock)))
  unfolding walk_days
  ∈-walk_days_iff zero day t = (λ m. absurd m, λ (d, a, b, _, _). absurd (omega arith))
  ∈-walk_days_iff (suc left) day t =
      let (to, from') = ∈-walk_days_iff left (day + 1) t in
      let (seen, shown) = IsHeld-iff day in
      elim (Bool-cases (
        utc_day day == wanted
        && ltb from (zoned_time_to_utc zone (day * day_ms + clock))
        && leb (zoned_time_to_utc zone (day * day_ms + clock)) until)) [
          | inl e ↦ rw e (
            λ m. elim m [
              | inl q ↦ (day, omega arith, omega arith, seen e, q)
              | inr k ↦ let (d, a, b, h, q) = to k in (d, omega arith, omega arith, h, q)
            ],
            λ (d, a, b, h, q). elim (Bool-cases (d == day)) [
              | inl same ↦
                  inl (q ∙ ap (λ z. zoned_time_to_utc zone (z * day_ms + clock)) (ground arith))
              | inr apart ↦ inr (from' (d, ground arith, omega arith, h, q))
            ],
          )
          | inr e ↦ rw e (
            λ m. let (d, a, b, h, q) = to m in (d, omega arith, omega arith, h, q),
            λ (d, a, b, h, q). elim (Bool-cases (d == day)) [
              | inl same ↦
                  let here : d ≡ day = ground arith in
                  absurd (false≢true (sym e ∙ shown (subst IsHeld here h)))
              | inr apart ↦ from' (d, ground arith, omega arith, h, q)
            ],
          )
        ]

  -- The first that is found is of the first day of the slot's that is in the window.
  pub walk_days-first :
      (left day t : ℕ)
      → first_of (walk_days zone wanted clock from until left day) ≡ some t
      → (d : ℕ) × (day ≤ d)
        × IsHeld d
        × (t ≡ zoned_time_to_utc zone (d * day_ms + clock))
        × ((e : ℕ) → day ≤ e → e < d → ¬ IsHeld e)
  unfolding walk_days
  walk_days-first zero day t h = absurd (ground arith)
  walk_days-first (suc left) day t h =
      let (seen, shown) = IsHeld-iff day in
      elim (Bool-cases (
        utc_day day == wanted
        && ltb from (zoned_time_to_utc zone (day * day_ms + clock))
        && leb (zoned_time_to_utc zone (day * day_ms + clock)) until)) [
          | inl e ↦
              let q : zoned_time_to_utc zone (day * day_ms + clock) ≡ t =
                let h' = rw e at h in ground arith in
              (day, omega arith, seen e, sym q, λ z a b k. omega arith)
          | inr e ↦
              let (d, a, b, q, before) = walk_days-first left (day + 1) t (rw e at h) in
              (
                d,
                omega arith,
                b,
                q,
                λ z lo hi k. elim (Bool-cases (z == day)) [
                  | inl same ↦
                      let here : z ≡ day = ground arith in
                      false≢true (sym e ∙ shown (subst IsHeld here k))
                  | inr apart ↦ before z (ground arith) hi k
                ],
              )
        ]

-- The days walked are enough.
enough_days :
    (now later from t horizon_ms : ℕ)
    → later + from ≤ now + t + day_ms
    → t ≤ from + horizon_ms
    → later / day_ms < now / day_ms + days_walked horizon_ms
enough_days now later from t horizon_ms a b = omega arith

-- What the clock reads at an instant of the slot.
abbrev pub IsSlotTime : TimeZone → ℕ → ℕ → ℕ → Type 0
IsSlotTime zone clock wanted t =
    (utc_day (zone.reading t / day_ms) ≡ wanted) × (zone.reading t % day_ms ≡ clock)

module _ (zone : TimeZone) (real : IsZone zone) (clock : ℕ) (short : clock < day_ms) (from : ℕ)
    (clear : IsUnambiguous zone clock from) where
  walked_iff :
      (wanted horizon_ms t : ℕ)
      → (t ∈ occurrences_at zone wanted (some clock) from horizon_ms)
        ↔ ((from < t) × (t ≤ from + horizon_ms) × IsSlotTime zone clock wanted t)
  walked_iff wanted horizon_ms t =
      let first = zone.reading from / day_ms in
      let (to, from') =
        ∈-walk_days_iff zone wanted clock from (from + horizon_ms) (days_walked horizon_ms) first
          t in
      (
        λ m.
            let (d, a, b, (w, lo, hi), q) = to m in
            let (day_is, clock_is) =
              date_of (zone.reading t) d clock
                (ap zone.reading q ∙ shown zone clock short from clear d a) short in
            (
              subst (λ z. from < z) (sym q) lo,
              subst (λ z. z ≤ from + horizon_ms) (sym q) hi,
              (ap utc_day day_is ∙ w, clock_is),
            ),
        λ (lo, hi, (w, c)).
            let later = zone.reading t in
            let e : later ≡ (later / day_ms) * day_ms + clock =
              sym (whole_date later) ∙ ap (λ z. (later / day_ms) * day_ms + z) c in
            let q : t ≡ zoned_time_to_utc zone ((later / day_ms) * day_ms + clock) =
              sym (only zone clock short from clear real t lo c) ∙ ap (zoned_time_to_utc zone) e in
            from' (
              later / day_ms,
              real.later_day from t (omega arith),
              enough_days (zone.reading from) later from t horizon_ms
                  (real.ahead from t (omega arith)) hi,
              (w, subst (λ z. from < z) q lo, subst (λ z. z ≤ from + horizon_ms) q hi),
              q,
            ),
      )

  -- Of a slot whose time the clock shows on each day, and about which it is not changed, exactly the instants of the window are
  -- found, its start excluded and its end included, at which the clock shows the slot's day of the
  -- week and its time.
  pub occurrences_between_iff :
      (slot : RecurringSlot) (horizon_ms t : ℕ)
      → parse_clock slot.start_time ≡ some clock
      → (t ∈ occurrences_between slot from horizon_ms zone) ↔ (
          (from < t)
          × (t ≤ from + horizon_ms)
          × IsSlotTime zone clock (day_index slot.day_of_week) t)
  unfolding occurrences_between
  occurrences_between_iff slot horizon_ms t parsed = elim (Bool-cases (horizon_ms == 0)) [
    | inl e ↦ rw e (λ m. absurd m, λ (lo, hi, _). absurd (ground arith))
    | inr e ↦ rw (e, parsed) (walked_iff (day_index slot.day_of_week) horizon_ms t)
  ]
