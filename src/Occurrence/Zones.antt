-- ===== src/Occurrence/Zones.antt =====
-- What a zone's clock does, and that the conversion of backend/src/utils/occurrence.util.ts
-- (zonedTimeToUtc) finds the instant at which it shows a time. What is assumed of a clock is said of its
-- readings alone.
use wall_e_campus_assistant.Prelude.{ℕ, ◌+◌, ◌-◌, ◌*◌, ◌/◌, ◌%◌, ◌≤◌, ◌<◌, ◌≡◌, sym, ap, ◌∙◌, arith}
use wall_e_campus_assistant.Occurrence.{TimeZone, day_ms, zoned_time_to_utc}

-- What the clock of a zone does: its date never goes back, and in no stretch of time is it moved by
-- more than a day.
pub record IsZone (zone : TimeZone) : Type 0 where
  pub later_day : (a b : ℕ) → a ≤ b → zone.reading a / day_ms ≤ zone.reading b / day_ms
  pub ahead : (a b : ℕ) → a ≤ b → zone.reading b + a ≤ zone.reading a + b + day_ms
  pub behind : (a b : ℕ) → a ≤ b → b + zone.reading a ≤ zone.reading b + a + day_ms

-- A time of the day that the changes of the clock leave alone, from the day of an instant on: the
-- clock shows it on every day; and about an instant at which it is shown the clock is not changed, for
-- as long before and after as the clock is ever changed by (an hour, where summer time is an hour).
pub record IsUnambiguous (zone : TimeZone) (clock from : ℕ) : Type 0 where
  pub change : ℕ
  pub changed_by : (a b : ℕ) → zone.reading a + b ≤ zone.reading b + a + change
  pub unchanged :
      (t s : ℕ)
      → zone.reading from / day_ms ≤ zone.reading t / day_ms
      → zone.reading t % day_ms ≡ clock
      → t ≤ s + change
      → s ≤ t + change
      → zone.reading s + t ≡ zone.reading t + s
  pub on_every_day :
      (day : ℕ)
      → zone.reading from / day_ms ≤ day
      → (t : ℕ) × (zone.reading t ≡ day * day_ms + clock)

pub date_of :
    (n d clock : ℕ)
    → n ≡ d * day_ms + clock
    → clock < day_ms
    → (n / day_ms ≡ d) × (n % day_ms ≡ clock)
date_of n d clock e h = (omega arith, omega arith)

pub whole_date : (n : ℕ) → (n / day_ms) * day_ms + n % day_ms ≡ n
whole_date n = omega arith

module _ (zone : TimeZone) (clock : ℕ) (short : clock < day_ms) (from : ℕ)
    (clear : IsUnambiguous zone clock from) where
  -- The second pass reads the offset so near to the instant that it is the one in force there.
  converted :
      (t : ℕ)
      → zone.reading from / day_ms ≤ zone.reading t / day_ms
      → zone.reading t % day_ms ≡ clock
      → zoned_time_to_utc zone (zone.reading t) ≡ t
  unfolding zoned_time_to_utc
  converted t later shows =
      let naive = zone.reading t in
      let guess = (naive + naive) - zone.reading naive in
      let over = clear.changed_by naive t in
      let under = clear.changed_by t naive in
      let same = clear.unchanged t guess later shows (omega arith) (omega arith) in omega arith

  pub shown :
      (day : ℕ)
      → zone.reading from / day_ms ≤ day
      → zone.reading (zoned_time_to_utc zone (day * day_ms + clock)) ≡ day * day_ms + clock
  shown day h =
      let (t, e) = clear.on_every_day day h in
      let (d, c) = date_of (zone.reading t) day clock e short in
      ap (λ z. zone.reading (zoned_time_to_utc zone z)) (sym e)
      ∙ ap zone.reading (converted t (omega arith) c)
      ∙ e

  pub only :
      IsZone zone
      → (t : ℕ) → from < t
      → zone.reading t % day_ms ≡ clock
      → zoned_time_to_utc zone (zone.reading t) ≡ t
  only real t h c = converted t (real.later_day from t (omega arith)) c
