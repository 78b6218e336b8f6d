-- ===== src/Session/Window/States.antt =====
-- The states of a session's window against the clock (backend/src/utils/session-window.ts).
use wall_e_campus_assistant.Prelude.{
  ℕ, ◌+◌, ◌*◌, ◌≤◌, ◌<◌, ◌≡◌, refl, ◌↔◌, ◌⊎◌, inl, true, Option, none, some, arith, List, ◌∷◌, [],
}
use wall_e_campus_assistant.Text.{trim}
use wall_e_campus_assistant.Session.Window.{
  minute_ms, clock_of, match_clock, clock_minutes, LectureTimes, duration_between,
  lecture_duration_minutes, active, SessionWindowInput, SessionWindowConfig, session_window,
  SessionLifecycleState, upcoming, in_progress, pending, recorded, session_state, is_scannable,
  is_stale, present, late, punctuality,
}

clock_of-lt : (hour minute : ℕ) {n : ℕ} → clock_of hour minute ≡ some n → n < 1440
unfolding clock_of
clock_of-lt hour minute h = ground arith

match_clock-lt : (s : List ℕ) {n : ℕ} → match_clock s ≡ some n → n < 1440
unfolding match_clock
match_clock-lt (a ∷ c ∷ m ∷ n ∷ []) h = ground arith
match_clock-lt (a ∷ b ∷ c ∷ m ∷ n ∷ []) h = ground arith
match_clock-lt _ h = cc

duration_between_bounds :
    (start end : Option ℕ) (d : ℕ)
    → ((e : ℕ) → end ≡ some e → e < 1440)
    → 0 < d
    → (0 < duration_between start end d)
      × ((duration_between start end d ≡ d) ⊎ (duration_between start end d < 1440))
unfolding duration_between
duration_between_bounds none end d h p = (p, inl refl)
duration_between_bounds (some start) none d h p = (p, inl refl)
duration_between_bounds (some start) (some end) d h p = let q = h end refl in ground arith

-- A lecture's duration is positive if the default is, and is the default or less than a day.
pub lecture_duration_minutes_bounds :
    (schedule : Option LectureTimes) (default_minutes : ℕ)
    → 0 < default_minutes
    → (0 < lecture_duration_minutes schedule default_minutes)
      × ((lecture_duration_minutes schedule default_minutes ≡ default_minutes)
          ⊎ (lecture_duration_minutes schedule default_minutes < 1440))
unfolding lecture_duration_minutes clock_minutes
lecture_duration_minutes_bounds none d p = (p, inl refl)
lecture_duration_minutes_bounds (some schedule) d p =
    duration_between_bounds (clock_minutes schedule.start_time) (clock_minutes schedule.end_time) d
      (λ e h. match_clock-lt (trim schedule.end_time) h) p

-- How far a state has come.
abbrev pub rank : SessionLifecycleState → ℕ
rank upcoming = 0
rank in_progress = 1
rank pending = 2
rank recorded = 3

module _ (session : SessionWindowInput) (config : SessionWindowConfig) where
  -- As the clock advances over an unchanged session, its state never goes back.
  pub session_state_monotone :
      (now later : ℕ)
      → now ≤ later
      → rank (session_state session now config) ≤ rank (session_state session later config)
  unfolding session_state
  session_state_monotone now later h = ground arith

  -- A session is scannable exactly from its start to the end of its lecture, both included, while
  -- it is not closed.
  pub is_scannable_iff :
      (now : ℕ)
      → (is_scannable session now config ≡ true) ↔ (
          (session.status ≡ active)
          × (session.start_time ≤ now)
          × (now ≤ (session_window session config).ends_at))
  unfolding is_scannable
  is_scannable_iff now = ground arith

  -- A session is stale exactly if it is pending, so that it is over and still open, and the grace
  -- period after the end of its lecture has passed too.
  pub is_stale_iff :
      (now : ℕ)
      → (is_stale session now config ≡ true) ↔ (
          (session_state session now config ≡ pending)
          × ((session_window session config).ends_at + config.stale_grace_minutes * minute_ms
              < now))
  unfolding is_stale session_state session_window
  is_stale_iff now = ground arith

-- Punctuality is PRESENT exactly up to the threshold, the threshold included, and LATE exactly after
-- it.
pub punctuality_iff :
    (opened_at scanned_at late_after : ℕ)
    → ((punctuality opened_at scanned_at late_after ≡ present)
        ↔ (scanned_at ≤ opened_at + late_after * minute_ms))
      × ((punctuality opened_at scanned_at late_after ≡ late)
          ↔ (opened_at + late_after * minute_ms < scanned_at))
unfolding punctuality
punctuality_iff o s l = ground arith
