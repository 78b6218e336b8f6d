-- ===== src/Session/Window/Occurrences.antt =====
-- Which occurrence of a weekly lecture a session belongs to (backend/src/utils/session-window.ts).
use wall_e_campus_assistant.Prelude.{
  ℕ, ◌+◌, ◌*◌, ◌≤◌, ◌<◌, ◌≡◌, ◌&&◌, Bool, true, false, arith, ltb, leb,
}
use wall_e_campus_assistant.Session.Window.{
  minute_ms, occurrence_open_early_ms, occurrence_open_late_ms, belongs_to_occurrence,
  same_occurrence_window, InstantRange,
}

abbrev pub week_ms : ℕ
week_ms = 7 * 24 * 60 * minute_ms

-- The query `startTime: { gte: from, lt: to }`.
unfoldable pub in_range : InstantRange → ℕ → Bool
in_range range at = leb range.from at && ltb at range.to

-- Where an occurrence follows another by a week or more, no session of the one starts in the band
-- around a session of the other, so that none belongs to both.
pub same_occurrence_window_sound :
    (o o' s s' : ℕ)
    → o + week_ms ≤ o'
    → belongs_to_occurrence s o ≡ true
    → belongs_to_occurrence s' o' ≡ true
    → (in_range (same_occurrence_window s) s' ≡ false)
      × (in_range (same_occurrence_window s') s ≡ false)
unfolding belongs_to_occurrence in_range same_occurrence_window
same_occurrence_window_sound o o' s s' h p q = ground arith

-- Two sessions of one occurrence, neither started before the lecture's own hour, are each in the
-- band around the other.
pub same_occurrence_window_complete :
    (o s s' : ℕ)
    → o ≤ s
    → o ≤ s'
    → belongs_to_occurrence s o ≡ true
    → belongs_to_occurrence s' o ≡ true
    → in_range (same_occurrence_window s) s' ≡ true
unfolding belongs_to_occurrence in_range same_occurrence_window
same_occurrence_window_complete o s s' h h' p q = ground arith

-- Of two sessions of one occurrence, the first opened up to an hour before the lecture's own hour
-- and the second more than twelve hours after the first, neither is in the band around the other.
pub same_occurrence_window_gap :
    (o s s' : ℕ)
    → o ≤ s + occurrence_open_early_ms
    → s + occurrence_open_late_ms < s'
    → s' < o + occurrence_open_late_ms
    → (belongs_to_occurrence s o ≡ true)
      × (belongs_to_occurrence s' o ≡ true)
      × (in_range (same_occurrence_window s) s' ≡ false)
      × (in_range (same_occurrence_window s') s ≡ false)
unfolding belongs_to_occurrence in_range same_occurrence_window
same_occurrence_window_gap o s s' h p q = ground arith
