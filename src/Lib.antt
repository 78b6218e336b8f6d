-- ===== src/Lib.antt =====
-- The core of the campus assistant's backend (backend/). Lecturers open a session of a lecture and
-- project a QR code, students scan it, and a worker closes what was forgotten and calls the roll; with
-- the guards and the cohort addressing that these rest on. The timetable that the lectures stand in,
-- the instants at which they are held, and the reminders of them that a worker generates into an
-- outbox and another sends. Who a request is from, and the codes that are mailed to an address.
--
-- The parts, and the code that each file is about:
--   Access: backend/src/utils/authorization.ts (Permissions: hasPermission, requirePermission,
--     requireSameUniversity, requireSameDepartment), course-access.ts (Courses: canManageCourse,
--     canExportCourse), session-access.ts (Sessions: canSeeSession, isSessionOperator).
--   Cohort: backend/src/utils/cohort.ts (resolveCohort, cohortMatches); Cohort.Semester is
--     parseSemesterNumber of backend/src/types/schedule.types.ts, its regular expressions written
--     as searches over the text.
--   Session.Window: backend/src/utils/session-window.ts (sessionWindow, sessionState, isScannable,
--     isStale, punctuality, belongsToOccurrence, sameOccurrenceWindow).
--   Session.Store: the tables of backend/prisma/schema.prisma as one record of lists, `Db`.
--   Session.Repository: the queries of backend/src/repositories/session.repository.ts,
--     attendance.repository.ts, student.repository.ts and schedule.repository.ts. A write is a
--     function from the tables to the tables.
--   Session.Service: backend/src/services/session.service.ts (createSession as open_session,
--     closeSession, getQrToken and what they call).
--   Session.Scan: scanAttendance of backend/src/services/attendance.service.ts with the error table
--     of backend/src/types/scan.types.ts; a refused scan is a value.
--   Session.Sweep: runSweep of backend/src/services/attendance-lifecycle.service.ts
--     (closeStaleSessions, sweepAbsences, sweepOne, attendedElsewhereInOccurrence).
--   Session.Steps: the writes of all of them as the steps of one relation on the tables. Every
--     await of the code lets another request or the worker write, so that a state of the tables is
--     what any sequence of those steps leads to; Session.Invariant has what each write keeps.
--   Challenge: backend/src/repositories/email-challenge.repository.ts; Challenge.Service is
--     backend/src/services/email-challenge.service.ts (issue, notifyWithoutCode, verify), and
--     Challenge.Steps its writes as steps. There the transaction that issues a code is one step, for
--     an address and purpose whose transactions do not overlap; Challenge.Transactions has transactions
--     that begin, are in flight and commit, at the isolation READ COMMITTED that the code leaves them.
--   Timetable: backend/src/repositories/schedule.repository.ts; Timetable.Service has the changes of
--     backend/src/services/schedule.service.ts (createSchedule, updateSchedule, deactivateSchedule) and
--     Timetable.Views what it shows to whom (getSchedule, getStudentTimetable, getInstructorTimetable,
--     listSchedules). Timetable.Clashes says apart from the queries which lectures cannot both be held.
--   Occurrence: backend/src/utils/occurrence.util.ts (zonedTimeToUtc, occurrencesBetween,
--     nextOccurrence, formatClock).
--   Outbox: backend/src/repositories/notification.repository.ts; Outbox.Dispatcher is
--     backend/src/services/notification.dispatcher.ts, Outbox.Inbox of
--     backend/src/services/notification.service.ts what counts and marks as read, and Outbox.Steps the
--     writes as steps in any order.
--   Reminders: backend/src/services/lecture-notification.service.ts, with REMINDER_RULES of
--     backend/src/config/notification.config.ts and the texts of
--     backend/src/services/notification.content.ts.
--   Account: backend/src/middleware/auth.middleware.ts (authenticate, requireRole, requireApproved),
--     with backend/src/lib/supabase-auth.ts and backend/src/utils/client-platform.ts; Account.Verified is
--     about the token.
--   Summary: getMyAttendanceSummary of backend/src/services/attendance.service.ts. Paging:
--     backend/src/utils/pagination.ts.
--   Seeding: backend/src/utils/seed-guard.ts (assertSeedAllowed).
--   Errors: backend/src/utils/AppError.ts. Text: the string functions that the code calls.
--   Prelude: lists, results and tests that the parts share.
--   Tests: one concrete lecture, at which the theorems below are applied.
--
-- The database client and the token library are not part of the repository. Database.Prisma and
-- Qr.Jwt are records of the calls that the code makes of them, with the documented behaviour that
-- the code relies on as laws; Database.Reference and Qr.Reference have all of it. The same holds of
-- the hash of the mailed codes, Challenge.Service.Bcrypt. The semantics of
-- a unique constraint is that of `create` and of `createMany` with skipDuplicates. A text filter that is
-- equal without case is ILIKE in PostgreSQL; the law of Database.Prisma is what it does to texts with no
-- %, _ or backslash, whose letters outside A to Z are written alike.
--
-- The clock of a time zone (Intl.DateTimeFormat), jose, jsonwebtoken and the push provider are
-- parameters too; a theorem that relies on a zone's clock names what it relies on (Occurrence.Zones.IsZone
-- and IsUnambiguous, which speak of its readings only).
--
-- Numbers are natural numbers: an instant is its milliseconds since 1970, an id a number that is
-- only compared. Every loop goes through a list, a text or a number of days or pages; the one function
-- with a number of steps is Occurrence.decimal, which has one for each digit and as many as the number's
-- value and one, which Occurrence.Digits is about. The size of a worker's batch is a parameter.
--
-- Not modelled: routes, controllers and validation, which pass values on; the workers' timers; logs and
-- mail and push providers; the registration of accounts, grades and the academic registry; the web and
-- mobile clients.
pub mod Prelude
pub mod Text
pub mod Session
pub mod Access
pub mod Account
pub mod Cohort
pub mod Database
pub mod Errors
pub mod Qr
pub mod Challenge
pub mod Outbox
pub mod Timetable
pub mod Occurrence
pub mod Paging
pub mod Summary
pub mod Reminders
pub mod Seeding
mod Tests
