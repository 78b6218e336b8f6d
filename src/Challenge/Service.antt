-- ===== src/Challenge/Service.antt =====
-- backend/src/services/email-challenge.service.ts. A call reads the clock once, where the code reads
-- it again a moment later; the code drawn, the id and the salt of the hash are arguments, and so is
-- whether the mail provider accepted the message. The library bcryptjs, which is not part of the
-- repository, is a record of its two calls. The calls that write before they throw return the rows
-- beside the result.
use wall_e_campus_assistant.Prelude.{
  ℕ, ◌+◌, ◌-◌, ◌*◌, ◌/◌, ◌≡◌, Bool, true, false, not, Option, none, some, ltb, leb, Result, ok, err,
  if◌then◌else◌, throw_if, ◌>>◌,
}
use wall_e_campus_assistant.Text.{Text, trim, to_lower_case}
use wall_e_campus_assistant.Database.{Prisma}
use wall_e_campus_assistant.Challenge.{
  EmailChallengePurpose, EmailChallenge, Challenges, IssueData, find_live, find_latest, count_since,
  issue_challenge, record_failed_attempt, consume, burn, prune_expired_before,
}

pub record Bcrypt : Type 0 where
  pub hash : (salt code : Text) → Text
  pub compare : (code code_hash : Text) → Bool
  pub compare-hash : (salt code : Text) → compare code (hash salt code) ≡ true

pub record OtpConfig : Type 0 where
  pub ttl_minutes : ℕ
  pub resend_cooldown_seconds : ℕ
  pub max_per_email_per_hour : ℕ
  pub max_attempts : ℕ

-- The errors, with the seconds to wait that the cooldown's message and details have. No row is the
-- database's error where a row is missing, or its key is taken.
pub data ChallengeError : Type 0 where
  otp_cooldown : (remaining : ℕ) → ChallengeError
  otp_hourly_limit mail_delivery_failed otp_invalid no_row : ChallengeError

unfoldable pub challenge_error_status : ChallengeError → ℕ
challenge_error_status (otp_cooldown remaining) = 429
challenge_error_status otp_hourly_limit = 429
challenge_error_status mail_delivery_failed = 502
challenge_error_status otp_invalid = 400
challenge_error_status no_row = 500

unfoldable pub normalize_email : Text → Text
normalize_email email = to_lower_case (trim email)

-- The cooldown less the elapsed seconds rounded down, which are negative for a row from later.
unfoldable pub remaining_seconds : ℕ → ℕ → ℕ → ℕ
remaining_seconds cooldown created now =
    if leb created now
    then cooldown - (now - created) / 1000
    else cooldown + (created - now + 999) / 1000

unfoldable pub cooled_down : ℕ → ℕ → Option EmailChallenge → Result ChallengeError (Unit {0})
unfolding remaining_seconds
cooled_down cooldown now none = ok tt
cooled_down cooldown now (some latest) =
    let remaining = remaining_seconds cooldown latest.created_at now in
    throw_if (ltb 0 remaining) (otp_cooldown remaining)

module _ (prisma : Prisma) (bcrypt : Bcrypt) (config : OtpConfig) where
  unfoldable pub assert_may_issue :
      Text → EmailChallengePurpose → ℕ → Challenges → Result ChallengeError (Unit {0})
  assert_may_issue email purpose now rows = do
    cooled_down config.resend_cooldown_seconds now (find_latest prisma email purpose rows)
    throw_if (leb config.max_per_email_per_hour (count_since prisma email (now - 60 * 60000) rows))
        otp_hourly_limit

  abbrev pub issue_data :
      Text → EmailChallengePurpose → Text → Text → ℕ → Option Text → ℕ → IssueData
  issue_data email purpose code salt id request_ip now = record {
    id = id;
    email = email;
    purpose = purpose;
    code_hash = bcrypt.hash salt code;
    expires_at = now + config.ttl_minutes * 60000;
    request_ip = request_ip;
  }

  -- After the insert: the mail is sent, or the row is burned.
  abbrev pub mailed :
      Bool → ℕ → ℕ → Challenges → Option Challenges → Challenges × Result ChallengeError (Unit {0})
  mailed accepted id now rows none = (rows, err no_row)
  mailed true id now rows (some rows') = (rows', ok tt)
  mailed false id now rows (some rows') = (burn prisma id now rows', err mail_delivery_failed)

  abbrev pub issue_if :
      Result ChallengeError (Unit {0})
      → Challenges × Result ChallengeError (Unit {0})
      → Challenges
      → Challenges × Result ChallengeError (Unit {0})
  issue_if (ok u) issued rows = issued
  issue_if (err e) issued rows = (rows, err e)

  unfoldable pub issue :
      Text
      → EmailChallengePurpose
      → Text
      → Text
      → ℕ
      → Option Text
      → Bool
      → ℕ
      → Challenges
      → Challenges × Result ChallengeError (Unit {0})
  issue email purpose code salt id request_ip accepted now rows =
      issue_if (assert_may_issue email purpose now rows)
        (mailed accepted id now rows
          (issue_challenge prisma (issue_data email purpose code salt id request_ip now) now rows))
        rows

  -- The row is kept whether the mail was sent or not.
  abbrev pub recorded :
      Challenges → Option Challenges → Challenges × Result ChallengeError (Unit {0})
  recorded rows none = (rows, err no_row)
  recorded rows (some rows') = (rows', ok tt)

  unfoldable pub notify_without_code :
      Text
      → EmailChallengePurpose
      → Text
      → Text
      → ℕ
      → Option Text
      → ℕ
      → Challenges
      → Challenges × Result ChallengeError (Unit {0})
  notify_without_code email purpose code salt id request_ip now rows =
      issue_if (assert_may_issue email purpose now rows)
        (recorded rows
          (issue_challenge prisma (issue_data email purpose code salt id request_ip now) now rows))
        rows

  -- A wrong guess: it is counted, and the last one burns the row.
  abbrev pub burn_if : Bool → ℕ → ℕ → Challenges → Challenges
  burn_if true id now rows = burn prisma id now rows
  burn_if false id now rows = rows

  abbrev pub guessed_wrong :
      ℕ → ℕ → Challenges × Option EmailChallenge → Challenges × Result ChallengeError (Unit {0})
  guessed_wrong id now (rows, none) = (rows, err no_row)
  guessed_wrong id now (rows, some updated) =
      (burn_if (leb config.max_attempts updated.attempts) id now rows, err otp_invalid)

  abbrev pub guessed_right : Challenges × Bool → Challenges × Result ChallengeError (Unit {0})
  guessed_right (rows, true) = (rows, ok tt)
  guessed_right (rows, false) = (rows, err otp_invalid)

  unfoldable pub verify_challenge :
      Text → ℕ → Option EmailChallenge → Challenges → Challenges × Result ChallengeError (Unit {0})
  verify_challenge code now none rows = (rows, err otp_invalid)
  verify_challenge code now (some challenge) rows =
      if not (bcrypt.compare code challenge.code_hash)
      then guessed_wrong challenge.id now (record_failed_attempt prisma challenge.id rows)
      else guessed_right (consume prisma challenge.id now rows)

  unfoldable pub verify :
      Text
      → EmailChallengePurpose
      → Text
      → ℕ
      → Challenges
      → Challenges × Result ChallengeError (Unit {0})
  verify email purpose code now rows =
      verify_challenge code now (find_live prisma email purpose now config.max_attempts rows) rows

unfoldable pub prune_expired : Prisma → ℕ → ℕ → Challenges → Challenges × ℕ
prune_expired prisma retention_hours now rows =
    prune_expired_before prisma (now - retention_hours * (60 * 60000)) rows
