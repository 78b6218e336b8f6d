-- ===== src/Tests/Codes.antt =====
-- The codes mailed to one address, at concrete instants.
use wall_e_campus_assistant.Prelude.{
  ◌+◌, ◌*◌, ◌≡◌, refl, inl, some, none, [], ◌∷◌, ok, err, true, arith,
}
use wall_e_campus_assistant.Text.{Text, text_eq}
use wall_e_campus_assistant.Cohort.Laws.{text_eq_iff}
use wall_e_campus_assistant.Cohort.Semester.{codes}
use wall_e_campus_assistant.Database.Reference.{reference, latest}
use wall_e_campus_assistant.Challenge.{
  email_verification, EmailChallenge, Challenges, is_addressed, is_live, IssueData, challenge_row,
  find_live, count_since, consume, find_latest,
}
use wall_e_campus_assistant.Challenge.Service.{
  Bcrypt, OtpConfig, otp_invalid, assert_may_issue, issue, verify, verify_challenge, cooled_down,
}
use wall_e_campus_assistant.Challenge.Steps.{IsSoundChallenges, start}
use wall_e_campus_assistant.Challenge.Transactions.{
  Flight, commit_issue, TrafficReach, begin, onward, begun, committed,
}
use wall_e_campus_assistant.Challenge.Transactions.Laws.{TrafficReach-IsSound}
use wall_e_campus_assistant.Database.Rows.{insert_new, update_where}
use wall_e_campus_assistant.Challenge.{issue_challenge}
use wall_e_campus_assistant.Challenge.Issued.{issue-verify}
use wall_e_campus_assistant.Challenge.Laws.{verify_iff, verify_once}
use wall_e_campus_assistant.Tests.{nine, minute_ms}

-- A hash that keeps the code, which is enough to apply the theorems.
abbrev plain_bcrypt : Bcrypt
plain_bcrypt = record {
  hash = λ salt code. code;
  compare = λ code code_hash. text_eq code code_hash;
  compare-hash = λ salt code. (text_eq_iff code code).1 refl;
}

abbrev otp_config : OtpConfig
otp_config = record {
  ttl_minutes = 10;
  resend_cooldown_seconds = 60;
  max_per_email_per_hour = 5;
  max_attempts = 5;
}

abbrev address : Text
address = codes "a@b"

abbrev mailed_code : EmailChallenge
mailed_code = record {
  id = 1;
  email = address;
  purpose = email_verification;
  code_hash = codes "42";
  attempts = 0;
  consumed_at = none;
  expires_at = nine + 10 * minute_ms;
  request_ip = none;
  created_at = nine;
}

abbrev mailed_rows : Challenges
mailed_rows = mailed_code ∷ []

mailed_rows-IsSound : IsSoundChallenges mailed_rows
mailed_rows-IsSound = record { one_id = (refl, tt); one_open = (refl, tt) }

abbrev second_issue : IssueData
second_issue = record {
  id = 2;
  email = address;
  purpose = email_verification;
  code_hash = codes "7";
  expires_at = nine + 12 * minute_ms;
  request_ip = none;
}

abbrev second_flight : Flight
second_flight = record { input = second_issue; now = nine + 2 * minute_ms; seen = 1 ∷ [] }

abbrev second_rows : Challenges
second_rows =
    record mailed_code { consumed_at = some (nine + 2 * minute_ms) }
    ∷ challenge_row second_issue (nine + 2 * minute_ms)
    ∷ []

-- A second code is issued, and its transaction commits alone.
second_issued :
    TrafficReach reference
      (record { rows = mailed_rows; flights = [] })
      (record { rows = second_rows; flights = [] })
unfolding commit_issue insert_new update_where is_addressed text_eq
second_issued =
    onward (onward begin (begun second_issue (nine + 2 * minute_ms)))
      (committed second_flight [] (inl refl) (λ g m. absurd m) refl)

TrafficReach-IsSound_example : IsSoundChallenges second_rows
TrafficReach-IsSound_example = TrafficReach-IsSound reference second_issued refl mailed_rows-IsSound

verify_iff_example :
    (verify reference plain_bcrypt otp_config address email_verification
      (codes "42")
      nine
      mailed_rows).1
    ≡ ok tt
unfolding find_live text_eq latest is_live is_addressed
verify_iff_example =
    (verify_iff reference plain_bcrypt otp_config address email_verification (codes "42") nine
        mailed_rows mailed_rows-IsSound).1
      (mailed_code, refl, refl)

abbrev spent_rows : Challenges
spent_rows =
    (verify reference plain_bcrypt otp_config address email_verification (codes "42") nine
      mailed_rows).0

verify_once_example :
    verify reference plain_bcrypt otp_config address email_verification
      (codes "42")
      (nine + 1)
      spent_rows
    ≡ (spent_rows, err otp_invalid)
unfolding verify find_live text_eq verify_challenge latest is_live is_addressed consume
verify_once_example =
    verify_once reference plain_bcrypt otp_config address email_verification (codes "42")
      (codes "42") nine (nine + 1) mailed_rows spent_rows mailed_rows-IsSound refl start

abbrev reissued : Challenges
reissued =
    (issue reference plain_bcrypt otp_config address email_verification (codes "7") (codes "s") 2
      none true (nine + 2 * minute_ms) mailed_rows).0

issue-verify_example :
    (verify reference plain_bcrypt otp_config address email_verification
      (codes "7")
      (nine + 3 * minute_ms)
      reissued).1
    ≡ ok tt
unfolding issue assert_may_issue find_latest text_eq cooled_down latest is_addressed count_since
    issue_challenge insert_new update_where
issue-verify_example =
    issue-verify reference plain_bcrypt otp_config address email_verification (codes "7")
      (codes "s") 2 none (nine + 2 * minute_ms) (nine + 3 * minute_ms) true mailed_rows reissued
      mailed_rows-IsSound refl (omega arith) (omega arith)
