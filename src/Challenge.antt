-- ===== src/Challenge.antt =====
-- backend/src/repositories/email-challenge.repository.ts over the model EmailChallenge of
-- backend/prisma/schema.prisma: the codes that are mailed to an address. A call that reads the clock
-- is given it.
pub mod Service
pub mod Steps
pub mod Replay
pub mod Runs
pub mod Issued
pub mod Transactions
pub mod Laws
use wall_e_campus_assistant.Prelude.{
  ℕ, ◌+◌, Bool, ◌&&◌, ◌||◌, Option, none, some, List, ltb, leb, ◌==◌, is_none,
}
use wall_e_campus_assistant.Text.{Text, text_eq}
use wall_e_campus_assistant.Database.{Prisma}

pub data EmailChallengePurpose : Type 0 where
  email_verification password_reset : EmailChallengePurpose

abbrev pub same_purpose : EmailChallengePurpose → EmailChallengePurpose → Bool
same_purpose email_verification email_verification = Bool.true
same_purpose password_reset password_reset = Bool.true
same_purpose _ _ = Bool.false

pub record EmailChallenge : Type 0 where
  pub id : ℕ
  pub email : Text
  pub purpose : EmailChallengePurpose
  pub code_hash : Text
  pub attempts : ℕ
  pub consumed_at : Option ℕ
  pub expires_at : ℕ
  pub request_ip : Option Text
  pub created_at : ℕ

-- The primary key.
abbrev pub same_challenge : EmailChallenge → EmailChallenge → Bool
same_challenge a b = a.id == b.id

abbrev pub is_open : EmailChallenge → Bool
is_open c = is_none c.consumed_at

-- { email, purpose }
unfoldable pub is_addressed : Text → EmailChallengePurpose → EmailChallenge → Bool
is_addressed email purpose c = text_eq c.email email && same_purpose c.purpose purpose

unfoldable pub is_live : Text → EmailChallengePurpose → ℕ → ℕ → EmailChallenge → Bool
is_live email purpose now max_attempts c =
    is_addressed email purpose c && is_open c && ltb now c.expires_at && ltb c.attempts max_attempts

-- The where of consume and of burn, and of the first half of issue.
abbrev pub is_open_id : ℕ → EmailChallenge → Bool
is_open_id id c = c.id == id && is_open c

abbrev pub is_superseded : Text → EmailChallengePurpose → EmailChallenge → Bool
is_superseded email purpose c = is_addressed email purpose c && is_open c

abbrev pub spent_at : ℕ → EmailChallenge → EmailChallenge
spent_at at c = record c { consumed_at = some at }

abbrev pub one_more_attempt : EmailChallenge → EmailChallenge
one_more_attempt c = record c { attempts = c.attempts + 1 }

-- The argument of issue; the id is the database's.
pub record IssueData : Type 0 where
  pub id : ℕ
  pub email : Text
  pub purpose : EmailChallengePurpose
  pub code_hash : Text
  pub expires_at : ℕ
  pub request_ip : Option Text

abbrev pub challenge_row : IssueData → ℕ → EmailChallenge
challenge_row input now = record {
  id = input.id;
  email = input.email;
  purpose = input.purpose;
  code_hash = input.code_hash;
  attempts = 0;
  consumed_at = none;
  expires_at = input.expires_at;
  request_ip = input.request_ip;
  created_at = now;
}

abbrev pub Challenges : Type 0
Challenges = List EmailChallenge

module _ (prisma : Prisma) where
  unfoldable pub find_live :
      Text → EmailChallengePurpose → ℕ → ℕ → Challenges → Option EmailChallenge
  find_live email purpose now max_attempts rows =
      prisma.find_latest EmailChallenge (is_live email purpose now max_attempts) (λ c. c.created_at)
        rows

  unfoldable pub find_latest : Text → EmailChallengePurpose → Challenges → Option EmailChallenge
  find_latest email purpose rows =
      prisma.find_latest EmailChallenge (is_addressed email purpose) (λ c. c.created_at) rows

  unfoldable pub count_since : Text → ℕ → Challenges → ℕ
  count_since email since rows =
      prisma.count_rows EmailChallenge (λ c. text_eq c.email email && leb since c.created_at) rows

  -- The transaction, where no other for the address and purpose overlaps it: if the row is refused,
  -- neither write is made. Transactions.commit_issue is the transaction among others.
  unfoldable pub issue_challenge : IssueData → ℕ → Challenges → Option Challenges
  issue_challenge input now rows =
      prisma.create EmailChallenge same_challenge (challenge_row input now)
        (prisma.update_many EmailChallenge (is_superseded input.email input.purpose) (spent_at now)
          rows).0

  -- update fails where there is no row; then nothing is written.
  unfoldable pub record_failed_attempt : ℕ → Challenges → Challenges × Option EmailChallenge
  record_failed_attempt id rows =
      let rows' = (prisma.update_many EmailChallenge (λ c. c.id == id) one_more_attempt rows).0 in
      (rows', prisma.find_unique EmailChallenge (λ c. c.id == id) rows')

  unfoldable pub consume : ℕ → ℕ → Challenges → Challenges × Bool
  consume id now rows =
      let (rows', count) = prisma.update_many EmailChallenge (is_open_id id) (spent_at now) rows in
      (rows', count == 1)

  unfoldable pub burn : ℕ → ℕ → Challenges → Challenges
  burn id now rows = (prisma.update_many EmailChallenge (is_open_id id) (spent_at now) rows).0

  unfoldable pub prune_expired_before : ℕ → Challenges → Challenges × ℕ
  prune_expired_before before rows =
      prisma.delete_many EmailChallenge (λ c. ltb c.expires_at before) rows
