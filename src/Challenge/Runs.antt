-- ===== src/Challenge/Runs.antt =====
-- That the calls of backend/src/services/email-challenge.service.ts are sequences of the writes.
use wall_e_campus_assistant.Prelude.{
  ℕ, refl, inl, inr, Bool, true, false, Option, some, none, Option-cases, Bool-cases, Result-cases,
  leb,
}
use wall_e_campus_assistant.Text.{Text}
use wall_e_campus_assistant.Database.{Prisma}
use wall_e_campus_assistant.Challenge.{
  EmailChallengePurpose, EmailChallenge, Challenges, find_live, issue_challenge,
  record_failed_attempt, consume,
}
use wall_e_campus_assistant.Challenge.Service.{
  Bcrypt, OtpConfig, assert_may_issue, issue_data, issue, mailed, burn_if, guessed_wrong,
  guessed_right, verify_challenge, verify,
}
use wall_e_campus_assistant.Challenge.Steps.{
  ChallengeReach, start, further, issued, attempted, consumed, burned,
}

module _ (prisma : Prisma) (Issued : Text → EmailChallengePurpose → Type 0) (bcrypt : Bcrypt)
    (config : OtpConfig) where
  burn_if-ChallengeReach :
      (b : Bool) (id now : ℕ) (rows rows' : Challenges)
      → ChallengeReach prisma Issued rows rows'
      → ChallengeReach prisma Issued rows (burn_if prisma bcrypt config b id now rows')
  burn_if-ChallengeReach true id now rows rows' r = further r (burned id now refl)
  burn_if-ChallengeReach false id now rows rows' r = r

  guessed_wrong-ChallengeReach :
      (id now : ℕ) (rows : Challenges) (r : Challenges × Option EmailChallenge)
      → ChallengeReach prisma Issued rows r.0
      → ChallengeReach prisma Issued rows (guessed_wrong prisma bcrypt config id now r).0
  guessed_wrong-ChallengeReach id now rows (rows', none) r = r
  guessed_wrong-ChallengeReach id now rows (rows', some c) r =
      burn_if-ChallengeReach (leb config.max_attempts c.attempts) id now rows rows' r

  guessed_right-ChallengeReach :
      (rows : Challenges) (r : Challenges × Bool)
      → ChallengeReach prisma Issued rows r.0
      → ChallengeReach prisma Issued rows (guessed_right prisma bcrypt config r).0
  guessed_right-ChallengeReach rows (rows', true) r = r
  guessed_right-ChallengeReach rows (rows', false) r = r

  verify_challenge-ChallengeReach :
      (code : Text) (now : ℕ) (o : Option EmailChallenge) (rows : Challenges)
      → ChallengeReach prisma Issued rows (verify_challenge prisma bcrypt config code now o rows).0
  unfolding verify_challenge
  verify_challenge-ChallengeReach code now none rows = start
  verify_challenge-ChallengeReach code now (some c) rows =
      elim (Bool-cases (bcrypt.compare code c.code_hash)) [
        | inl t ↦ rw t (
            guessed_right-ChallengeReach rows (consume prisma c.id now rows)
              (further start (consumed c.id now refl)))
        | inr t ↦ rw t (
            guessed_wrong-ChallengeReach c.id now rows (record_failed_attempt prisma c.id rows)
              (further start (attempted c.id refl)))
      ]

  -- Whatever its outcome, a verification only makes the writes that are steps, and issues nothing.
  pub verify-ChallengeReach :
      (email : Text) (purpose : EmailChallengePurpose) (code : Text) (now : ℕ) (rows : Challenges)
      → ChallengeReach prisma Issued rows
          (verify prisma bcrypt config email purpose code now rows).0
  unfolding verify
  verify-ChallengeReach email purpose code now rows =
      verify_challenge-ChallengeReach code now
        (find_live prisma email purpose now config.max_attempts rows) rows

  mailed-ChallengeReach :
      (email : Text) (purpose : EmailChallengePurpose) (code salt : Text) (id : ℕ)
      (request_ip : Option Text) (accepted : Bool) (now : ℕ) (rows : Challenges)
      → Issued email purpose
      → ChallengeReach prisma Issued rows
          (mailed prisma bcrypt config accepted id now rows (
            issue_challenge prisma
              (issue_data prisma bcrypt config email purpose code salt id request_ip now)
              now
              rows)).0
  mailed-ChallengeReach email purpose code salt id request_ip accepted now rows may =
      let input = issue_data prisma bcrypt config email purpose code salt id request_ip now in
      elim (Option-cases (issue_challenge prisma input now rows)) [
        | inl e ↦ rw e start
        | inr (rows', e) ↦ elim (Bool-cases accepted) [
          | inl t ↦ rw (e, t) (further start (issued input now may e))
          | inr t ↦
              rw (e, t) (further (further start (issued input now may e)) (burned id now refl))
        ]
      ]

  -- Whatever its outcome, a call that issues a code makes the writes that are steps, and issues one
  -- for its own address and purpose only.
  pub issue-ChallengeReach :
      (email : Text) (purpose : EmailChallengePurpose) (code salt : Text) (id : ℕ)
      (request_ip : Option Text) (accepted : Bool) (now : ℕ) (rows : Challenges)
      → Issued email purpose
      → ChallengeReach prisma Issued rows
          (issue prisma bcrypt config email purpose code salt id request_ip accepted now rows).0
  unfolding issue
  issue-ChallengeReach email purpose code salt id request_ip accepted now rows may =
      elim (Result-cases (assert_may_issue prisma bcrypt config email purpose now rows)) [
        | inr (e, h) ↦ rw h start
        | inl (u, h) ↦
            rw h (mailed-ChallengeReach email purpose code salt id request_ip accepted now rows may)
      ]
