-- ===== src/Challenge/Issued.antt =====
-- From the mail to its answer: issue and then verify of
-- backend/src/services/email-challenge.service.ts.
use wall_e_campus_assistant.Prelude.{
  ℕ, ◌+◌, ◌*◌, ◌<◌, ◌≡◌, refl, inl, inr, Bool, true, false, Option, some, none, [], ◌∷◌, ◌∈◌, sym,
  ap, ◌∙◌, subst, arith, Option-cases, ok, err, Result, ∈-append, false≢true,
}
use wall_e_campus_assistant.Text.{Text}
use wall_e_campus_assistant.Database.{Prisma}
use wall_e_campus_assistant.Database.Rows.{update_where}
use wall_e_campus_assistant.Challenge.{
  EmailChallengePurpose, EmailChallenge, Challenges, IssueData, challenge_row, is_superseded,
  spent_at, is_live, find_live, issue_challenge,
}
use wall_e_campus_assistant.Challenge.Service.{
  Bcrypt, OtpConfig, ChallengeError, assert_may_issue, issue_data, mailed, issue_if, issue, verify,
}
use wall_e_campus_assistant.Challenge.Steps.{
  IsSoundChallenges, is_addressed_iff, superseded-NoneOpen, issue_challenge-eq-some,
  issue_challenge-IsSoundChallenges,
}
use wall_e_campus_assistant.Challenge.Replay.{live_parts}
use wall_e_campus_assistant.Challenge.Laws.{verify_iff}

module _ (prisma : Prisma) (bcrypt : Bcrypt) (config : OtpConfig) where
  mailed-eq-ok :
      (accepted : Bool) (id now : ℕ) (rows rows' : Challenges) (o : Option Challenges)
      → mailed prisma bcrypt config accepted id now rows o ≡ (rows', ok tt)
      → o ≡ some rows'
  mailed-eq-ok accepted id now rows rows' none h = cc
  mailed-eq-ok true id now rows rows' (some r) h =
      ap some (ap (λ (p : Challenges × Result ChallengeError (Unit {0})). p.0) h)
  mailed-eq-ok false id now rows rows' (some r) h = cc

  issue_if-eq-ok :
      (m : Result ChallengeError (Unit {0})) (made : Challenges × Result ChallengeError (Unit {0}))
      (rows rows' : Challenges)
      → issue_if prisma bcrypt config m made rows ≡ (rows', ok tt)
      → made ≡ (rows', ok tt)
  issue_if-eq-ok (ok u) made rows rows' h = h
  issue_if-eq-ok (err e) made rows rows' h = cc

  module _ (email : Text) (purpose : EmailChallengePurpose) (code salt : Text) (id : ℕ)
      (request_ip : Option Text) (now later : ℕ) where
    abbrev input : IssueData
    input = issue_data prisma bcrypt config email purpose code salt id request_ip now

    abbrev row : EmailChallenge
    row = challenge_row input now

    row-live :
        later < now + config.ttl_minutes * 60000
        → 0 < config.max_attempts
        → is_live email purpose later config.max_attempts row ≡ true
    unfolding is_live
    row-live before some_attempts =
        let addressed = (is_addressed_iff email purpose row).1 (refl, refl) in ground arith

    find_live-row :
        (rows rows' : Challenges)
        → issue_challenge prisma input now rows ≡ some rows'
        → later < now + config.ttl_minutes * 60000
        → 0 < config.max_attempts
        → find_live prisma email purpose later config.max_attempts rows' ≡ some row
    unfolding find_live
    find_live-row rows rows' h before some_attempts =
        let (_, e) = issue_challenge-eq-some prisma input now rows rows' h in
        let spent = update_where (is_superseded email purpose) (spent_at now) rows in
        let live = is_live email purpose later config.max_attempts in
        let there : row ∈ rows' =
          subst (λ l. row ∈ l) (sym e) ((∈-append row spent (row ∷ [])).1 (inr (inl refl))) in
        elim (Option-cases (find_live prisma email purpose later config.max_attempts rows')) [
          | inl f ↦ absurd (
              prisma.find_latest_none EmailChallenge live (λ z. z.created_at) rows' f row there
                (row-live before some_attempts))
          | inr (c, f) ↦
              let (m, t, _) =
                prisma.find_latest_some EmailChallenge live (λ z. z.created_at) rows' c f in
              let (a, o) = live_parts prisma email purpose bcrypt config later c t in
              elim ((∈-append c spent (row ∷ [])).0 (subst (λ l. c ∈ l) e m)) [
                | inl k ↦
                    absurd (false≢true (sym (superseded-NoneOpen email purpose now rows c k a) ∙ o))
                | inr k ↦ elim k [ inl q ↦ f ∙ ap some q | inr b ↦ absurd b ]
              ]
        ]

    -- A code that was issued and mailed is accepted until its time to live has passed, if a code
    -- may be tried at all, where no other write has come between.
    pub issue-verify :
        (accepted : Bool) (rows rows' : Challenges)
        → IsSoundChallenges rows
        → issue prisma bcrypt config email purpose code salt id request_ip accepted now rows
          ≡ (rows', ok tt)
        → later < now + config.ttl_minutes * 60000
        → 0 < config.max_attempts
        → (verify prisma bcrypt config email purpose code later rows').1 ≡ ok tt
    unfolding issue
    issue-verify accepted rows rows' sound h before some_attempts =
        let made = mailed-eq-ok accepted id now rows rows' (issue_challenge prisma input now rows) (
          issue_if-eq-ok (assert_may_issue prisma bcrypt config email purpose now rows) _ rows rows'
            h) in
        let sound' = issue_challenge-IsSoundChallenges prisma input now rows rows' sound made in
        (verify_iff prisma bcrypt config email purpose code later rows' sound').1
          (row, find_live-row rows rows' made before some_attempts, bcrypt.compare-hash salt code)
