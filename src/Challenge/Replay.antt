-- ===== src/Challenge/Replay.antt =====
-- That a code is spent once (verify of backend/src/services/email-challenge.service.ts).
use wall_e_campus_assistant.Prelude.{
  ℕ, ◌≡◌, refl, inl, inr, Bool, true, not, some, ◌∈◌, sym, ap, ◌∙◌, subst, arith, Bool-cases,
  ∈-append, ∈-keep_iff, ltb, ◌==◌, false≢true, err, Option-cases,
}
use wall_e_campus_assistant.Text.{Text}
use wall_e_campus_assistant.Database.{Prisma}
use wall_e_campus_assistant.Database.Rows.{update_where, remove_where}
use wall_e_campus_assistant.Database.Rows.Laws.{∈-update_where}
use wall_e_campus_assistant.Challenge.{
  EmailChallengePurpose, EmailChallenge, Challenges, IssueData, is_open, is_open_id, is_addressed,
  is_superseded, is_live, spent_at, one_more_attempt, find_live, issue_challenge,
  record_failed_attempt, consume, burn, prune_expired_before,
}
use wall_e_campus_assistant.Challenge.Service.{
  Bcrypt, OtpConfig, otp_invalid, verify_challenge, verify,
}
use wall_e_campus_assistant.Challenge.Steps.{
  NoneOpen, ChallengeStep, ChallengeReach, start, further, issued, attempted, consumed, burned,
  pruned, is_addressed_iff, changed-keeps, issue_challenge-eq-some,
}

-- An update that keeps addresses and purposes, and opens nothing.
update-NoneOpen :
    (test : EmailChallenge → Bool) (change : EmailChallenge → EmailChallenge)
    → ((c : EmailChallenge)
        → ((change c).id ≡ c.id)
          × ((change c).email ≡ c.email)
          × ((change c).purpose ≡ c.purpose)
          × (is_open (change c) ≡ true → is_open c ≡ true))
    → (email : Text) (purpose : EmailChallengePurpose) (rows : Challenges)
    → NoneOpen email purpose rows
    → NoneOpen email purpose (update_where test change rows)
update-NoneOpen test change keeps email purpose rows none_open c m h =
    let (y, k, e) = ∈-update_where test change rows m in
    let (_, email', purpose', opens) =
      changed-keeps test change (λ z. (keeps z).0) (λ z. (keeps z).1) (λ z. (keeps z).2)
        (λ z. (keeps z).3) y in
    let (a, b) = (is_addressed_iff email purpose c).0 h in
    let addressed = (is_addressed_iff email purpose y).1 (
      sym email' ∙ sym (ap (λ (z : EmailChallenge). z.email) e) ∙ a,
      sym purpose' ∙ sym (ap (λ (z : EmailChallenge). z.purpose) e) ∙ b,
    ) in
    elim (Bool-cases (is_open c)) [
      | inl o ↦ absurd (false≢true (sym (none_open y k addressed) ∙ opens (sym (ap is_open e) ∙ o)))
      | inr o ↦ o
    ]

spent_at-NoneOpen :
    (test : EmailChallenge → Bool) (now : ℕ) (email : Text) (purpose : EmailChallengePurpose)
    (rows : Challenges)
    → NoneOpen email purpose rows
    → NoneOpen email purpose (update_where test (spent_at now) rows)
spent_at-NoneOpen test now = update-NoneOpen test (spent_at now) (λ c. (refl, refl, refl, λ h. cc))

module _ (prisma : Prisma) (email : Text) (purpose : EmailChallengePurpose) where
  -- Any address and purpose but this one.
  abbrev pub Another : Text → EmailChallengePurpose → Type 0
  Another e p = (e ≡ email) → (p ≡ purpose) → ⊥

  issue_challenge-NoneOpen :
      (input : IssueData) (now : ℕ) (rows rows' : Challenges)
      → Another input.email input.purpose
      → issue_challenge prisma input now rows ≡ some rows'
      → NoneOpen email purpose rows
      → NoneOpen email purpose rows'
  issue_challenge-NoneOpen input now rows rows' other h none_open c m a =
      let old = is_superseded input.email input.purpose in
      let (_, e) = issue_challenge-eq-some prisma input now rows rows' h in
      elim ((∈-append c (update_where old (spent_at now) rows) _).0 (subst (λ l. c ∈ l) e m)) [
        | inl k ↦ spent_at-NoneOpen old now email purpose rows none_open c k a
        | inr k ↦ elim k [
          | inl q ↦
              let (same, use_) = (is_addressed_iff email purpose c).0 a in
              absurd (
                other (sym (ap (λ (z : EmailChallenge). z.email) q) ∙ same)
                  (sym (ap (λ (z : EmailChallenge). z.purpose) q) ∙ use_))
          | inr b ↦ absurd b
        ]
      ]

  ChallengeStep-NoneOpen :
      {rows rows' : Challenges}
      → ChallengeStep prisma Another rows rows'
      → NoneOpen email purpose rows
      → NoneOpen email purpose rows'
  unfolding record_failed_attempt consume burn prune_expired_before remove_where
  ChallengeStep-NoneOpen {rows} {rows'} (issued input now other h) none_open =
      issue_challenge-NoneOpen input now rows rows' other h none_open
  ChallengeStep-NoneOpen {rows} (attempted id e) none_open =
      subst (NoneOpen email purpose)
        (sym (
            ap (λ (r : Challenges × ℕ). r.0)
              (prisma.update_many_lem EmailChallenge _ one_more_attempt rows))
          ∙ e)
        (update-NoneOpen (λ c. c.id == id) one_more_attempt (λ c. (refl, refl, refl, λ h. h)) email
          purpose rows none_open)
  ChallengeStep-NoneOpen {rows} (consumed id now e) none_open =
      subst (NoneOpen email purpose)
        (sym (
            ap (λ (r : Challenges × ℕ). r.0)
              (prisma.update_many_lem EmailChallenge _ (spent_at now) rows))
          ∙ e)
        (spent_at-NoneOpen (is_open_id id) now email purpose rows none_open)
  ChallengeStep-NoneOpen {rows} (burned id now e) none_open =
      subst (NoneOpen email purpose)
        (sym (
            ap (λ (r : Challenges × ℕ). r.0)
              (prisma.update_many_lem EmailChallenge _ (spent_at now) rows))
          ∙ e)
        (spent_at-NoneOpen (is_open_id id) now email purpose rows none_open)
  ChallengeStep-NoneOpen {rows} (pruned before e) none_open =
      subst (NoneOpen email purpose)
        (sym (ap (λ (r : Challenges × ℕ). r.0) (prisma.delete_many_lem EmailChallenge _ rows)) ∙ e)
        (λ c m. none_open c ((∈-keep_iff (λ z. not (ltb z.expires_at before)) c rows).0 m).0)

  pub ChallengeReach-NoneOpen :
      {rows rows' : Challenges}
      → ChallengeReach prisma Another rows rows'
      → NoneOpen email purpose rows
      → NoneOpen email purpose rows'
  ChallengeReach-NoneOpen start none_open = none_open
  ChallengeReach-NoneOpen (further r st) none_open =
      ChallengeStep-NoneOpen st (ChallengeReach-NoneOpen r none_open)

  module _ (bcrypt : Bcrypt) (config : OtpConfig) where
    pub live_parts :
        (now : ℕ) (c : EmailChallenge)
        → is_live email purpose now config.max_attempts c ≡ true
        → (is_addressed email purpose c ≡ true) × (is_open c ≡ true)
    unfolding is_live
    live_parts now c h = ground arith

    -- Where nothing is open, every code is refused and nothing is written.
    pub NoneOpen-refused :
        (code : Text) (now : ℕ) (rows : Challenges)
        → NoneOpen email purpose rows
        → verify prisma bcrypt config email purpose code now rows ≡ (rows, err otp_invalid)
    unfolding verify verify_challenge find_live
    NoneOpen-refused code now rows none_open =
        elim (Option-cases (find_live prisma email purpose now config.max_attempts rows)) [
          | inl e ↦ rw e refl
          | inr (c, e) ↦
              let (m, t, _) =
                prisma.find_latest_some EmailChallenge
                  (is_live email purpose now config.max_attempts) (λ z. z.created_at) rows c e in
              let (a, o) = live_parts now c t in absurd (false≢true (sym (none_open c m a) ∙ o))
        ]
