-- ===== src/Challenge/Steps.antt =====
-- The writes of backend/src/repositories/email-challenge.repository.ts as steps, in any order. The
-- transaction of issue is one step: it is taken to run without another for the same address and purpose
-- between its two writes. Challenge.Transactions takes it apart.
use wall_e_campus_assistant.Prelude.{
  ℕ, ◌≡◌, ◌↔◌, refl, inl, inr, Bool, true, false, not, ◌&&◌, some, [], ◌∷◌, ◌++◌, ◌∈◌, sym, ap, ◌∙◌,
  subst, arith, Bool-cases, any, any_iff, ltb, ◌==◌, if◌then◌else◌, false≢true,
}
use wall_e_campus_assistant.Text.{Text, text_eq}
use wall_e_campus_assistant.Cohort.Laws.{text_eq_iff}
use wall_e_campus_assistant.Database.{Prisma}
use wall_e_campus_assistant.Database.Rows.{update_where, remove_where}
use wall_e_campus_assistant.Database.Rows.Laws.{
  Distinct, Distinct-update_apart, Distinct-keep, ∈-update_where, insert_new-eq-some, Distinct-snoc,
}
use wall_e_campus_assistant.Challenge.{
  EmailChallengePurpose, email_verification, password_reset, EmailChallenge, Challenges, IssueData,
  challenge_row, same_challenge, same_purpose, is_open, is_open_id, is_addressed, is_superseded,
  spent_at, one_more_attempt, issue_challenge, record_failed_attempt, consume, burn,
  prune_expired_before,
}

-- Two open codes for one address and purpose.
unfoldable pub both_open : EmailChallenge → EmailChallenge → Bool
both_open a b =
    is_open a && is_open b && text_eq a.email b.email && same_purpose a.purpose b.purpose

-- No two rows have an id in common, and no two are open for one address and purpose.
pub record IsSoundChallenges (rows : Challenges) : Type 0 where
  pub one_id : Distinct same_challenge rows
  pub one_open : Distinct both_open rows

same_purpose_iff : (p q : EmailChallengePurpose) → (same_purpose p q ≡ true) ↔ (p ≡ q)
same_purpose_iff email_verification email_verification = (λ h. refl, λ e. refl)
same_purpose_iff password_reset password_reset = (λ h. refl, λ e. refl)
same_purpose_iff email_verification password_reset = (λ h. cc, λ e. cc)
same_purpose_iff password_reset email_verification = (λ h. cc, λ e. cc)

pub is_addressed_iff :
    (email : Text) (purpose : EmailChallengePurpose) (c : EmailChallenge)
    → (is_addressed email purpose c ≡ true) ↔ ((c.email ≡ email) × (c.purpose ≡ purpose))
unfolding is_addressed
is_addressed_iff email purpose c =
    ground (arith, text_eq_iff c.email email, same_purpose_iff c.purpose purpose)

pub both_open_iff :
    (a b : EmailChallenge)
    → (both_open a b ≡ true)
      ↔ ((is_open a ≡ true) × (is_open b ≡ true) × (a.email ≡ b.email) × (a.purpose ≡ b.purpose))
unfolding both_open
both_open_iff a b =
    ground (arith, text_eq_iff a.email b.email, same_purpose_iff a.purpose b.purpose)

pub both_open_symmetric : (a b : EmailChallenge) → both_open a b ≡ both_open b a
both_open_symmetric a b =
    let (to, from) = both_open_iff a b in
    let (to', from') = both_open_iff b a in
    elim (Bool-cases (both_open a b)) [
      | inl e ↦ let (x, y, z, w) = to e in e ∙ sym (from' (y, x, sym z, sym w))
      | inr e ↦ elim (Bool-cases (both_open b a)) [
        | inl e' ↦
            let (x, y, z, w) = to' e' in absurd (false≢true (sym e ∙ from (y, x, sym z, sym w)))
        | inr e' ↦ e ∙ sym e'
      ]
    ]

same_challenge_symmetric : (a b : EmailChallenge) → same_challenge a b ≡ same_challenge b a
same_challenge_symmetric a b = ground arith

-- An update that keeps ids, addresses and purposes, and opens nothing.
module _ (test : EmailChallenge → Bool) (change : EmailChallenge → EmailChallenge)
    (same_id : (c : EmailChallenge) → (change c).id ≡ c.id)
    (same_email : (c : EmailChallenge) → (change c).email ≡ c.email)
    (same_use : (c : EmailChallenge) → (change c).purpose ≡ c.purpose)
    (opens_none : (c : EmailChallenge) → is_open (change c) ≡ true → is_open c ≡ true) where
  abbrev changed : EmailChallenge → EmailChallenge
  changed c = if test c then change c else c

  pub changed-keeps :
      (c : EmailChallenge)
      → ((changed c).id ≡ c.id)
        × ((changed c).email ≡ c.email)
        × ((changed c).purpose ≡ c.purpose)
        × (is_open (changed c) ≡ true → is_open c ≡ true)
  changed-keeps c = elim (Bool-cases (test c)) [
    | inl e ↦ rw e (same_id c, same_email c, same_use c, opens_none c)
    | inr e ↦ rw e (refl, refl, refl, λ h. h)
  ]

  pub update-IsSoundChallenges :
      (rows : Challenges)
      → IsSoundChallenges rows
      → IsSoundChallenges (update_where test change rows)
  update-IsSoundChallenges rows sound = record {
    one_id =
        Distinct-update_apart same_challenge test change
          (λ a b h.
            let (i, _, _, _) = changed-keeps a in
            let (j, _, _, _) = changed-keeps b in ground arith)
          rows sound.one_id;
    one_open =
        Distinct-update_apart both_open test change
          (λ a b h.
            let (_, e, p, o) = changed-keeps a in
            let (_, f, q, r) = changed-keeps b in
            let (x, y, z, w) = (both_open_iff (changed a) (changed b)).0 h in
            (both_open_iff a b).1 (o x, r y, sym e ∙ z ∙ f, sym p ∙ w ∙ q))
          rows sound.one_open;
  }

keep-IsSoundChallenges :
    (test : EmailChallenge → Bool) (rows : Challenges)
    → IsSoundChallenges rows
    → IsSoundChallenges (remove_where test rows)
unfolding remove_where
keep-IsSoundChallenges test rows sound = record {
  one_id = Distinct-keep same_challenge (λ c. not (test c)) rows sound.one_id;
  one_open = Distinct-keep both_open (λ c. not (test c)) rows sound.one_open;
}

-- No code is open for an address and purpose.
abbrev pub NoneOpen : Text → EmailChallengePurpose → Challenges → Type 0
NoneOpen email purpose rows =
    (c : EmailChallenge) → c ∈ rows → is_addressed email purpose c ≡ true → is_open c ≡ false

-- After the first half of issue nothing is open for its address and purpose.
pub superseded-NoneOpen :
    (email : Text) (purpose : EmailChallengePurpose) (now : ℕ) (rows : Challenges)
    → NoneOpen email purpose (update_where (is_superseded email purpose) (spent_at now) rows)
superseded-NoneOpen email purpose now rows c m h =
    let (y, k, e) = ∈-update_where (is_superseded email purpose) (spent_at now) rows m in
    elim (Bool-cases (is_superseded email purpose y)) [
      | inl t ↦ ap is_open (e ∙ ap (λ b. if b then spent_at now y else y) t)
      | inr t ↦
          let same : c ≡ y = e ∙ ap (λ b. if b then spent_at now y else y) t in
          let addressed = subst (λ z. is_addressed email purpose z ≡ true) same h in
          ap is_open same ∙ ground arith
    ]

spent_at-IsSoundChallenges :
    (test : EmailChallenge → Bool) (now : ℕ) (rows : Challenges)
    → IsSoundChallenges rows
    → IsSoundChallenges (update_where test (spent_at now) rows)
spent_at-IsSoundChallenges test now rows sound =
    update-IsSoundChallenges test (spent_at now) (λ c. refl) (λ c. refl) (λ c. refl) (λ c h. cc)
      rows sound

module _ (prisma : Prisma) where
  -- The rows that issue leaves: those that were there, the open ones of the address and purpose
  -- spent, and the new one.
  pub issue_challenge-eq-some :
      (input : IssueData) (now : ℕ) (rows rows' : Challenges)
      → issue_challenge prisma input now rows ≡ some rows'
      → let spent = update_where (is_superseded input.email input.purpose) (spent_at now) rows in
        (any (same_challenge (challenge_row input now)) spent ≡ false)
        × (rows' ≡ spent ++ challenge_row input now ∷ [])
  unfolding issue_challenge
  issue_challenge-eq-some input now rows rows' h =
      let old = is_superseded input.email input.purpose in
      let e =
        ap (λ (r : Challenges × ℕ). r.0)
          (prisma.update_many_lem EmailChallenge old (spent_at now) rows) in
      let made =
        ap (prisma.create EmailChallenge same_challenge (challenge_row input now)) (sym e) ∙ h in
      insert_new-eq-some same_challenge (challenge_row input now)
        (update_where old (spent_at now) rows)
        (sym (prisma.create_lem EmailChallenge same_challenge (challenge_row input now) _) ∙ made)

  pub issue_challenge-IsSoundChallenges :
      (input : IssueData) (now : ℕ) (rows rows' : Challenges)
      → IsSoundChallenges rows
      → issue_challenge prisma input now rows ≡ some rows'
      → IsSoundChallenges rows'
  issue_challenge-IsSoundChallenges input now rows rows' sound h =
      let old = is_superseded input.email input.purpose in
      let spent = update_where old (spent_at now) rows in
      let row = challenge_row input now in
      let (n, e) = issue_challenge-eq-some input now rows rows' h in
      let s = spent_at-IsSoundChallenges old now rows sound in
      subst IsSoundChallenges (sym e) (record {
        one_id = Distinct-snoc same_challenge same_challenge_symmetric spent row n s.one_id;
        one_open =
            Distinct-snoc both_open both_open_symmetric spent row
              (elim (Bool-cases (any (both_open row) spent)) [
                | inl t ↦
                    let (c, m, b) = (any_iff (both_open row) spent).0 t in
                    let (_, o, z, w) = (both_open_iff row c).0 b in
                    absurd (
                      false≢true (
                        sym (
                          superseded-NoneOpen input.email input.purpose now rows c m
                            ((is_addressed_iff input.email input.purpose c).1 (sym z, sym w)))
                        ∙ o))
                | inr t ↦ t
              ])
              s.one_open;
      })

  -- A write, in the order in which the database makes them; codes are issued only for the addresses
  -- and purposes of `Issued`.
  module _ (Issued : Text → EmailChallengePurpose → Type 0) where
    pub data ChallengeStep (rows : Challenges) : Challenges → Type 0 where
      issued :
          {rows' : Challenges} (input : IssueData) (now : ℕ)
          → Issued input.email input.purpose
          → issue_challenge prisma input now rows ≡ some rows'
          → ChallengeStep rows rows'
      attempted :
          {rows' : Challenges} (id : ℕ)
          → (record_failed_attempt prisma id rows).0 ≡ rows'
          → ChallengeStep rows rows'
      consumed :
          {rows' : Challenges} (id now : ℕ)
          → (consume prisma id now rows).0 ≡ rows'
          → ChallengeStep rows rows'
      burned :
          {rows' : Challenges} (id now : ℕ)
          → burn prisma id now rows ≡ rows'
          → ChallengeStep rows rows'
      pruned :
          {rows' : Challenges} (before : ℕ)
          → (prune_expired_before prisma before rows).0 ≡ rows'
          → ChallengeStep rows rows'

    pub data ChallengeReach (rows : Challenges) : Challenges → Type 0 where
      start : ChallengeReach rows rows
      further :
          {rows' rows'' : Challenges}
          → ChallengeReach rows rows'
          → ChallengeStep rows' rows''
          → ChallengeReach rows rows''

    -- What a write other than issue leaves is an update that opens nothing, or a part of the rows.
    ChallengeStep-IsSound :
        {rows rows' : Challenges}
        → ChallengeStep rows rows'
        → IsSoundChallenges rows
        → IsSoundChallenges rows'
    unfolding record_failed_attempt consume burn prune_expired_before
    ChallengeStep-IsSound {rows} {rows'} (issued input now _ h) sound =
        issue_challenge-IsSoundChallenges input now rows rows' sound h
    ChallengeStep-IsSound {rows} (attempted id e) sound =
        subst IsSoundChallenges
          (sym (
              ap (λ (r : Challenges × ℕ). r.0)
                (prisma.update_many_lem EmailChallenge _ one_more_attempt rows))
            ∙ e)
          (update-IsSoundChallenges (λ c. c.id == id) one_more_attempt (λ c. refl) (λ c. refl)
            (λ c. refl) (λ c h. h) rows sound)
    ChallengeStep-IsSound {rows} (consumed id now e) sound =
        subst IsSoundChallenges
          (sym (
              ap (λ (r : Challenges × ℕ). r.0)
                (prisma.update_many_lem EmailChallenge _ (spent_at now) rows))
            ∙ e)
          (spent_at-IsSoundChallenges (is_open_id id) now rows sound)
    ChallengeStep-IsSound {rows} (burned id now e) sound =
        subst IsSoundChallenges
          (sym (
              ap (λ (r : Challenges × ℕ). r.0)
                (prisma.update_many_lem EmailChallenge _ (spent_at now) rows))
            ∙ e)
          (spent_at-IsSoundChallenges (is_open_id id) now rows sound)
    ChallengeStep-IsSound {rows} (pruned before e) sound =
        subst IsSoundChallenges
          (sym (ap (λ (r : Challenges × ℕ). r.0) (prisma.delete_many_lem EmailChallenge _ rows))
            ∙ e)
          (keep-IsSoundChallenges (λ c. ltb c.expires_at before) rows sound)

    -- Whatever is issued, by one transaction after another, tried, spent, burned and pruned, at most
    -- one code is open for an address and purpose, and no two rows have an id in common.
    pub ChallengeReach-IsSound :
        {rows rows' : Challenges}
        → ChallengeReach rows rows'
        → IsSoundChallenges rows
        → IsSoundChallenges rows'
    ChallengeReach-IsSound start sound = sound
    ChallengeReach-IsSound (further r st) sound =
        ChallengeStep-IsSound st (ChallengeReach-IsSound r sound)
