-- ===== src/Challenge/Laws.antt =====
-- When a code is issued and when one is accepted
-- (backend/src/services/email-challenge.service.ts).
use wall_e_campus_assistant.Prelude.{
  ℕ, ◌+◌, ◌*◌, ◌-◌, ◌<◌, ◌≤◌, ◌≡◌, ◌≢◌, ◌↔◌, refl, inl, inr, true, false, Option, some, none, [],
  ◌∷◌, ◌∈◌, sym, ap, ◌∙◌, subst, arith, Bool-cases, ltb, ◌==◌, if◌then◌else◌, any, any-false,
  false≢true, ok, err, Option-cases, count,
}
use wall_e_campus_assistant.Text.{Text}
use wall_e_campus_assistant.Database.{Prisma}
use wall_e_campus_assistant.Database.Rows.{update_where}
use wall_e_campus_assistant.Database.Rows.Laws.{Distinct, ∈-update_where, Distinct-unique}
use wall_e_campus_assistant.Challenge.{
  EmailChallengePurpose, EmailChallenge, Challenges, is_open, is_open_id, same_challenge,
  is_addressed, is_live, spent_at, find_live, find_latest, count_since, consume,
}
use wall_e_campus_assistant.Challenge.Service.{
  Bcrypt, OtpConfig, otp_invalid, remaining_seconds, cooled_down, assert_may_issue,
  verify_challenge, verify, guessed_wrong,
}
use wall_e_campus_assistant.Challenge.Steps.{
  IsSoundChallenges, NoneOpen, ChallengeReach, both_open, both_open_iff, both_open_symmetric,
  is_addressed_iff,
}
use wall_e_campus_assistant.Challenge.Replay.{
  Another, NoneOpen-refused, ChallengeReach-NoneOpen, live_parts,
}

count-none :
    (c : EmailChallenge) (rows : Challenges)
    → any (same_challenge c) rows ≡ false
    → count (is_open_id c.id) rows ≡ 0
count-none c [] h = refl
count-none c (r ∷ rows) h = ground (arith, count-none c rows (ground arith))

-- An open code is all that its id names, so that the update of it changes one row.
count-one :
    (c : EmailChallenge) (rows : Challenges)
    → Distinct same_challenge rows
    → c ∈ rows
    → is_open c ≡ true
    → count (is_open_id c.id) rows ≡ 1
count-one c [] d m o = absurd m
count-one c (r ∷ rows) (n, d) m o = elim m [
  | inl e ↦
      let h = count-none c rows (subst (λ z. any (same_challenge z) rows ≡ false) (sym e) n) in
      let t : is_open_id c.id r ≡ true = subst (λ z. is_open_id c.id z ≡ true) e (ground arith) in
      ground arith
  | inr k ↦
      let rest = count-one c rows d k o in
      let apart = any-false (same_challenge r) rows n k in ground arith
]

guessed_wrong-ne-ok :
    (prisma : Prisma) (bcrypt : Bcrypt) (config : OtpConfig) (id now : ℕ)
    (r : Challenges × Option EmailChallenge)
    → (guessed_wrong prisma bcrypt config id now r).1 ≢ ok tt
guessed_wrong-ne-ok prisma bcrypt config id now (rows, none) h = cc
guessed_wrong-ne-ok prisma bcrypt config id now (rows, some c) h = cc

remaining_seconds_iff :
    (cooldown created now : ℕ)
    → (ltb 0 (remaining_seconds cooldown created now) ≡ false) ↔ (created + cooldown * 1000 ≤ now)
unfolding remaining_seconds
remaining_seconds_iff cooldown created now = ground arith

cooled_down_iff :
    (cooldown now : ℕ) (c : EmailChallenge)
    → (cooled_down cooldown now (some c) ≡ ok tt) ↔ (c.created_at + cooldown * 1000 ≤ now)
unfolding cooled_down
cooled_down_iff cooldown now c =
    let (to, from) = remaining_seconds_iff cooldown c.created_at now in
    elim (Bool-cases (ltb 0 (remaining_seconds cooldown c.created_at now))) [
      | inl e ↦ (λ h. absurd (ground arith), λ le. absurd (false≢true (sym (from le) ∙ e)))
      | inr e ↦ (λ h. to e, λ le. ground arith)
    ]

cooled_down-none : (cooldown now : ℕ) → cooled_down cooldown now none ≡ ok tt
unfolding cooled_down
cooled_down-none cooldown now = refl

some-injective : {A : Type 0} {a b : A} → some a ≡ some b → a ≡ b
some-injective h = cc

module _ (prisma : Prisma) (bcrypt : Bcrypt) (config : OtpConfig) (email : Text)
    (purpose : EmailChallengePurpose) where
  -- A live code that is found can be spent: the update finds its one row.
  consume-live :
      (c : EmailChallenge) (now : ℕ) (rows : Challenges)
      → IsSoundChallenges rows
      → find_live prisma email purpose now config.max_attempts rows ≡ some c
      → consume prisma c.id now rows ≡ (update_where (is_open_id c.id) (spent_at now) rows, true)
  unfolding consume find_live
  consume-live c now rows sound e =
      let (m, t, _) =
        prisma.find_latest_some EmailChallenge (is_live email purpose now config.max_attempts)
          (λ z. z.created_at) rows c e in
      let (_, o) = live_parts prisma email purpose bcrypt config now c t in
      let one = count-one c rows sound.one_id m o in
      ap (λ (r : Challenges × ℕ). (r.0, r.1 == 1))
        (prisma.update_many_lem EmailChallenge (is_open_id c.id) (spent_at now) rows)
      ∙ ap (λ n. (update_where (is_open_id c.id) (spent_at now) rows, n == 1)) one

  spent-NoneOpen :
      (c : EmailChallenge) (now : ℕ) (rows : Challenges)
      → IsSoundChallenges rows
      → find_live prisma email purpose now config.max_attempts rows ≡ some c
      → NoneOpen email purpose (update_where (is_open_id c.id) (spent_at now) rows)
  unfolding find_live
  spent-NoneOpen c now rows sound e x m a =
      let (k, t, _) =
        prisma.find_latest_some EmailChallenge (is_live email purpose now config.max_attempts)
          (λ z. z.created_at) rows c e in
      let (b, o) = live_parts prisma email purpose bcrypt config now c t in
      let (y, k', q) = ∈-update_where (is_open_id c.id) (spent_at now) rows m in
      elim (Bool-cases (is_open_id c.id y)) [
        | inl u ↦ ap is_open (q ∙ ap (λ z. if z then spent_at now y else y) u)
        | inr u ↦
            let same : x ≡ y = q ∙ ap (λ z. if z then spent_at now y else y) u in
            elim (Bool-cases (is_open y)) [
              | inr shut ↦ ap is_open same ∙ shut
              | inl open_ ↦
                  let (e1, p1) = (is_addressed_iff email purpose c).0 b in
                  let (e2, p2) =
                    (is_addressed_iff email purpose y).0
                      (subst (λ z. is_addressed email purpose z ≡ true) same a) in
                  let one : c ≡ y =
                    Distinct-unique both_open both_open_symmetric rows c y sound.one_open k k'
                      ((both_open_iff c y).1 (o, open_, e1 ∙ sym e2, p1 ∙ sym p2)) in
                  let hit : is_open_id c.id c ≡ true = ground arith in
                  absurd (false≢true (sym u ∙ subst (λ z. is_open_id c.id z ≡ true) one hit))
            ]
      ]

  -- From rows with the invariant, a code is accepted exactly if a live code is found for the
  -- address and purpose and it is that code.
  pub verify_iff :
      (code : Text) (now : ℕ) (rows : Challenges)
      → IsSoundChallenges rows
      → ((verify prisma bcrypt config email purpose code now rows).1 ≡ ok tt) ↔ (
          (c : EmailChallenge) × (find_live prisma email purpose now config.max_attempts rows
            ≡ some c)
          × (bcrypt.compare code c.code_hash ≡ true))
  unfolding verify verify_challenge
  verify_iff code now rows sound =
      elim (Option-cases (find_live prisma email purpose now config.max_attempts rows)) [
        | inl e ↦ rw e (λ h. cc, λ (c, f, _). cc)
        | inr (c, e) ↦ elim (Bool-cases (bcrypt.compare code c.code_hash)) [
          | inl t ↦
              let spent = consume-live c now rows sound e in
              ((λ h. (c, e, t)), λ _. rw (e, t, spent) refl)
          | inr t ↦
              rw (e, t)
                (
                  λ h. absurd (guessed_wrong-ne-ok prisma bcrypt config c.id now _ h),
                  λ (c', f, t').
                      let same = some-injective f in
                      absurd (
                        false≢true (
                          sym t
                          ∙ ap (λ (z : EmailChallenge). bcrypt.compare code z.code_hash) same
                          ∙ t')),
                )
        ]
      ]

  -- When a code is accepted, nothing is left open for its address and purpose.
  verify-NoneOpen :
      (code : Text) (now : ℕ) (rows : Challenges)
      → IsSoundChallenges rows
      → (verify prisma bcrypt config email purpose code now rows).1 ≡ ok tt
      → NoneOpen email purpose (verify prisma bcrypt config email purpose code now rows).0
  unfolding verify verify_challenge
  verify-NoneOpen code now rows sound h =
      let (c, e, t) = (verify_iff code now rows sound).0 h in
      let left = update_where (is_open_id c.id) (spent_at now) rows in
      let spent = consume-live c now rows sound e in
      rw (e, t, spent) (spent-NoneOpen c now rows sound e)

  -- Where no two rows have an id in common and at most one code is open for an address and purpose, a
  -- code is accepted once: after that, whatever is issued for other addresses or purposes, tried,
  -- spent, burned or pruned, every code for the address and purpose is refused as not valid and
  -- nothing is written.
  pub verify_once :
      (code again : Text) (now later : ℕ) (rows rows' : Challenges)
      → IsSoundChallenges rows
      → (verify prisma bcrypt config email purpose code now rows).1 ≡ ok tt
      → ChallengeReach prisma
          (Another prisma email purpose)
          (verify prisma bcrypt config email purpose code now rows).0
          rows'
      → verify prisma bcrypt config email purpose again later rows' ≡ (rows', err otp_invalid)
  verify_once code again now later rows rows' sound h reach =
      NoneOpen-refused prisma email purpose bcrypt config again later rows'
        (ChallengeReach-NoneOpen prisma email purpose reach (verify-NoneOpen code now rows sound h))

  -- A code is issued exactly if the cooldown since every code for the address and purpose has
  -- passed, and the address has been sent fewer codes than the limit in the last hour.
  pub assert_may_issue_iff :
      (now : ℕ) (rows : Challenges)
      → (assert_may_issue prisma bcrypt config email purpose now rows ≡ ok tt) ↔ (
          ((c : EmailChallenge)
            → c ∈ rows
            → is_addressed email purpose c ≡ true
            → c.created_at + config.resend_cooldown_seconds * 1000 ≤ now)
          × (count_since prisma email (now - 60 * 60000) rows < config.max_per_email_per_hour))
  unfolding assert_may_issue find_latest
  assert_may_issue_iff now rows = elim (Option-cases (find_latest prisma email purpose rows)) [
    | inl e ↦
        let free = cooled_down-none config.resend_cooldown_seconds now in
        let none_sent =
          prisma.find_latest_none EmailChallenge (is_addressed email purpose) (λ z. z.created_at)
            rows e in
        (
          λ h. (λ c m a. absurd (none_sent c m a), ground arith),
          λ (_, few). rw (e, free) ground arith,
        )
    | inr (l, e) ↦
        let (to, from) = cooled_down_iff config.resend_cooldown_seconds now l in
        let (m, t, top) =
          prisma.find_latest_some EmailChallenge (is_addressed email purpose) (λ z. z.created_at)
            rows l e in
        (
          λ h. (
            let waited = to (ground arith) in λ c k a. let le = top c k a in omega arith,
            ground arith,
          ),
          λ (all, few). let cooled = from (all l m t) in rw e ground arith,
        )
  ]
