-- ===== src/Challenge/Transactions/Laws.antt =====
-- That codes stay unambiguous as long as the transactions for an address do not overlap, and what an
-- overlap leads to (issue of backend/src/repositories/email-challenge.repository.ts).
use wall_e_campus_assistant.Prelude.{
  ℕ, ◌≡◌, refl, inl, inr, Bool, true, false, some, [], ◌∷◌, ◌++◌, ◌∈◌, sym, ap, ◌∙◌, subst, arith,
  Bool-cases, any, any_iff, ◌==◌, ==_refl, if◌then◌else◌, ∈-append, ∈-map_iff, ∈-keep_iff, ltb, not,
}
use wall_e_campus_assistant.Database.{Prisma}
use wall_e_campus_assistant.Database.Rows.{update_where, remove_where}
use wall_e_campus_assistant.Database.Rows.Laws.{∈-update_where, update_where-∈, insert_new-eq-some}
use wall_e_campus_assistant.Text.{Text}
use wall_e_campus_assistant.Challenge.{
  EmailChallengePurpose, EmailChallenge, Challenges, challenge_row, same_challenge, is_open,
  is_open_id, is_superseded, spent_at, one_more_attempt, issue_challenge, record_failed_attempt,
  consume, burn, prune_expired_before,
}
use wall_e_campus_assistant.Challenge.Transactions.{
  ids_of, was_seen, Flight, is_retired_by, IsSameAddress, Traffic, commit_issue, TrafficStep, begun,
  committed, rolled_back, written, TrafficReach, begin, onward,
}
use wall_e_campus_assistant.Challenge.Steps.{
  IsSoundChallenges, both_open, both_open_iff, is_addressed_iff, ChallengeStep, issued, attempted,
  consumed, burned, pruned, ChallengeReach-IsSound, start, further,
  issue_challenge-IsSoundChallenges,
}

-- Each open row of its address and purpose has been seen by the transaction.
abbrev Covers : Flight → Challenges → Type 0
Covers f rows =
    (c : EmailChallenge)
    → c ∈ rows
    → is_superseded f.input.email f.input.purpose c ≡ true
    → was_seen f.seen c ≡ true

update_where-cong :
    (test test' : EmailChallenge → Bool) (change : EmailChallenge → EmailChallenge)
    (rows : Challenges)
    → ((c : EmailChallenge) → c ∈ rows → test c ≡ test' c)
    → update_where test change rows ≡ update_where test' change rows
unfolding update_where
update_where-cong test test' change [] same = refl
update_where-cong test test' change (r ∷ rows) same =
    let ih = update_where-cong test test' change rows (λ c m. same c (inr m)) in
    rw (same r (inl refl), ih) refl

seen_at_once : (rows : Challenges) (c : EmailChallenge) → c ∈ rows → was_seen (ids_of rows) c ≡ true
seen_at_once rows c m =
    (any_iff (λ i. i == c.id) (ids_of rows)).1
      (c.id, (∈-map_iff (λ (z : EmailChallenge). z.id) c.id rows).1 (c, m, refl), ==_refl c.id)

-- A row that stands for an earlier one, and is open only if that was.
pub record Stems (y c : EmailChallenge) : Type 0 where
  pub same_id : c.id ≡ y.id
  pub same_email : c.email ≡ y.email
  pub same_use : c.purpose ≡ y.purpose
  pub opens_none : is_open c ≡ true → is_open y ≡ true

abbrev StemsFrom : Challenges → EmailChallenge → Type 0
StemsFrom rows c = (y : EmailChallenge) × (y ∈ rows) × Stems y c

Stems-superseded :
    (email : Text) (use_ : EmailChallengePurpose) (y c : EmailChallenge)
    → Stems y c
    → is_superseded email use_ c ≡ true
    → is_superseded email use_ y ≡ true
Stems-superseded email use_ y c stems h =
    let (a, b) = (is_addressed_iff email use_ c).0 (ground arith) in
    let addressed =
      (is_addressed_iff email use_ y).1 (sym stems.same_email ∙ a, sym stems.same_use ∙ b) in
    let still_open = stems.opens_none (ground arith) in ground arith

Covers-StemsFrom :
    (f : Flight) (rows rows' : Challenges)
    → ((c : EmailChallenge)
        → c ∈ rows'
        → is_superseded f.input.email f.input.purpose c ≡ true
        → StemsFrom rows c)
    → Covers f rows
    → Covers f rows'
Covers-StemsFrom f rows rows' from covers c m h =
    let (y, k, stems) = from c m h in
    let seen = covers y k (Stems-superseded f.input.email f.input.purpose y c stems h) in
    subst (λ i. any (λ j. j == i) f.seen ≡ true) (sym stems.same_id) seen

update-StemsFrom :
    (test : EmailChallenge → Bool) (change : EmailChallenge → EmailChallenge)
    → ((c : EmailChallenge) → Stems c (change c))
    → (rows : Challenges) (c : EmailChallenge) → c ∈ update_where test change rows
    → StemsFrom rows c
update-StemsFrom test change stems rows c m =
    let (y, k, e) = ∈-update_where test change rows m in
    (
      y,
      k,
      subst (Stems y) (sym e) (elim (Bool-cases (test y)) [
        | inl t ↦ rw t (stems y)
        | inr t ↦
            rw t
              (record { same_id = refl; same_email = refl; same_use = refl; opens_none = λ h. h })
      ]),
    )

spent-Stems : (now : ℕ) (c : EmailChallenge) → Stems c (spent_at now c)
spent-Stems now c = record {
  same_id = refl;
  same_email = refl;
  same_use = refl;
  opens_none = λ h. cc;
}

module _ (prisma : Prisma) where
  updated :
      (test : EmailChallenge → Bool) (change : EmailChallenge → EmailChallenge) (rows : Challenges)
      → (prisma.update_many EmailChallenge test change rows).0 ≡ update_where test change rows
  updated test change rows =
      ap (λ (r : Challenges × ℕ). r.0) (prisma.update_many_lem EmailChallenge test change rows)

  -- A write that issues nothing.
  ChallengeStep-StemsFrom :
      {rows rows' : Challenges}
      → ChallengeStep prisma (λ email purpose. ⊥) rows rows'
      → (c : EmailChallenge) → c ∈ rows'
      → StemsFrom rows c
  unfolding record_failed_attempt consume burn prune_expired_before remove_where
  ChallengeStep-StemsFrom (issued input now none_issued h) c m = absurd none_issued
  ChallengeStep-StemsFrom {rows} (attempted id e) c m =
      update-StemsFrom (λ z. z.id == id) one_more_attempt
        (λ z. record { same_id = refl; same_email = refl; same_use = refl; opens_none = λ h. h })
        rows c (subst (λ l. c ∈ l) (sym e ∙ updated (λ z. z.id == id) one_more_attempt rows) m)
  ChallengeStep-StemsFrom {rows} (consumed id now e) c m =
      update-StemsFrom (is_open_id id) (spent_at now) (spent-Stems now) rows c
        (subst (λ l. c ∈ l) (sym e ∙ updated (is_open_id id) (spent_at now) rows) m)
  ChallengeStep-StemsFrom {rows} (burned id now e) c m =
      update-StemsFrom (is_open_id id) (spent_at now) (spent-Stems now) rows c
        (subst (λ l. c ∈ l) (sym e ∙ updated (is_open_id id) (spent_at now) rows) m)
  ChallengeStep-StemsFrom {rows} (pruned before e) c m =
      let test = λ (z : EmailChallenge). ltb z.expires_at before in
      let deleted =
        ap (λ (r : Challenges × ℕ). r.0) (prisma.delete_many_lem EmailChallenge test rows) in
      let k = (∈-keep_iff (λ z. not (test z)) c rows).0 (subst (λ l. c ∈ l) (sym e ∙ deleted) m) in
      (c, k.0, record { same_id = refl; same_email = refl; same_use = refl; opens_none = λ h. h })

  -- A transaction that has seen the open rows of its address issues as one that ran alone.
  commit_issue-alone :
      (f : Flight) (rows : Challenges)
      → Covers f rows
      → commit_issue prisma f rows ≡ issue_challenge prisma f.input f.now rows
  unfolding commit_issue issue_challenge
  commit_issue-alone f rows covers =
      let old = is_superseded f.input.email f.input.purpose in
      let same = update_where-cong (is_retired_by f) old (spent_at f.now) rows (λ c m.
        elim (Bool-cases (old c)) [
          | inl e ↦ let k = covers c m e in ground arith
          | inr e ↦ ground arith
        ]) in
      ap (prisma.create EmailChallenge same_challenge (challenge_row f.input f.now)) (
        updated (is_retired_by f) (spent_at f.now) rows
        ∙ same
        ∙ sym (updated old (spent_at f.now) rows))

  committed_rows :
      (f : Flight) (rows rows' : Challenges)
      → commit_issue prisma f rows ≡ some rows'
      → rows'
        ≡ update_where (is_retired_by f) (spent_at f.now) rows ++ challenge_row f.input f.now ∷ []
  unfolding commit_issue
  committed_rows f rows rows' h =
      let row = challenge_row f.input f.now in
      (insert_new-eq-some same_challenge row (update_where (is_retired_by f) (spent_at f.now) rows)
        (sym (prisma.create_lem EmailChallenge same_challenge row _)
          ∙ ap (prisma.create EmailChallenge same_challenge row)
              (sym (updated (is_retired_by f) (spent_at f.now) rows))
          ∙ h)).1

  -- What another transaction has seen of its address is not outdated by the commit.
  commit_issue-Covers :
      (f g : Flight) (rows rows' : Challenges)
      → ¬ IsSameAddress f g
      → commit_issue prisma f rows ≡ some rows'
      → Covers g rows
      → Covers g rows'
  commit_issue-Covers f g rows rows' apart h = Covers-StemsFrom g rows rows' (λ c m t.
      elim ((∈-append c (update_where (is_retired_by f) (spent_at f.now) rows) _).0
        (subst (λ l. c ∈ l) (committed_rows f rows rows' h) m)) [
          | inl k ↦ update-StemsFrom (is_retired_by f) (spent_at f.now) (spent-Stems f.now) rows c k
          | inr k ↦ elim k [
            | inl q ↦
                let (a, b) = (is_addressed_iff g.input.email g.input.purpose c).0 (ground arith) in
                absurd (
                  apart (
                    sym (ap (λ (z : EmailChallenge). z.email) q) ∙ a,
                    sym (ap (λ (z : EmailChallenge). z.purpose) q) ∙ b,
                  ))
            | inr b ↦ absurd b
          ]
        ])

  -- The rows are sound and the transactions have seen what they retire.
  record InTraffic (s : Traffic) : Type 0 where
    sound : IsSoundChallenges s.rows
    covering : (g : Flight) → g ∈ s.flights → Covers g s.rows

  TrafficStep-InTraffic : {s s' : Traffic} → TrafficStep prisma s s' → InTraffic s → InTraffic s'
  TrafficStep-InTraffic {s} (begun input now) v = record {
    sound = v.sound;
    covering = λ g m. elim m [
      | inl e ↦ subst (λ z. Covers z s.rows) (sym e) (λ c k h. seen_at_once s.rows c k)
      | inr k ↦ v.covering g k
    ];
  }
  TrafficStep-InTraffic {s} (committed {rows'} f flights' here left h) v = record {
    sound =
        issue_challenge-IsSoundChallenges prisma f.input f.now s.rows rows' v.sound
          (sym (commit_issue-alone f s.rows (v.covering f here)) ∙ h);
    covering =
        λ g m. commit_issue-Covers f g s.rows rows' (left g m).1 h (v.covering g (left g m).0);
  }
  TrafficStep-InTraffic {s} (rolled_back flights' left) v = record {
    sound = v.sound;
    covering = λ g m. v.covering g (left g m);
  }
  TrafficStep-InTraffic {s} (written {rows'} st) v = record {
    sound = ChallengeReach-IsSound prisma (λ email purpose. ⊥) (further start st) v.sound;
    covering = λ g m.
        Covers-StemsFrom g s.rows rows' (λ c k t. ChallengeStep-StemsFrom st c k) (v.covering g m);
  }

  TrafficReach-InTraffic : {s s' : Traffic} → TrafficReach prisma s s' → InTraffic s → InTraffic s'
  TrafficReach-InTraffic begin v = v
  TrafficReach-InTraffic (onward r st) v = TrafficStep-InTraffic st (TrafficReach-InTraffic r v)

  -- Whatever transactions issue codes and whatever is tried, spent, burned and pruned while they are
  -- in flight, at most one code is open for an address and purpose and no two rows have an id in
  -- common, if this held when none was in flight, and if at no commit another transaction for the same
  -- address and purpose was in flight.
  pub TrafficReach-IsSound :
      {s s' : Traffic}
      → TrafficReach prisma s s'
      → s.flights ≡ []
      → IsSoundChallenges s.rows
      → IsSoundChallenges s'.rows
  TrafficReach-IsSound {s} reach none_in_flight sound =
      (TrafficReach-InTraffic reach (record {
        sound = sound;
        covering = λ g m. absurd (subst (λ l. g ∈ l) none_in_flight m);
      })).sound

  -- Two transactions for one address and purpose that overlap, in that the second began before the
  -- first committed and has not seen its row, leave two open codes.
  pub overlapping_issues :
      (f g : Flight) (rows rows' rows'' : Challenges)
      → IsSameAddress f g
      → commit_issue prisma f rows ≡ some rows'
      → commit_issue prisma g rows' ≡ some rows''
      → was_seen g.seen (challenge_row f.input f.now) ≡ false
      → (challenge_row f.input f.now ∈ rows'')
        × (challenge_row g.input g.now ∈ rows'')
        × (both_open (challenge_row f.input f.now) (challenge_row g.input g.now) ≡ true)
  overlapping_issues f g rows rows' rows'' (email, purpose) first second unseen =
      let a = challenge_row f.input f.now in
      let b = challenge_row g.input g.now in
      let mid = update_where (is_retired_by f) (spent_at f.now) rows in
      let in_first =
        subst (λ l. a ∈ l) (sym (committed_rows f rows rows' first))
          ((∈-append a mid (a ∷ [])).1 (inr (inl refl))) in
      let kept = update_where-∈ (is_retired_by g) (spent_at g.now) rows' a in_first in
      let not_retired : is_retired_by g a ≡ false = ground arith in
      let still =
        subst
          (λ z.
            (if z then spent_at g.now a else a)
            ∈ update_where (is_retired_by g) (spent_at g.now) rows')
          not_retired kept in
      let later = update_where (is_retired_by g) (spent_at g.now) rows' in
      let into =
        subst (λ l. (z : EmailChallenge) → z ∈ later ++ b ∷ [] → z ∈ l)
          (sym (committed_rows g rows' rows'' second)) (λ z m. m) in
      (
        into a ((∈-append a later (b ∷ [])).1 (inl still)),
        into b ((∈-append b later (b ∷ [])).1 (inr (inl refl))),
        (both_open_iff a b).1 (refl, refl, email, purpose),
      )
