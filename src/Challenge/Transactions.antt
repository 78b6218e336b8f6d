-- ===== src/Challenge/Transactions.antt =====
-- The transaction of issue in backend/src/repositories/email-challenge.repository.ts among others, at
-- the isolation that the code leaves it, READ COMMITTED: its updateMany takes the rows that are
-- committed when it begins and holds them, and its writes are there from its commit on. A row that
-- another transaction has committed in between is not one of those.
pub mod Laws
use wall_e_campus_assistant.Prelude.{
  ℕ, ◌≡◌, ◌↔◌, refl, inl, inr, Bool, true, false, ◌&&◌, Option, some, List, [], ◌∷◌, ◌++◌, ◌∈◌, map,
  sym, ap, ◌∙◌, subst, arith, Bool-cases, any, any_iff, ◌==◌, ==_refl, if◌then◌else◌, false≢true,
  ∈-append, ∈-map_iff, ∈-keep_iff,
}
use wall_e_campus_assistant.Text.{Text}
use wall_e_campus_assistant.Database.{Prisma}
use wall_e_campus_assistant.Database.Rows.{update_where, remove_where}
use wall_e_campus_assistant.Database.Rows.Laws.{∈-update_where, update_where-∈, insert_new-eq-some}
use wall_e_campus_assistant.Challenge.{
  EmailChallengePurpose, EmailChallenge, Challenges, IssueData, challenge_row, same_challenge,
  is_open, is_addressed, is_superseded, spent_at, one_more_attempt, issue_challenge,
  record_failed_attempt, consume, burn, prune_expired_before,
}
use wall_e_campus_assistant.Challenge.Steps.{
  IsSoundChallenges, both_open, both_open_iff, is_addressed_iff, changed-keeps, ChallengeStep,
  issued, attempted, consumed, burned, pruned, ChallengeReach-IsSound, start, further,
  issue_challenge-eq-some, issue_challenge-IsSoundChallenges,
}

abbrev pub ids_of : Challenges → List ℕ
ids_of rows = map (λ (c : EmailChallenge). c.id) rows

abbrev pub was_seen : List ℕ → EmailChallenge → Bool
was_seen seen c = any (λ i. i == c.id) seen

-- A transaction that has begun: what it issues, and the ids of the rows that it has seen.
pub record Flight : Type 0 where
  pub input : IssueData
  pub now : ℕ
  pub seen : List ℕ

abbrev pub is_retired_by : Flight → EmailChallenge → Bool
is_retired_by f c = is_superseded f.input.email f.input.purpose c && was_seen f.seen c

-- Two transactions for one address and purpose.
abbrev pub IsSameAddress : Flight → Flight → Type 0
IsSameAddress f g = (f.input.email ≡ g.input.email) × (f.input.purpose ≡ g.input.purpose)

-- The committed rows, and the transactions in flight.
pub record Traffic : Type 0 where
  pub rows : Challenges
  pub flights : List Flight

module _ (prisma : Prisma) where
  unfoldable pub commit_issue : Flight → Challenges → Option Challenges
  commit_issue f rows =
      prisma.create EmailChallenge same_challenge (challenge_row f.input f.now)
        (prisma.update_many EmailChallenge (is_retired_by f) (spent_at f.now) rows).0

  -- What may come next. A transaction commits only when no other that is in flight is for its address
  -- and purpose; the code does not see to that.
  pub data TrafficStep (s : Traffic) : Traffic → Type 0 where
    begun :
        (input : IssueData) (now : ℕ)
        → TrafficStep s (record {
          rows = s.rows;
          flights = record { input = input; now = now; seen = ids_of s.rows } ∷ s.flights;
        })
    committed :
        {rows' : Challenges} (f : Flight) (flights' : List Flight)
        → f ∈ s.flights
        → ((g : Flight) → g ∈ flights' → (g ∈ s.flights) × ¬ IsSameAddress f g)
        → commit_issue f s.rows ≡ some rows'
        → TrafficStep s (record { rows = rows'; flights = flights' })
    rolled_back :
        (flights' : List Flight)
        → ((g : Flight) → g ∈ flights' → g ∈ s.flights)
        → TrafficStep s (record { rows = s.rows; flights = flights' })
    written :
        {rows' : Challenges}
        → ChallengeStep prisma (λ email purpose. ⊥) s.rows rows'
        → TrafficStep s (record { rows = rows'; flights = s.flights })

  pub data TrafficReach (s : Traffic) : Traffic → Type 0 where
    begin : TrafficReach s s
    onward : {s' s'' : Traffic} → TrafficReach s s' → TrafficStep s' s'' → TrafficReach s s''
