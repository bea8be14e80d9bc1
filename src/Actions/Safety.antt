-- ===== src/Actions/Safety.antt =====
-- heuristic_policy.py and action_gate.py: the selection by priority, and the gate.
use battle_belief.Base.{
  ◌≤◌, ◌<◌, true, List, [], ◌∷◌, ◌≡◌, ◌⊎◌, ◌↔◌, inl, inr, refl, ok, err, ltb, All, contains, arith,
  if_cases,
}
use battle_belief.Actions.Submission.{
  RequestIdentity, BattleSubmission, SafeSubmissionSet, DecisionRequest, submission_eq, identity_eq,
}
use battle_belief.Actions.Policy.{
  no_legal_action, priority, min_by_priority, select, select_from, authorize,
}

abbrev NotBefore : BattleSubmission → BattleSubmission → Type 0
NotBefore s t = priority s ≤ priority t

-- `s` stands in the list, what stands before it has a larger number, and what stands behind it no
-- smaller one.
abbrev pub IsFirstBest : BattleSubmission → List BattleSubmission → Type 0
IsFirstBest s [] = ⊥
IsFirstBest s (t ∷ subs) =
    ((s ≡ t) × All (NotBefore s) subs) ⊎ ((priority s < priority t) × IsFirstBest s subs)

le_of_first :
    (m x : BattleSubmission) (subs : List BattleSubmission)
    → IsFirstBest m (x ∷ subs)
    → priority m ≤ priority x
le_of_first m x subs (inl (e, _)) = rw e (omega arith)
le_of_first m x subs (inr (lt, _)) = omega arith

step_better :
    (m best s : BattleSubmission) (subs : List BattleSubmission)
    → priority s < priority best
    → IsFirstBest m (s ∷ subs)
    → IsFirstBest m (best ∷ s ∷ subs)
step_better m best s subs lt h = inr (omega (arith, le_of_first m s subs h), h)

step_worse :
    (m best s : BattleSubmission) (subs : List BattleSubmission)
    → priority best ≤ priority s
    → IsFirstBest m (best ∷ subs)
    → IsFirstBest m (best ∷ s ∷ subs)
step_worse m best s subs le (inl (e, all)) = inl (e, (rw e le, all))
step_worse m best s subs le (inr (lt, h)) = inr (lt, inr (omega arith, h))

min_by_priority-IsFirstBest :
    (best : BattleSubmission) (subs : List BattleSubmission)
    → IsFirstBest (min_by_priority best subs) (best ∷ subs)
unfolding min_by_priority
min_by_priority-IsFirstBest best [] = inl (refl, tt)
min_by_priority-IsFirstBest best (s ∷ subs) =
    if_cases (λ b. IsFirstBest (min_by_priority b subs) (best ∷ s ∷ subs))
      (ltb (priority s) (priority best))
      (λ t.
        step_better (min_by_priority s subs) best s subs (ground arith)
          (min_by_priority-IsFirstBest s subs))
      (λ f.
        step_worse (min_by_priority best subs) best s subs (ground arith)
          (min_by_priority-IsFirstBest best subs))

-- The policy fails exactly on an empty set of submissions; otherwise it selects the first one of
-- the smallest priority number.
pub select-IsFirstBest :
    (request : DecisionRequest)
    → ((select request ≡ err no_legal_action) × (request.safe_submissions.submissions ≡ []))
      ⊎ ((s : BattleSubmission) × (select request ≡ ok s)
          × IsFirstBest s request.safe_submissions.submissions)
unfolding select
select-IsFirstBest request = go request.safe_submissions.submissions
  where
    go :
        (subs : List BattleSubmission)
        → ((select_from subs ≡ err no_legal_action) × (subs ≡ []))
          ⊎ ((s : BattleSubmission) × (select_from subs ≡ ok s) × IsFirstBest s subs)
    go [] = inl (refl, refl)
    go (s ∷ subs) = inr (min_by_priority s subs, refl, min_by_priority-IsFirstBest s subs)

pub IsFirstBest-contains :
    (s : BattleSubmission) (subs : List BattleSubmission)
    → IsFirstBest s subs
    → contains subs s ≡ true
IsFirstBest-contains s [] h = absurd h
IsFirstBest-contains s (t ∷ subs) (inl (e, _)) = ground arith
IsFirstBest-contains s (t ∷ subs) (inr (_, h)) = ground (arith, IsFirstBest-contains s subs h)

-- The gate returns a submission exactly if it is the candidate, the candidate was made for the
-- latest request, and it is one of that request's submissions.
pub authorize_iff :
    (candidate s : BattleSubmission) (identity : RequestIdentity) (latest : SafeSubmissionSet)
    → (authorize candidate identity latest ≡ ok s) ↔ (
        (s ≡ candidate)
        × (identity ≡ latest.request_identity)
        × (contains latest.submissions candidate ≡ true))
unfolding authorize
authorize_iff candidate s identity latest = (λ h. ground arith, λ h. ground arith)

-- The gate never rejects what the policy selects from a request with its own submissions.
pub authorize-select :
    (request : DecisionRequest) (s : BattleSubmission)
    → request.identity ≡ request.safe_submissions.request_identity
    → select request ≡ ok s
    → authorize s request.identity request.safe_submissions ≡ ok s
authorize-select request s same h = elim (select-IsFirstBest request) [
  | inl (none, _) ↦ cc
  | inr (t, e, best) ↦
      let chosen : s ≡ t = ground arith in
      (authorize_iff s s request.identity request.safe_submissions).1
        (refl, same, rw chosen (IsFirstBest-contains t request.safe_submissions.submissions best))
]
