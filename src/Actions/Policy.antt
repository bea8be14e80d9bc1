-- ===== src/Actions/Policy.antt =====
-- application/decision/heuristic_policy.py and application/safety/action_gate.py.
use battle_belief.Base.{ℕ, Bool, List, [], ◌∷◌, Result, ok, err, ltb, ◌==◌, contains, if◌then◌else◌}
use battle_belief.Actions.Submission.{
  ActionKind, move, switch, revive, team, default, RequestIdentity, BattleSubmission,
  SafeSubmissionSet, DecisionRequest, submission_eq, identity_eq,
}

pub data SafetyError : Type 0 where
  stale_request_identity local_action_gate_rejection no_legal_action : SafetyError

unfoldable pub kind_priority : ActionKind → Bool → ℕ
kind_priority move terastallize = if terastallize then 4 else 0
kind_priority revive terastallize = 1
kind_priority switch terastallize = 2
kind_priority team terastallize = 3
kind_priority default terastallize = 5

unfoldable pub priority : BattleSubmission → ℕ
unfolding kind_priority
priority s = kind_priority s.kind s.terastallize

-- `min(subs, key=_priority)`: the first of the smallest
unfoldable pub min_by_priority : BattleSubmission → List BattleSubmission → BattleSubmission
min_by_priority best [] = best
min_by_priority best (s ∷ subs) =
    min_by_priority (if ltb (priority s) (priority best) then s else best) subs

abbrev pub select_from : List BattleSubmission → Result SafetyError BattleSubmission
select_from [] = err no_legal_action
select_from (s ∷ subs) = ok (min_by_priority s subs)

-- `HeuristicPolicy.select`
unfoldable pub select : DecisionRequest → Result SafetyError BattleSubmission
select request = select_from request.safe_submissions.submissions

-- `ActionSafetyGate.authorize`
unfoldable pub authorize :
    BattleSubmission → RequestIdentity → SafeSubmissionSet → Result SafetyError BattleSubmission
authorize candidate candidate_request latest =
    if candidate_request == latest.request_identity
    then (if contains latest.submissions candidate
        then ok candidate
        else err local_action_gate_rejection)
    else err stale_request_identity
