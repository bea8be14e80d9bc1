-- ===== src/Session/Commands.antt =====
-- battle_session.py: what the commands that a session sends say.
use battle_belief.Base.{All-contains, true, Option, List, ◌≡◌, subst, All, All-weaken}
use battle_belief.State.{ObservedState}
use battle_belief.Actions.{submission_eq}
use battle_belief.Actions.Checks.{IsWellFormed}
use battle_belief.Reconciler.{is_allowed}
use battle_belief.Reconciler.Accepts.{IsAccepted}
use battle_belief.Session.Model.{Failure, Sent, RoomLine, Environment, start}
use battle_belief.Session.Steps.{run}
use battle_belief.Session.Ledger.{IsAuthorized}
use battle_belief.Session.Sound.{session-IsSound}
use battle_belief.Session.Choices.{read_choice, choice_of, read_choice-encode_submission}

-- A command that says a well-formed submission, of a kind that its request allows.
pub record IsUnderstood (x : Sent) : Type 0 where
  pub well_formed : IsWellFormed x.submission
  pub allowed : is_allowed x.request.kind x.submission.kind ≡ true
  pub choice : read_choice x.choice ≡ choice_of x.submission.kind x.submission

IsAuthorized-IsUnderstood : (env : Environment) (x : Sent) → IsAuthorized env x → IsUnderstood x
unfolding IsAccepted
IsAuthorized-IsUnderstood env x h =
    let subs = x.request.safe_submissions.submissions in
    let well_formed =
      All-contains IsWellFormed subs x.submission h.own h.read.submissions.well_formed in
    let (latest, accepted) = h.accepted in
    let (own_side, with_state, with_side) = accepted in
    record {
      well_formed = well_formed;
      allowed =
          All-contains (λ s. is_allowed x.request.kind s.kind ≡ true) subs x.submission h.own
            with_side.kinds;
      choice =
          subst (λ text. read_choice text ≡ choice_of x.submission.kind x.submission) h.encoded
            (read_choice-encode_submission x.submission well_formed);
    }

-- Every command that a session sends, whatever lines it received from its start, carries a
-- well-formed submission of a kind that its request allows, and its text reads back as what the
-- submission chooses.
pub session-IsUnderstood :
    (env : Environment) (lines : List RoomLine) (ending : Option Failure) (state : ObservedState)
    → All IsUnderstood (run env lines ending (start state)).sent
session-IsUnderstood env lines ending state =
    All-weaken (IsAuthorized env) IsUnderstood (IsAuthorized-IsUnderstood env) _
      (session-IsSound env lines ending state).authorized
