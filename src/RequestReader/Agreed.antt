-- ===== src/RequestReader/Agreed.antt =====
-- request_reader.py with request_reconciler.py, heuristic_policy.py and action_gate.py: a request on
-- its way from the reader to the gate.
use battle_belief.Base.{
  ℕ, String, true, Option, List, [], ◌∷◌, ok, ◌>>=◌, Ensures, Ensures-weaken, ◌⊎◌, inl, inr, ◌≡◌,
  refl, sym, arith,
}
use battle_belief.State.{ObservedState}
use battle_belief.Actions.{
  RequestKind, wait, BattleSubmission, DecisionRequest, submission_eq, select, authorize, kind_eq,
}
use battle_belief.Actions.Safety.{select-IsFirstBest, authorize-select}
use battle_belief.Reconciler.{
  has_default, check_contents, check_active_identity, check_state, check_request, result_of,
  reconcile,
}
use battle_belief.RequestReader.JsonValues.{Fields}
use battle_belief.RequestReader.Reader.{Loaded, read_request}
use battle_belief.RequestReader.Sound.{read_request-IsReadRequest}
use battle_belief.RequestReader.Readers.{IsReadRequest}

-- The reconciler decides by the public state and the active pokemon alone.
abbrev pub DecidedByState : String → ObservedState → Option ℕ → DecisionRequest → Type 0
DecidedByState room_id state latest request =
    reconcile room_id request state latest
    ≡ result_of (do
      own_side ← check_state room_id request state latest
      check_active_identity request.kind own_side request.active_identity)

read-DecidedByState :
    (room_id reader_room : String) (state : ObservedState) (latest : Option ℕ)
    (request : DecisionRequest)
    → IsReadRequest reader_room request
    → DecidedByState room_id state latest request
unfolding reconcile check_request
read-DecidedByState room_id reader_room state latest request h =
    rw (h.submissions.contents, h.submissions.kinds, h.submissions.orders) refl

-- A request that was read is never refused for its submissions: whatever the payload, the
-- reconciler decides on it by the public state and the active pokemon alone.
pub reconcile-read_request :
    (loads : String → Loaded) (digest : Fields → String) (room_id payload : String)
    (state : ObservedState) (latest : Option ℕ)
    → Ensures (DecidedByState room_id state latest) (read_request loads digest room_id payload)
reconcile-read_request loads digest room_id payload state latest =
    Ensures-weaken (IsReadRequest room_id) (DecidedByState room_id state latest)
      (read-DecidedByState room_id room_id state latest) (read_request loads digest room_id payload)
      (read_request-IsReadRequest loads digest room_id payload)

-- A request to wait offers nothing; of any other request, the policy selects a submission that the
-- gate lets pass.
abbrev pub IsAnswerable : DecisionRequest → Type 0
IsAnswerable request =
    ((request.kind ≡ wait) × (request.safe_submissions.submissions ≡ []))
    ⊎ ((s : BattleSubmission) × (select request ≡ ok s)
        × (authorize s request.identity request.safe_submissions ≡ ok s))

wait_or_nonempty :
    (kind : RequestKind) (subs : List BattleSubmission)
    → check_contents kind subs ≡ ok tt
    → ((kind ≡ wait) × (subs ≡ [])) ⊎ (has_default subs ≡ true)
unfolding check_contents
wait_or_nonempty wait [] h = inl (refl, refl)
wait_or_nonempty wait (s ∷ subs) h = cc
wait_or_nonempty _ subs h = inr (ground arith)

read-IsAnswerable :
    (room_id : String) (request : DecisionRequest)
    → IsReadRequest room_id request
    → IsAnswerable request
unfolding has_default
read-IsAnswerable room_id request h =
    elim (wait_or_nonempty request.kind request.safe_submissions.submissions
      h.submissions.contents) [
        | inl waits ↦ inl waits
        | inr full ↦ elim (select-IsFirstBest request) [
          | inl (failed, empty) ↦ absurd (ground (arith, empty, full))
          | inr (s, selected, best) ↦
              inr (s, selected, authorize-select request s (sym h.identity) selected)
        ]
      ]

-- A request that was read has an answer, whatever the payload: it asks to wait and offers nothing,
-- or the policy selects one of its submissions and the gate lets that one pass.
pub read_request-IsAnswerable :
    (loads : String → Loaded) (digest : Fields → String) (room_id payload : String)
    → Ensures IsAnswerable (read_request loads digest room_id payload)
read_request-IsAnswerable loads digest room_id payload =
    Ensures-weaken (IsReadRequest room_id) IsAnswerable (read-IsAnswerable room_id)
      (read_request loads digest room_id payload)
      (read_request-IsReadRequest loads digest room_id payload)
