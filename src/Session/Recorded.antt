-- ===== src/Session/Recorded.antt =====
-- battle_session.py: the records of the decisions.
use battle_belief.Base.{
  Result, ok, err, Ensures, sym, subst, if_intro, ℕ, ◌<◌, String, Bool, true, not, ◌&&◌, ◌||◌,
  Option, none, some, List, [], ◌∷◌, ◌≡◌, refl, All, Bool-cases, is_none, inl, inr, arith,
}
use battle_belief.State.{ObservedState}
use battle_belief.Actions.{BattleSubmission, DecisionRequest}
use battle_belief.Session.Records.{
  DecisionRecord, DecisionRecordStatus, DecisionRecordErrorCode, PendingTrace, make_record,
  is_consistent,
}
use battle_belief.Session.Fields.{fields_valid}
use battle_belief.Session.Model.{keep_error, Failure, RoomLine, Environment, Session, start}
use battle_belief.Session.Steps.{
  finalize_pending, finalize_trace, emit_record, handle_trace_failure,
  handle_record_construction_failure, is_bound, open_trace, opened_with, refresh_trace,
  refreshed_with, refresh_pending_trace_state, run,
}
use battle_belief.Session.Traces.{IsTraceOf, trace_of-IsTraceOf}
use battle_belief.Session.Ledger.{Left}
use battle_belief.Session.Shapes.{Journal, journal_of, Keeps}
use battle_belief.Session.Journals.{run-keeps}

-- Every index below this one is used up, or is the open record's.
abbrev pub bound_of : Option PendingTrace → ℕ → ℕ
bound_of none next = next
bound_of (some pending) next = pending.decision_index

abbrev pub IsOpenBelow : Option PendingTrace → ℕ → Type 0
IsOpenBelow none next = Unit
IsOpenBelow (some pending) next = pending.decision_index < next

-- Newest first, the indices of the records go down.
abbrev pub AreDescending : List DecisionRecord → Type 0
AreDescending [] = Unit
AreDescending (r ∷ rs) = All (λ q. q.decision_index < r.decision_index) rs × AreDescending rs

pub record IsOrdered (j : Journal) : Type 0 where
  pub open_below : IsOpenBelow j.pending j.next
  pub emitted_below : All (λ r. r.decision_index < bound_of j.pending j.next) j.emitted
  pub descending : AreDescending j.emitted
  pub consistent : All (λ r. is_consistent r ≡ true) j.emitted

All-below :
    (rs : List DecisionRecord) (m n : ℕ)
    → m < n
    → All (λ r. r.decision_index < m) rs
    → All (λ r. r.decision_index < n) rs
All-below [] m n lt h = tt
All-below (r ∷ rs) m n lt h = (omega (arith, h.0), All-below rs m n lt h.1)

-- The open record is closed without being emitted.
closed-IsOrdered :
    (pending : Option PendingTrace) (next : ℕ) (emitted : List DecisionRecord)
    (failed first failed' first' : Option Failure)
    → IsOrdered (record {
      pending = pending;
      next = next;
      emitted = emitted;
      record_error = failed;
      primary_error = first;
    })
    → IsOrdered (record {
      pending = none;
      next = next;
      emitted = emitted;
      record_error = failed';
      primary_error = first';
    })
closed-IsOrdered none next emitted failed first failed' first' v = record {
  open_below = tt;
  emitted_below = v.emitted_below;
  descending = v.descending;
  consistent = v.consistent;
}
closed-IsOrdered (some pending) next emitted failed first failed' first' v = record {
  open_below = tt;
  emitted_below = All-below emitted pending.decision_index next v.open_below v.emitted_below;
  descending = v.descending;
  consistent = v.consistent;
}

emit_record-IsOrdered :
    (env : Environment) (valid : Bool) (r : DecisionRecord) (s : Session)
    → All (λ q. q.decision_index < r.decision_index) s.emitted
    → r.decision_index < s.next_decision_index
    → IsOrdered (journal_of (record s { pending_trace = none }))
    → IsOrdered (journal_of (emit_record env valid r (record s { pending_trace = none })))
unfolding emit_record handle_trace_failure handle_record_construction_failure
emit_record-IsOrdered env valid r s before below v = elim (Bool-cases (valid && is_consistent r)) [
  | inr broken ↦ rw broken (closed-IsOrdered none _ _ _ _ _ _ v)
  | inl good ↦ elim (Bool-cases (env.sink_takes s.emitted r)) [
    | inr raises ↦ rw (good, raises) (closed-IsOrdered none _ _ _ _ _ _ v)
    | inl takes ↦
        rw (good, takes)
          (record {
            open_below = tt;
            emitted_below = (below, v.emitted_below);
            descending = (before, v.descending);
            consistent = (ground arith, v.consistent);
          })
  ]
]

finalize_trace-IsOrdered :
    (env : Environment) (status : DecisionRecordStatus) (code : Option DecisionRecordErrorCode)
    (selected : Option BattleSubmission) (trace : Option PendingTrace) (s : Session)
    → s.pending_trace ≡ trace
    → IsOrdered (journal_of (record s { pending_trace = trace }))
    → IsOrdered (journal_of (finalize_trace env status code selected trace s))
unfolding make_record
finalize_trace-IsOrdered env status code selected none s same v = rw same v
finalize_trace-IsOrdered env status code selected (some pending) s same v =
    let closed =
      closed-IsOrdered (some pending) s.next_decision_index s.emitted s.record_error s.primary_error
        s.record_error s.primary_error v in
    elim (Bool-cases (is_bound env.decision_record_context && not s.trace_failed)) [
      | inr unbound ↦ rw unbound closed
      | inl bound ↦ rw bound (
          emit_record-IsOrdered env (fields_valid env.decision_record_context pending)
            (make_record pending status code selected) s v.emitted_below v.open_below closed)
    ]

opened_with-IsOrdered :
    (env : Environment) (request : DecisionRequest) (s : Session)
    (trace : Result Failure PendingTrace)
    → Ensures (IsTraceOf env request s) trace
    → IsOrdered (journal_of s)
    → Left (λ s'. IsOrdered (journal_of s')) (opened_with s trace)
opened_with-IsOrdered env request s (err e) of v = v
opened_with-IsOrdered env request s (ok trace) of v = record {
  open_below = omega (arith, of.index);
  emitted_below =
      subst (λ n. All (λ r. r.decision_index < n) s.emitted) (sym of.index)
        (closed-IsOrdered s.pending_trace s.next_decision_index s.emitted s.record_error
          s.primary_error s.record_error s.primary_error v).emitted_below;
  descending = v.descending;
  consistent = v.consistent;
}

open_trace-IsOrdered :
    (env : Environment) (request : DecisionRequest) (s : Session)
    → IsOrdered (journal_of s)
    → Left (λ s'. IsOrdered (journal_of s')) (open_trace env request s)
unfolding open_trace
open_trace-IsOrdered env request s v =
    if_intro (Left (λ s'. IsOrdered (journal_of s')))
      (is_none env.decision_record_context || s.trace_failed) v
      (opened_with-IsOrdered env request s _ (trace_of-IsTraceOf env request s) v)

refresh_trace-IsOrdered :
    (env : Environment) (s : Session) (trace : Option PendingTrace)
    → IsOrdered (record (journal_of s) { pending = trace })
    → IsOrdered (journal_of s)
    → Left (λ s'. IsOrdered (journal_of s')) (refresh_trace env s trace)
refresh_trace-IsOrdered env s none v whole = whole
refresh_trace-IsOrdered env s (some pending) v whole = each (env.observed_state_digest s.state)
  where
    each :
        (digest : Result Failure String)
        → Left (λ s'. IsOrdered (journal_of s')) (refreshed_with s pending digest)
    each (err e) = whole
    each (ok digest) = record {
      open_below = v.open_below;
      emitted_below = v.emitted_below;
      descending = v.descending;
      consistent = v.consistent;
    }

reported-IsOrdered :
    (e : Failure) (s : Session) → IsOrdered (journal_of s) → IsOrdered (journal_of (keep_error e s))
reported-IsOrdered e s v = record {
  open_below = v.open_below;
  emitted_below = v.emitted_below;
  descending = v.descending;
  consistent = v.consistent;
}

Keeps-IsOrdered : (env : Environment) → Keeps env IsOrdered
unfolding finalize_pending refresh_pending_trace_state
Keeps-IsOrdered env = record {
  finalized = λ status code selected s shape v.
      finalize_trace-IsOrdered env status code selected s.pending_trace s refl v;
  opened = λ request s read v. open_trace-IsOrdered env request s v;
  refreshed = λ s v. refresh_trace-IsOrdered env s s.pending_trace v v;
  reported = λ e s v. reported-IsOrdered e s v;
}

-- Whatever a session receives, it records each decision at most once and in order: the indices of
-- the records it emitted grow, the open record's index is above them all, and every record it
-- emitted has a status, an error code and a selection that belong together.
pub session-IsOrdered :
    (env : Environment) (lines : List RoomLine) (ending : Option Failure) (state : ObservedState)
    → IsOrdered (journal_of (run env lines ending (start state)))
unfolding start
session-IsOrdered env lines ending state =
    run-keeps env IsOrdered (Keeps-IsOrdered env) lines ending (start state)
      (record { open_below = tt; emitted_below = tt; descending = tt; consistent = tt })
