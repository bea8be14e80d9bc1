-- ===== src/Session/Constructed.antt =====
-- battle_session.py and decision_record.py: the records that a session makes pass their checks.
use battle_belief.Base.{
  ℕ, ◌<◌, ◌+◌, String, Bool, true, false, not, ◌&&◌, ◌||◌, Option, none, some, Result, ok, err,
  Ensures, leb, List, ◌≡◌, ◌⊎◌, inl, inr, refl, sym, subst, Bool-cases, is_none, is_some, if_intro,
  arith,
}
use battle_belief.State.{ObservedState}
use battle_belief.Actions.{BattleSubmission, SafeSubmissionSet, DecisionRequest}
use battle_belief.RequestReader.Readers.{IsReadRequest}
use battle_belief.Session.Records.{
  DecisionRecord, DecisionRecordStatus, DecisionRecordErrorCode, PendingTrace, make_record,
  is_consistent,
}
use battle_belief.Session.Fields.{
  max_safe_integer, is_digest, is_arm_id, ResolvedBinding, MeasurementRunContext, is_public,
  are_valid_fields, fields_of_context, fields_valid,
}
use battle_belief.Session.Model.{Failure, RoomLine, Environment, Session, start}
use battle_belief.Session.Steps.{
  finalize_pending, finalize_trace, emit_record, handle_trace_failure,
  handle_record_construction_failure, is_bound, open_trace, opened_with, refresh_trace,
  refreshed_with, refresh_pending_trace_state, run,
}
use battle_belief.Session.Ledger.{Left}
use battle_belief.Session.Traces.{IsTraceOf, trace_of-IsTraceOf}
use battle_belief.Session.Shapes.{Journal, journal_of, IsShape, Keeps}
use battle_belief.Session.Journals.{run-keeps}

-- What the constructors of a context and of its binding have checked.
abbrev IsCheckedBinding : Option ResolvedBinding → Type 0
IsCheckedBinding none = Unit
IsCheckedBinding (some binding) = is_arm_id binding.arm_id ≡ true

abbrev pub IsCheckedContext : Option MeasurementRunContext → Type 0
IsCheckedContext none = Unit
IsCheckedContext (some context) =
    (is_digest context.run_context_digest ≡ true)
    × (is_digest context.battle_id_digest ≡ true)
    × IsCheckedBinding context.resolved_binding

-- A digest that is returned is `sha256:` and 64 hexadecimal digits.
pub record IsHashing (env : Environment) : Type 0 where
  pub observed :
      (state : ObservedState) (digest : String)
      → env.observed_state_digest state ≡ ok digest
      → is_digest digest ≡ true
  pub projected :
      (submissions : SafeSubmissionSet) (digest : String)
      → env.projected_set_digest submissions ≡ ok digest
      → is_digest digest ≡ true

record AreDigests (t : PendingTrace) : Type 0 where
  pub published : is_public t.request.identity ≡ true
  pub observed : is_digest t.observed_state_digest ≡ true
  pub projected : is_digest t.safe_submission_set_digest ≡ true

-- The fields are valid but for the index.
bound-fields :
    (context : MeasurementRunContext) (binding : Option ResolvedBinding) (t : PendingTrace)
    → is_digest context.run_context_digest ≡ true
    → is_digest context.battle_id_digest ≡ true
    → IsCheckedBinding binding
    → is_some binding ≡ true
    → AreDigests t
    → fields_of_context context binding t ≡ leb t.decision_index max_safe_integer
unfolding are_valid_fields
bound-fields context none t run battle arm bound d = cc
bound-fields context (some binding) t run battle arm bound d =
    rw (run, battle, arm, d.published, d.observed, d.projected)
      (and_true (leb t.decision_index max_safe_integer))
  where
    and_true : (b : Bool) → (b && true) ≡ b
    and_true true = refl
    and_true false = refl

fields_valid-index :
    (context : Option MeasurementRunContext) (t : PendingTrace)
    → IsCheckedContext context
    → is_bound context ≡ true
    → AreDigests t
    → fields_valid context t ≡ leb t.decision_index max_safe_integer
fields_valid-index none t checked bound d = cc
fields_valid-index (some context) t checked bound d =
    bound-fields context context.resolved_binding t checked.0 checked.1 checked.2 bound d

-- The open record has valid fields, and no record has failed unless too many were opened.
abbrev IsValidOpen : Option PendingTrace → ℕ → Type 0
IsValidOpen none next = Unit
IsValidOpen (some t) next = AreDigests t × (t.decision_index < next)

abbrev IsUnfailed : Option Failure → ℕ → Type 0
IsUnfailed error next = (error ≡ none) ⊎ (max_safe_integer < next)

record IsConstructing (j : Journal) : Type 0 where
  pub open_valid : IsValidOpen j.pending j.next
  pub unfailed : IsUnfailed j.record_error j.next

module _ (env : Environment) (checked : IsCheckedContext env.decision_record_context)
    (hashing : IsHashing env) where
  abbrev Holds : Session → Type 0
  Holds s = IsConstructing (journal_of s)

  emit_record-Holds :
      (valid : Bool) (r : DecisionRecord) (s : Session)
      → is_consistent r ≡ true
      → (valid ≡ true) ⊎ (max_safe_integer < s.next_decision_index)
      → Holds s
      → Holds (emit_record env valid r s)
  unfolding emit_record handle_trace_failure handle_record_construction_failure
  emit_record-Holds valid r s good fits v = elim (Bool-cases valid) [
    | inl fine ↦ elim (Bool-cases (env.sink_takes s.emitted r)) [
      | inr raises ↦
          rw (fine, good, raises) (record { open_valid = v.open_valid; unfailed = v.unfailed })
      | inl takes ↦
          rw (fine, good, takes) (record { open_valid = v.open_valid; unfailed = v.unfailed })
    ]
    | inr broken ↦
        rw broken (record { open_valid = v.open_valid; unfailed = inr (too_many fits broken) })
  ]
    where
      too_many :
          (valid ≡ true) ⊎ (max_safe_integer < s.next_decision_index)
          → valid ≡ false
          → max_safe_integer < s.next_decision_index
      too_many (inl fine) broken = absurd (ground (arith, fine, broken))
      too_many (inr many) broken = many

  finalize_trace-Holds :
      (status : DecisionRecordStatus) (code : Option DecisionRecordErrorCode)
      (selected : Option BattleSubmission) (trace : Option PendingTrace) (s : Session)
      → IsShape status code selected
      → IsValidOpen trace s.next_decision_index
      → Holds s
      → Holds (finalize_trace env status code selected trace s)
  unfolding IsShape
  finalize_trace-Holds status code selected none s shape opened v = v
  finalize_trace-Holds status code selected (some t) s shape (digests, below) v =
      let closed : Holds (record s { pending_trace = none }) = record {
        open_valid = tt;
        unfailed = v.unfailed;
      } in
      elim (Bool-cases (is_bound env.decision_record_context && not s.trace_failed)) [
        | inr unbound ↦ rw unbound closed
        | inl bound ↦
            let index =
              fields_valid-index env.decision_record_context t checked (ground arith) digests in
            rw bound (
              emit_record-Holds (fields_valid env.decision_record_context t)
                (make_record t status code selected) (record s { pending_trace = none }) (shape t)
                (rw index (fits t.decision_index below)) closed)
      ]
    where
      fits :
          (n : ℕ)
          → n < s.next_decision_index
          → (leb n max_safe_integer ≡ true) ⊎ (max_safe_integer < s.next_decision_index)
      fits n lt = elim (Bool-cases (leb n max_safe_integer)) [
        | inl small ↦ inl small
        | inr large ↦ inr (ground (arith, large, lt))
      ]

  opened_with-Holds :
      (request : DecisionRequest) (s : Session) (trace : Result Failure PendingTrace)
      → request.safe_submissions.request_identity ≡ request.identity
      → Ensures (IsTraceOf env request s) trace
      → Holds s
      → Left Holds (opened_with s trace)
  opened_with-Holds request s (err e) same of v = v
  opened_with-Holds request s (ok t) same of v = record {
    open_valid = (
      record {
        published =
            subst (λ r. is_public r.identity ≡ true) (sym of.request_of)
              (subst (λ i. is_public i ≡ true) same of.published);
        observed = hashing.observed s.state t.observed_state_digest of.observed;
        projected =
            hashing.projected request.safe_submissions t.safe_submission_set_digest of.projected;
      },
      omega (arith, of.index),
    );
    unfailed = grown s.record_error s.next_decision_index v.unfailed;
  }
    where
      grown : (error : Option Failure) (n : ℕ) → IsUnfailed error n → IsUnfailed error (n + 1)
      grown error n (inl fine) = inl fine
      grown error n (inr many) = inr (omega (arith, many))

  open_trace-Holds :
      (request : DecisionRequest) (s : Session)
      → IsReadRequest env.room_id request
      → Holds s
      → Left Holds (open_trace env request s)
  unfolding open_trace
  open_trace-Holds request s read v =
      if_intro (Left Holds) (is_none env.decision_record_context || s.trace_failed) v
        (opened_with-Holds request s _ read.identity (trace_of-IsTraceOf env request s) v)

  refreshed_with-Holds :
      (s : Session) (t : PendingTrace) (digest : Result Failure String)
      → env.observed_state_digest s.state ≡ digest
      → IsValidOpen (some t) s.next_decision_index
      → Holds s
      → Left Holds (refreshed_with s t digest)
  refreshed_with-Holds s t (err e) is opened v = v
  refreshed_with-Holds s t (ok digest) is (d, below) v = record {
    open_valid = (
      record {
        published = d.published;
        observed = hashing.observed s.state digest is;
        projected = d.projected;
      },
      below,
    );
    unfailed = v.unfailed;
  }

  refresh_trace-Holds :
      (s : Session) (trace : Option PendingTrace)
      → IsValidOpen trace s.next_decision_index
      → Holds s
      → Left Holds (refresh_trace env s trace)
  refresh_trace-Holds s none opened v = v
  refresh_trace-Holds s (some t) opened v = refreshed_with-Holds s t _ refl opened v

  Keeps-IsConstructing : Keeps env IsConstructing
  unfolding finalize_pending refresh_pending_trace_state
  Keeps-IsConstructing = record {
    finalized = λ status code selected s shape v.
        finalize_trace-Holds status code selected s.pending_trace s shape v.open_valid v;
    opened = λ request s read v. open_trace-Holds request s read v;
    refreshed = λ s v. refresh_trace-Holds s s.pending_trace v.open_valid v;
    reported = λ e s v. record { open_valid = v.open_valid; unfailed = v.unfailed };
  }

  -- In a session whose context passed the checks of its constructors, and whose digests are sha256
  -- digests wherever they do not raise, every record passes the checks of `DecisionRecord`, whatever
  -- lines it receives: no record fails to be constructed, unless the session has opened more than
  -- 2^53 - 1 of them.
  pub session-record_error :
      (lines : List RoomLine) (ending : Option Failure) (state : ObservedState)
      → ((run env lines ending (start state)).record_error ≡ none)
        ⊎ (max_safe_integer < (run env lines ending (start state)).next_decision_index)
  unfolding start
  session-record_error lines ending state =
      (run-keeps env IsConstructing Keeps-IsConstructing lines ending (start state)
        (record { open_valid = tt; unfailed = inl refl })).unfailed
