-- ===== src/Errors.antt =====
-- packages/battlebelief-core/src/battlebelief_core/errors.py: the exceptions of the core.
use battle_belief.Base.{String, Result}

-- What a `ReducerInvariantError` reports: one constructor for each message of the reducer and of
-- `ObservedState.side`, with the values that the message shows.
pub data ReducerFailure : Type 0 where
  index_must_increase : ReducerFailure
  no_active : String → String → ReducerFailure
  nickname_mismatch : String → String → ReducerFailure
  ambiguous_target : String → ReducerFailure
  invalid_side_id : String → ReducerFailure
  unknown_scope : String → ReducerFailure

-- `value_error`, `index_error` and `assertion_error` are Python's own exceptions: a failed check of a value class
-- or of `tuple.index`, an index out of range, and a failed `assert`.
pub data CoreError : Type 0 where
  reducer_invariant : ReducerFailure → CoreError
  value_error : CoreError
  index_error : CoreError
  assertion_error : CoreError

abbrev pub Core : Type 0 → Type 0
Core = Result CoreError
