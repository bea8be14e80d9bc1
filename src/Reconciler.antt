-- ===== src/Reconciler.antt =====
-- packages/battlebelief-core/src/battlebelief_core/application/safety/request_reconciler.py: whether
-- a private request agrees with the public state.
pub mod Accepts
use battle_belief.Base.{
  ℕ, zero, suc, ◌+◌, ℤ, pos, String, Bool, true, false, not, ◌&&◌, ◌||◌, Option, none, some, List,
  [], ◌∷◌, Result, ok, err, ◌>>=◌, ◌>>◌, guard, leb, ltb, ◌==◌, nat_eq, string_eq, list_eq,
  contains, is_none, if◌then◌else◌,
}
use battle_belief.Base.Int.{int_eq}
use battle_belief.Base.Text.{codes, lower_codes, without_code}
use battle_belief.Errors.{Core, CoreError}
use battle_belief.State.{PokemonView, SideView, ObservedState, side}
use battle_belief.Reducer.{Entry, find_active}
use battle_belief.Actions.{
  ActionKind, move, switch, revive, team, default, RequestKind, move_request, forced_switch,
  revival, team_preview, wait, BattleSubmission, DecisionRequest, kind_eq, identity_eq, is_empty,
}

pub data ReconciliationStatus : Type 0 where
  accept pending_public_state reject : ReconciliationStatus

-- The reason texts, one constructor for each message.
pub data Reason : Type 0 where
  room_mismatch identity_mismatch stale_rqid our_side_unknown side_mismatch : Reason
  generation_unknown generation_mismatch game_type_unknown game_type_not_singles : Reason
  tier_unknown tier_not_gen9ou team_size_out_of_range team_size_mismatch : Reason
  wait_with_submissions no_default kind_not_allowed order_not_permutation : Reason
  active_unknown no_active_identity active_mismatch agreed : Reason

pub record ReconciliationResult : Type 0 where
  pub status : ReconciliationStatus
  pub reason : Reason

-- How `reconcile` is left before its end: by a `return`, or by what `state.side` raises.
pub data Exit : Type 0 where
  rejected : Reason → Exit
  pending : Reason → Exit
  raised : CoreError → Exit

abbrev pub Check : Type 0 → Type 0
Check = Result Exit

abbrev pub reject_unless : Bool → Reason → Check (Unit {0})
reject_unless test reason = guard test (rejected reason)

-- `if x is None: return PENDING`
abbrev pub known : {A : Type 0} → Option A → Reason → Check A
known none reason = err (pending reason)
known (some a) reason = ok a

abbrev pub lift : {A : Type 0} → Core A → Check A
lift (ok a) = ok a
lift (err e) = err (raised e)

-- `game_type.lower() == "singles"`
unfoldable pub is_singles : String → Bool
is_singles game_type = lower_codes (codes game_type) == codes "singles"

-- `_tier_matches`, of a tier that is there
unfoldable pub tier_matches : String → Bool
tier_matches tier =
    without_code b']' (without_code b'[' (without_code b' ' (lower_codes (codes tier))))
    == codes "gen9ou"

-- `_ALLOWED_KINDS`
unfoldable pub is_allowed : RequestKind → ActionKind → Bool
is_allowed move_request move = true
is_allowed move_request switch = true
is_allowed move_request default = true
is_allowed forced_switch switch = true
is_allowed forced_switch default = true
is_allowed revival revive = true
is_allowed revival default = true
is_allowed team_preview team = true
is_allowed team_preview default = true
is_allowed _ _ = false

-- `range(first, first + count)`
unfoldable pub range_from : ℕ → ℕ → List ℕ
range_from first zero = []
range_from first (suc count) = first ∷ range_from (suc first) count

abbrev pub all_in : List ℕ → List ℕ → Bool
all_in ys [] = true
all_in ys (x ∷ xs) = contains ys x && all_in ys xs

-- `frozenset(xs) == frozenset(ys)`
unfoldable pub same_set : List ℕ → List ℕ → Bool
same_set xs ys = all_in ys xs && all_in xs ys

unfoldable pub has_default : List BattleSubmission → Bool
has_default [] = false
has_default (s ∷ subs) = s.kind == default || has_default subs

abbrev pub not_older : Option ℕ → ℕ → Bool
not_older none rqid = true
not_older (some latest) rqid = not (ltb rqid latest)

abbrev pub size_matches : Option ℤ → ℕ → Bool
size_matches none count = true
size_matches (some size) count = pos count == size

unfoldable pub check_contents : RequestKind → List BattleSubmission → Check (Unit {0})
check_contents wait subs = reject_unless (is_empty subs) wait_with_submissions
check_contents move_request subs = reject_unless (has_default subs) no_default
check_contents forced_switch subs = reject_unless (has_default subs) no_default
check_contents revival subs = reject_unless (has_default subs) no_default
check_contents team_preview subs = reject_unless (has_default subs) no_default

unfoldable pub check_kinds : RequestKind → List BattleSubmission → Check (Unit {0})
check_kinds kind [] = ok tt
check_kinds kind (s ∷ subs) = do
  reject_unless (is_allowed kind s.kind) kind_not_allowed
  check_kinds kind subs

unfoldable pub check_orders : List ℕ → List BattleSubmission → Check (Unit {0})
check_orders expected [] = ok tt
check_orders expected (s ∷ subs) = do
  reject_unless (not (s.kind == team) || same_set s.team_order expected) order_not_permutation
  check_orders expected subs

-- the branch for `RequestKind.TEAM_PREVIEW`
unfoldable pub check_preview : RequestKind → ℕ → List BattleSubmission → Check (Unit {0})
check_preview team_preview count subs = check_orders (range_from 1 count) subs
check_preview _ count subs = ok tt

abbrev pub matches_active : Option Entry → Option String → Check (Unit {0})
matches_active none identity = err (pending active_unknown)
matches_active (some e) none = err (rejected no_active_identity)
matches_active (some (i, pv)) (some identity) =
    reject_unless (identity == pv.nickname) active_mismatch

-- the branch for the kinds that need an active pokemon
unfoldable pub check_active_identity : RequestKind → SideView → Option String → Check (Unit {0})
check_active_identity team_preview own_side identity = ok tt
check_active_identity wait own_side identity = ok tt
check_active_identity move_request own_side identity =
    matches_active (find_active own_side) identity
check_active_identity forced_switch own_side identity =
    matches_active (find_active own_side) identity
check_active_identity revival own_side identity = matches_active (find_active own_side) identity

-- what is read of the public state; the result is the own side
unfoldable pub check_state : String → DecisionRequest → ObservedState → Option ℕ → Check SideView
check_state room_id request state latest_rqid = do
  reject_unless (request.identity.room_id == room_id) room_mismatch
  reject_unless (request.identity == request.safe_submissions.request_identity) identity_mismatch
  reject_unless (not_older latest_rqid request.identity.rqid) stale_rqid
  our_side ← known state.our_side our_side_unknown
  reject_unless (request.side_id == our_side) side_mismatch
  generation ← known state.generation generation_unknown
  reject_unless (generation == pos 9) generation_mismatch
  game_type ← known state.game_type game_type_unknown
  reject_unless (is_singles game_type) game_type_not_singles
  tier ← known state.tier tier_unknown
  reject_unless (tier_matches tier) tier_not_gen9ou
  reject_unless (leb 1 request.team_member_count && leb request.team_member_count 6)
      team_size_out_of_range
  own_side ← lift (side state our_side)
  reject_unless (size_matches own_side.team_size request.team_member_count) team_size_mismatch
  ok own_side

unfoldable pub check_request : DecisionRequest → SideView → Check (Unit {0})
check_request request own_side = do
  let subs = request.safe_submissions.submissions
  check_contents request.kind subs
  check_kinds request.kind subs
  check_preview request.kind request.team_member_count subs
  check_active_identity request.kind own_side request.active_identity

abbrev pub result_of : Check (Unit {0}) → Core ReconciliationResult
result_of (ok _) = ok (record { status = accept; reason = agreed })
result_of (err (rejected reason)) = ok (record { status = reject; reason = reason })
result_of (err (pending reason)) = ok (record { status = pending_public_state; reason = reason })
result_of (err (raised e)) = err e

-- `RequestReconciler.reconcile`
unfoldable pub reconcile :
    String → DecisionRequest → ObservedState → Option ℕ → Core ReconciliationResult
reconcile room_id request state latest_rqid =
    result_of
      (do own_side ← check_state room_id request state latest_rqid; check_request request own_side)
