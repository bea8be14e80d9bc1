-- ===== src/Reconciler/Accepts.antt =====
-- request_reconciler.py: what a request has to agree with, in the public state and on our side.
use battle_belief.Base.{
  ℕ, ◌≤◌, ℤ, pos, String, true, Option, none, some, List, [], ◌∷◌, ◌≡◌, ◌↔◌, refl, ok, err, ◌>>=◌,
  nat_eq, string_eq, All, arith,
}
use battle_belief.Base.Int.{int_eq}
use battle_belief.State.{SideView, ObservedState, side}
use battle_belief.Reducer.{Entry, find_active}
use battle_belief.Actions.{
  team, RequestKind, move_request, forced_switch, revival, team_preview, wait, BattleSubmission,
  DecisionRequest, kind_eq, identity_eq,
}
use battle_belief.Reconciler.{
  accept, agreed, Check, ReconciliationResult, is_singles, tier_matches, is_allowed, range_from,
  same_set, has_default, check_contents, check_kinds, check_orders, check_preview, matches_active,
  check_active_identity, check_state, check_request, result_of, reconcile,
}

-- A pending or known part of the state that agrees.
abbrev Known : {A : Type 0} → (A → Type 0) → Option A → Type 0
Known P none = ⊥
Known P (some a) = P a

-- no request with a larger id was answered
abbrev Upper : Option ℕ → ℕ → Type 0
Upper none rqid = Unit
Upper (some latest) rqid = latest ≤ rqid

abbrev Expected : Option ℤ → ℕ → Type 0
Expected none count = Unit
Expected (some size) count = size ≡ pos count

-- What the public state has to say for a request to be accepted.
pub record AgreesWithState (room_id : String) (request : DecisionRequest) (state : ObservedState)
    (latest_rqid : Option ℕ) (own_side : SideView) : Type 0 where
  pub room : request.identity.room_id ≡ room_id
  pub identity : request.identity ≡ request.safe_submissions.request_identity
  pub fresh : Upper latest_rqid request.identity.rqid
  pub our_side : state.our_side ≡ some request.side_id
  pub generation : state.generation ≡ some (pos 9)
  pub game_type : Known (λ g. is_singles g ≡ true) state.game_type
  pub tier : Known (λ t. tier_matches t ≡ true) state.tier
  pub size : (1 ≤ request.team_member_count) × (request.team_member_count ≤ 6)
  pub own : side state request.side_id ≡ ok own_side
  pub team_size : Expected own_side.team_size request.team_member_count

check_state-agrees :
    (room_id : String) (request : DecisionRequest) (state : ObservedState) (latest : Option ℕ)
    (own_side : SideView)
    → check_state room_id request state latest ≡ ok own_side
    → AgreesWithState room_id request state latest own_side
unfolding check_state
check_state-agrees room_id request state latest own_side h = ground arith

agrees-check_state :
    (room_id : String) (request : DecisionRequest) (state : ObservedState) (latest : Option ℕ)
    (own_side : SideView)
    → AgreesWithState room_id request state latest own_side
    → check_state room_id request state latest ≡ ok own_side
unfolding check_state
agrees-check_state room_id request state latest own_side h = ground arith

abbrev Contents : RequestKind → List BattleSubmission → Type 0
Contents wait subs = subs ≡ []
Contents move_request subs = has_default subs ≡ true
Contents forced_switch subs = has_default subs ≡ true
Contents revival subs = has_default subs ≡ true
Contents team_preview subs = has_default subs ≡ true

abbrev IsFullOrder : ℕ → BattleSubmission → Type 0
IsFullOrder count s = s.kind ≡ team → same_set s.team_order (range_from 1 count) ≡ true

abbrev Orders : RequestKind → ℕ → List BattleSubmission → Type 0
Orders team_preview count subs = All (IsFullOrder count) subs
Orders _ count subs = Unit

abbrev IsNamed : Option Entry → Option String → Type 0
IsNamed active identity = (e : Entry) × (active ≡ some e) × (identity ≡ some e.1.nickname)

abbrev Named : RequestKind → SideView → Option String → Type 0
Named team_preview own_side identity = Unit
Named wait own_side identity = Unit
Named move_request own_side identity = IsNamed (find_active own_side) identity
Named forced_switch own_side identity = IsNamed (find_active own_side) identity
Named revival own_side identity = IsNamed (find_active own_side) identity

-- What the request itself has to say for it to be accepted.
pub record AgreesWithSide (request : DecisionRequest) (own_side : SideView) : Type 0 where
  pub contents : Contents request.kind request.safe_submissions.submissions
  pub kinds : All (λ s. is_allowed request.kind s.kind ≡ true) request.safe_submissions.submissions
  pub orders : Orders request.kind request.team_member_count request.safe_submissions.submissions
  pub active : Named request.kind own_side request.active_identity

check_kinds_iff :
    (kind : RequestKind) (subs : List BattleSubmission)
    → (check_kinds kind subs ≡ ok tt) ↔ All (λ s. is_allowed kind s.kind ≡ true) subs
unfolding check_kinds
check_kinds_iff kind [] = (λ h. tt, λ h. refl)
check_kinds_iff kind (s ∷ subs) = (
  λ h. (ground arith, (check_kinds_iff kind subs).0 (ground arith)),
  λ h. let rest = (check_kinds_iff kind subs).1 h.1 in ground arith,
)

check_orders_iff :
    (count : ℕ) (subs : List BattleSubmission)
    → (check_orders (range_from 1 count) subs ≡ ok tt) ↔ All (IsFullOrder count) subs
unfolding check_orders
check_orders_iff count [] = (λ h. tt, λ h. refl)
check_orders_iff count (s ∷ subs) = (
  λ h. (λ is_team. ground arith, (check_orders_iff count subs).0 (ground arith)),
  λ h. let rest = (check_orders_iff count subs).1 h.1 in ground arith,
)

check_contents_iff :
    (kind : RequestKind) (subs : List BattleSubmission)
    → (check_contents kind subs ≡ ok tt) ↔ Contents kind subs
unfolding check_contents
check_contents_iff wait [] = (λ h. refl, λ h. refl)
check_contents_iff wait (s ∷ subs) = (λ h. ground arith, λ h. ground arith)
check_contents_iff move_request subs = (λ h. ground arith, λ h. ground arith)
check_contents_iff forced_switch subs = (λ h. ground arith, λ h. ground arith)
check_contents_iff revival subs = (λ h. ground arith, λ h. ground arith)
check_contents_iff team_preview subs = (λ h. ground arith, λ h. ground arith)

check_preview_iff :
    (kind : RequestKind) (count : ℕ) (subs : List BattleSubmission)
    → (check_preview kind count subs ≡ ok tt) ↔ Orders kind count subs
unfolding check_preview
check_preview_iff team_preview count subs = check_orders_iff count subs
check_preview_iff wait count subs = (λ h. tt, λ h. refl)
check_preview_iff move_request count subs = (λ h. tt, λ h. refl)
check_preview_iff forced_switch count subs = (λ h. tt, λ h. refl)
check_preview_iff revival count subs = (λ h. tt, λ h. refl)

matches_active_iff :
    (active : Option Entry) (identity : Option String)
    → (matches_active active identity ≡ ok tt) ↔ IsNamed active identity
matches_active_iff none identity = (λ h. absurd (ground arith), λ h. absurd (ground arith))
matches_active_iff (some e) none = (λ h. absurd (ground arith), λ h. absurd (ground arith))
matches_active_iff (some e) (some name) = (λ h. (e, refl, ground arith), λ h. ground arith)

check_active_identity_iff :
    (kind : RequestKind) (own_side : SideView) (identity : Option String)
    → (check_active_identity kind own_side identity ≡ ok tt) ↔ Named kind own_side identity
unfolding check_active_identity
check_active_identity_iff team_preview own_side identity = (λ h. tt, λ h. refl)
check_active_identity_iff wait own_side identity = (λ h. tt, λ h. refl)
check_active_identity_iff move_request own_side identity =
    matches_active_iff (find_active own_side) identity
check_active_identity_iff forced_switch own_side identity =
    matches_active_iff (find_active own_side) identity
check_active_identity_iff revival own_side identity =
    matches_active_iff (find_active own_side) identity

check_request_iff :
    (request : DecisionRequest) (own_side : SideView)
    → (check_request request own_side ≡ ok tt) ↔ AgreesWithSide request own_side
unfolding check_request
check_request_iff request own_side =
    let contents = check_contents_iff request.kind request.safe_submissions.submissions in
    let kinds = check_kinds_iff request.kind request.safe_submissions.submissions in
    let orders =
      check_preview_iff request.kind request.team_member_count
        request.safe_submissions.submissions in
    let active = check_active_identity_iff request.kind own_side request.active_identity in
    (
      λ h. record {
        contents = contents.0 (ground arith);
        kinds = kinds.0 (ground arith);
        orders = orders.0 (ground arith);
        active = active.0 (ground arith);
      },
      λ agrees.
          let c = contents.1 agrees.contents in
          let k = kinds.1 agrees.kinds in
          let o = orders.1 agrees.orders in let a = active.1 agrees.active in ground arith,
    )

result_of-accept :
    (m : Check SideView) (f : SideView → Check (Unit {0})) (r : ReconciliationResult)
    → (result_of (m >>= f) ≡ ok r)
    → r.status ≡ accept
    → (own_side : SideView) × (m ≡ ok own_side) × (f own_side ≡ ok tt)
result_of-accept (err e) f r h is = absurd (ground arith)
result_of-accept (ok own_side) f r h is = (own_side, refl, ground arith)

-- A public state in which a request is accepted, of which no later one was answered.
unfoldable pub IsAccepted : String → DecisionRequest → ObservedState → Option ℕ → Type 0
IsAccepted room_id request state latest =
    (own_side : SideView) × AgreesWithState room_id request state latest own_side
    × AgreesWithSide request own_side

pub reconcile-IsAccepted :
    (room_id : String) (request : DecisionRequest) (state : ObservedState) (latest : Option ℕ)
    (r : ReconciliationResult)
    → reconcile room_id request state latest ≡ ok r
    → r.status ≡ accept
    → IsAccepted room_id request state latest
unfolding reconcile IsAccepted
reconcile-IsAccepted room_id request state latest r h is =
    let (own_side, checked, rest) =
      result_of-accept (check_state room_id request state latest) (check_request request) r h is in
    (
      own_side,
      check_state-agrees room_id request state latest own_side checked,
      (check_request_iff request own_side).0 rest,
    )

-- A request is accepted exactly if it agrees with the public state and with our side there.
pub reconcile-accept_iff :
    (room_id : String) (request : DecisionRequest) (state : ObservedState) (latest : Option ℕ)
    → (reconcile room_id request state latest ≡ ok (record { status = accept; reason = agreed }))
      ↔ IsAccepted room_id request state latest
unfolding reconcile IsAccepted
reconcile-accept_iff room_id request state latest = (
  λ h. reconcile-IsAccepted room_id request state latest _ h refl,
  λ (own_side, with_state, with_side).
      let checked = agrees-check_state room_id request state latest own_side with_state in
      let rest = (check_request_iff request own_side).1 with_side in rw (checked, rest) refl,
)
