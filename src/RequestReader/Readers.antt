-- ===== src/RequestReader/Readers.antt =====
-- request_reader.py: the readers of the five kinds of request.
use battle_belief.Base.{
  ℕ, ◌≤◌, String, Bool, true, false, not, ◌||◌, Option, none, List, [], ◌∷◌, ◌++◌, map, length, All,
  All-append, All-map, ok, ◌>>=◌, guard, Ensures, Ensures-bind, Ensures-ok, ◌==◌, nat_eq, string_eq,
  ◌⊎◌, ◌≡◌, refl, arith, if◌then◌else◌, if_intro,
}
use battle_belief.Base.Int.{int_eq}
use battle_belief.Failures.{request_state_reconciliation_mismatch}
use battle_belief.Actions.{
  ActionKind, switch, revive, BattleSubmission, RequestKind, move_request, forced_switch, revival,
  team_preview, wait, DecisionRequest, kind_eq,
}
use battle_belief.Reconciler.{is_allowed, check_contents, check_kinds, check_preview}
use battle_belief.RequestReader.JsonValues.{Fields, find_key, map_parsed}
use battle_belief.RequestReader.Side.{RequestPokemon}
use battle_belief.RequestReader.Active.{RequestMove, ActiveRequest, parse_active_request}
use battle_belief.RequestReader.Reader.{
  Head, request_of, max_chosen_of, read_team_preview, can_revive, can_switch, slot_submissions,
  read_revival, read_forced_switch, move_submissions, active_submissions, read_normal_move,
  is_reviving, is_forced, read_kind,
}
use battle_belief.RequestReader.Submissions.{
  construct, default_arguments, slot_arguments, team_arguments, default_submission, candidates,
}
use battle_belief.RequestReader.Orders.{IsTeamOrder, permutations-AreTeamOrders}
use battle_belief.RequestReader.TeamOrders.{team_order-IsOffered, team_orders, team_orders-ok}
use battle_belief.RequestReader.Safe.{
  default_submission-ok, IsOffered, AreOffered, with_default-AreOffered,
}
use battle_belief.RequestReader.Offers.{
  candidates-AreSlots, TakesSlot, switches, revives, slot_submissions-ok, slot_arguments-AreOffered,
  Offers, move_submissions-Offers,
}

-- What a request takes from its payload, in order.
pub record IsHead (room_id : String) (head : Head) : Type 0 where
  pub room : head.identity.room_id ≡ room_id
  pub side : (head.side_id ≡ "p1") ⊎ (head.side_id ≡ "p2")
  pub size : (1 ≤ length head.members) × (length head.members ≤ 6)

-- A request as the reader returns it.
pub record IsReadRequest (room_id : String) (request : DecisionRequest) : Type 0 where
  pub room : request.identity.room_id ≡ room_id
  pub identity : request.safe_submissions.request_identity ≡ request.identity
  pub side : (request.side_id ≡ "p1") ⊎ (request.side_id ≡ "p2")
  pub size : (1 ≤ request.team_member_count) × (request.team_member_count ≤ 6)
  pub submissions :
      AreOffered request.kind request.team_member_count request.safe_submissions.submissions

module _ (room_id : String) (head : Head) (valid : IsHead room_id head) where
  request_of-IsReadRequest :
      (kind : RequestKind) (active_identity : Option String) (is_update : Bool)
      (subs : List BattleSubmission)
      → AreOffered kind (length head.members) subs
      → IsReadRequest room_id (request_of head kind active_identity is_update subs)
  request_of-IsReadRequest kind active_identity is_update subs offered = record {
    room = valid.room;
    identity = refl;
    side = valid.side;
    size = valid.size;
    submissions = offered;
  }

  slots-AreOffered :
      (request : RequestKind) (kind : ActionKind) (keep : RequestPokemon → Bool)
      → TakesSlot kind
      → is_allowed request kind ≡ true
      → All
          (IsOffered request (length head.members))
          (map (slot_arguments kind) (candidates keep 1 head.members))
  slots-AreOffered request kind keep takes allowed =
      slot_arguments-AreOffered request (length head.members) kind (candidates keep 1 head.members)
        takes allowed
        (candidates-AreSlots keep 1 head.members (omega arith) (omega (arith, valid.size.1)))

  candidates-ok :
      (kind : ActionKind) (keep : RequestPokemon → Bool)
      → TakesSlot kind
      → slot_submissions kind (candidates keep 1 head.members)
        ≡ ok (map (slot_arguments kind) (candidates keep 1 head.members))
  candidates-ok kind keep takes =
      slot_submissions-ok kind (candidates keep 1 head.members) takes
        (candidates-AreSlots keep 1 head.members (omega arith) (omega (arith, valid.size.1)))

  read_revival-IsReadRequest : Ensures (IsReadRequest room_id) (read_revival head)
  unfolding read_revival is_allowed
  read_revival-IsReadRequest =
      rw (candidates-ok revive can_revive revives, default_submission-ok)
        (request_of-IsReadRequest revival head.active_identity head.update _ (
          with_default-AreOffered revival _ _ refl
            (slots-AreOffered revival revive can_revive revives refl)))

  read_forced_switch-IsReadRequest : Ensures (IsReadRequest room_id) (read_forced_switch head)
  unfolding read_forced_switch is_allowed
  read_forced_switch-IsReadRequest =
      rw (candidates-ok switch can_switch switches, default_submission-ok)
        (request_of-IsReadRequest forced_switch head.active_identity head.update _ (
          with_default-AreOffered forced_switch _ _ refl
            (slots-AreOffered forced_switch switch can_switch switches refl)))

  abbrev size : ℕ
  size = length head.members

  abbrev orders : List (List ℕ)
  orders = team_orders size valid.size.0 valid.size.1

  preview-IsReadRequest : IsReadRequest room_id (
      request_of head team_preview none false (map team_arguments orders ++ default_arguments ∷ []))
  preview-IsReadRequest = request_of-IsReadRequest team_preview none false _ (
      with_default-AreOffered team_preview _ _ refl (
        All-map (IsTeamOrder size) (IsOffered team_preview size) team_arguments
          (team_order-IsOffered size valid.size.0 valid.size.1) orders
          (permutations-AreTeamOrders size valid.size.1)))

  offered_orders-IsReadRequest : Ensures (IsReadRequest room_id) (do
    made ← map_parsed (λ order. construct (team_arguments order)) orders
    fallback ← default_submission
    ok (request_of head team_preview none false (made ++ fallback ∷ [])))
  offered_orders-IsReadRequest =
      rw (team_orders-ok size valid.size.0 valid.size.1, default_submission-ok)
        preview-IsReadRequest

  read_team_preview-IsReadRequest :
      (payload : Fields) → Ensures (IsReadRequest room_id) (read_team_preview head payload)
  unfolding read_team_preview
  read_team_preview-IsReadRequest payload =
      Ensures-bind (IsReadRequest room_id)
        (max_chosen_of (length head.members) (find_key payload "maxChosenTeamSize")) _
        λ max_chosen _.
          Ensures-bind (IsReadRequest room_id) (guard _ request_state_reconciliation_mismatch) _
            λ _ _. offered_orders-IsReadRequest

  abbrev switches_unless : Bool → List ℕ
  switches_unless trapped = if trapped then [] else candidates can_switch 1 head.members

  switches_unless-ok :
      (trapped : Bool)
      → slot_submissions switch (switches_unless trapped)
        ≡ ok (map (slot_arguments switch) (switches_unless trapped))
  switches_unless-ok true = slot_submissions-ok switch [] switches tt
  switches_unless-ok false = candidates-ok switch can_switch switches

  switches_unless-AreOffered :
      (trapped : Bool)
      → All
          (IsOffered move_request (length head.members))
          (map (slot_arguments switch) (switches_unless trapped))
  unfolding is_allowed
  switches_unless-AreOffered true = tt
  switches_unless-AreOffered false = slots-AreOffered move_request switch can_switch switches refl

  moves-AreOffered :
      (can_tera trapped : Bool) (moves : List RequestMove)
      → Ensures (AreOffered move_request (length head.members)) (do
        made ← move_submissions can_tera 1 moves
        others ← slot_submissions switch (switches_unless trapped)
        fallback ← default_submission
        ok ((made ++ others) ++ fallback ∷ []))
  moves-AreOffered can_tera trapped moves =
      Ensures-bind (AreOffered move_request (length head.members))
        (move_submissions can_tera 1 moves) _
        λ made e.
          rw (switches_unless-ok trapped, default_submission-ok)
            (with_default-AreOffered move_request (length head.members) _ refl (
              All-append _ made _
                (Ensures-ok (Offers (length head.members)) (move_submissions can_tera 1 moves) made
                  e (move_submissions-Offers (length head.members) can_tera 1 moves))
                (switches_unless-AreOffered trapped)))

  active_submissions-AreOffered :
      (request : ActiveRequest)
      → Ensures
          (AreOffered move_request (length head.members))
          (active_submissions request head.members)
  unfolding active_submissions
  active_submissions-AreOffered request =
      if_intro (Ensures (AreOffered move_request (length head.members)))
        (request.maybe_disabled || request.maybe_locked)
        (rw default_submission-ok
          (with_default-AreOffered move_request (length head.members) [] refl tt))
        (moves-AreOffered (not (request.can_terastallize == ""))
          (request.trapped || request.maybe_trapped) request.moves)

  read_normal_move-IsReadRequest :
      (payload : Fields) → Ensures (IsReadRequest room_id) (read_normal_move head payload)
  unfolding read_normal_move
  read_normal_move-IsReadRequest payload =
      Ensures-bind (IsReadRequest room_id) (parse_active_request payload) _ λ request _.
        Ensures-bind (IsReadRequest room_id) (active_submissions request head.members) _ λ subs e.
          request_of-IsReadRequest move_request head.active_identity head.update subs (
            Ensures-ok _ (active_submissions request head.members) subs e
              (active_submissions-AreOffered request))

  wait-IsReadRequest : IsReadRequest room_id (request_of head wait none false [])
  unfolding check_contents check_kinds check_preview
  wait-IsReadRequest =
      request_of-IsReadRequest wait none false []
        (record { well_formed = tt; contents = refl; kinds = refl; orders = refl })

  pub read_kind-IsReadRequest :
      (is_wait preview : Bool) (active_pv : Option RequestPokemon) (force_switch : Option Bool)
      (payload : Fields)
      → Ensures
          (IsReadRequest room_id)
          (read_kind is_wait preview active_pv force_switch head payload)
  unfolding read_kind
  read_kind-IsReadRequest is_wait preview active_pv force_switch payload =
      let P = IsReadRequest room_id in
      if_intro (Ensures P) is_wait wait-IsReadRequest (
        if_intro (Ensures P) preview (read_team_preview-IsReadRequest payload) (
          if_intro (Ensures P) (is_reviving active_pv) read_revival-IsReadRequest (
            if_intro (Ensures P) (is_forced force_switch) read_forced_switch-IsReadRequest
              (read_normal_move-IsReadRequest payload))))
