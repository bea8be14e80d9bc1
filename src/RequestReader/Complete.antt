-- ===== src/RequestReader/Complete.antt =====
-- request_reader.py: the readers of forced switches, revivals and team previews, whole.
use battle_belief.Base.{
  sym, subst, Option, some, String, ==_refl, leb_ℤ, ◌≤ℤ◌, ◌<ℤ◌, not_both, ℕ, ℤ, pos, ◌≤◌, Bool,
  false, none, List, [], ◌∷◌, ◌++◌, map, length, All, All-append, All-map, contains-append_left,
  contains_last, contains-map, All-contains, ok, err, ◌>>=◌, ◌>>◌, guard, ==→eq, eq→==, ◌==◌,
  nat_eq, list_eq, string_eq, Bool-cases, ◌↔◌, inl, inr, ◌≡◌, ◌≢◌, refl, arith,
}
use battle_belief.Base.Int.{int_eq}
use battle_belief.Failures.{request_state_reconciliation_mismatch, malformed_protocol_message}
use battle_belief.Actions.{
  ActionKind, switch, revive, BattleSubmission, RequestKind, forced_switch, revival, team_preview,
  DecisionRequest, submission_eq,
}
use battle_belief.Parser.{Parsed}
use battle_belief.RequestReader.JsonValues.{
  Json, null, bool, int, float, text, array, object, Fields, find_key, map_parsed,
}
use battle_belief.RequestReader.Side.{RequestPokemon}
use battle_belief.RequestReader.Reader.{
  Head, request_of, max_chosen_of, read_team_preview, can_revive, can_switch, slot_submissions,
  read_revival, read_forced_switch,
}
use battle_belief.RequestReader.Submissions.{
  slot_arguments, default_arguments, team_arguments, default_submission, construct, candidates,
}
use battle_belief.RequestReader.Orders.{IsTeamOrder, permutations-AreTeamOrders}
use battle_belief.RequestReader.AllOrders.{permutations-IsTeamOrder}
use battle_belief.RequestReader.TeamOrders.{team_orders, team_orders-ok}
use battle_belief.RequestReader.Safe.{default_submission-ok}
use battle_belief.RequestReader.Offers.{
  candidates-AreSlots, TakesSlot, switches, revives, slot_submissions-ok,
}
use battle_belief.RequestReader.Choices.{Among}
use battle_belief.RequestReader.Slots.{with_default-AreSlotChoices}
use battle_belief.RequestReader.Bench.{
  IsBenchChoice, IsStanding, IsFainted, Decides, can_switch-Decides, can_revive-Decides,
  IsSlotChoice-IsBenchChoice,
}

-- A request with the default and one submission for each member on the bench whose condition is as
-- required, and no other.
abbrev pub IsBenchRequest :
    Head → RequestKind → ActionKind → (String → Type 0) → Parsed DecisionRequest → Type 0
IsBenchRequest head request kind required r =
    (subs : List BattleSubmission) × (r
      ≡ ok (request_of head request head.active_identity head.update subs))
    × ((s : BattleSubmission) → Among subs s ↔ IsBenchChoice kind required head.members s)

module _ (head : Head) (small : length head.members ≤ 6) where
  bench-IsBenchRequest :
      (request : RequestKind) (kind : ActionKind) (keep : RequestPokemon → Bool)
      (required : String → Type 0)
      → Decides keep required
      → TakesSlot kind
      → IsBenchRequest head request kind required (do
        subs ← slot_submissions kind (candidates keep 1 head.members)
        fallback ← default_submission
        ok (request_of head request head.active_identity head.update (subs ++ fallback ∷ [])))
  bench-IsBenchRequest request kind keep required decides takes =
      rw
        (
          slot_submissions-ok kind (candidates keep 1 head.members) takes
              (candidates-AreSlots keep 1 head.members (omega arith) (omega (arith, small))),
          default_submission-ok,
        )
        (_, refl, choices)
    where
      choices :
          (s : BattleSubmission)
          → Among
              (map (slot_arguments kind) (candidates keep 1 head.members) ++ default_arguments ∷ [])
              s
            ↔ IsBenchChoice kind required head.members s
      choices s =
          let offered = with_default-AreSlotChoices kind keep head.members s in
          let spelled = IsSlotChoice-IsBenchChoice kind keep required decides head.members s in
          (λ among. spelled.0 (offered.0 among), λ choice. offered.1 (spelled.1 choice))

  -- For a team of at most six, a forced switch is read and offers exactly the default and a switch
  -- to each member that is not active and has not fainted; a revival is read and offers exactly the
  -- default and a revival of each member that is not active and has fainted. A member has fainted if
  -- its condition ends in ` fnt` or is `0 fnt`, spaces aside.
  pub read_forced_switch-IsBenchRequest :
      IsBenchRequest head forced_switch switch IsStanding (read_forced_switch head)
      × IsBenchRequest head revival revive IsFainted (read_revival head)
  unfolding read_forced_switch read_revival
  read_forced_switch-IsBenchRequest = (
    bench-IsBenchRequest forced_switch switch can_switch IsStanding can_switch-Decides switches,
    bench-IsBenchRequest revival revive can_revive IsFainted can_revive-Decides revives,
  )

-- The default, or an order of a team of this size.
pub data IsPreviewChoice (count : ℕ) (s : BattleSubmission) : Type 0 where
  by_default : s ≡ default_arguments → IsPreviewChoice count s
  by_order :
      (order : List ℕ)
      → IsTeamOrder count order
      → s ≡ team_arguments order
      → IsPreviewChoice count s

-- A team preview that is read, with exactly these submissions.
abbrev pub OffersOrders : Head → Parsed DecisionRequest → Type 0
OffersOrders head r =
    (subs : List BattleSubmission) × (r ≡ ok (request_of head team_preview none false subs))
    × ((s : BattleSubmission) → Among subs s ↔ IsPreviewChoice (length head.members) s)

-- What is read of a team preview, by the value of `maxChosenTeamSize`, if the payload has it.
pub data IsPreview (head : Head) : Option Json → Parsed DecisionRequest → Type 0 where
  unlimited : (r : Parsed DecisionRequest) → OffersOrders head r → IsPreview head none r
  whole :
      (n : ℤ) (r : Parsed DecisionRequest)
      → n ≡ pos (length head.members)
      → OffersOrders head r
      → IsPreview head (some (int n)) r
  partial :
      (n : ℤ)
      → pos 1 ≤ℤ n
      → n ≢ pos (length head.members)
      → IsPreview head (some (int n)) (err request_state_reconciliation_mismatch)
  not_positive :
      (n : ℤ) → n <ℤ pos 1 → IsPreview head (some (int n)) (err malformed_protocol_message)
  no_integer :
      (value : Json)
      → ((n : ℤ) → value ≢ int n)
      → IsPreview head (some value) (err malformed_protocol_message)

module _ (head : Head) (payload : Fields) (some_member : 1 ≤ length head.members)
    (small : length head.members ≤ 6) where
  abbrev count : ℕ
  count = length head.members

  abbrev orders : List (List ℕ)
  orders = team_orders count some_member small

  abbrev offers : List BattleSubmission
  offers = map team_arguments orders ++ default_arguments ∷ []

  orders-All : All (IsPreviewChoice count) (map team_arguments orders)
  orders-All =
      All-map (IsTeamOrder count) (IsPreviewChoice count) team_arguments
        (λ order h. by_order order h refl) orders (permutations-AreTeamOrders count small)

  offers-IsPreviewChoice : (s : BattleSubmission) → Among offers s ↔ IsPreviewChoice count s
  offers-IsPreviewChoice s = (
    λ among.
        All-contains (IsPreviewChoice count) offers s among
          (All-append _ (map team_arguments orders) _ orders-All (by_default refl, tt)),
    offered,
  )
    where
      offered : IsPreviewChoice count s → Among offers s
      offered (by_default same) =
          rw same (contains_last (map team_arguments orders) default_arguments)
      offered (by_order order h same) = contains-append_left (map team_arguments orders) _ s (
          rw same (
            contains-map team_arguments orders order
              ((permutations-IsTeamOrder count order small).1 h)))

  -- the reader, from the number on
  abbrev chosen_preview : Parsed ℤ → Parsed DecisionRequest
  chosen_preview chosen = do
    max_chosen ← chosen
    guard (max_chosen == pos count) request_state_reconciliation_mismatch
    made ← map_parsed (λ order. construct (team_arguments order)) orders
    fallback ← default_submission
    ok (request_of head team_preview none false (made ++ fallback ∷ []))

  whole-OffersOrders : OffersOrders head (chosen_preview (ok (pos count)))
  whole-OffersOrders = (
    offers,
    rw (==_refl (pos count), team_orders-ok count some_member small, default_submission-ok) refl,
    offers-IsPreviewChoice,
  )

  integer-IsPreview :
      (n : ℤ) → IsPreview head (some (int n)) (chosen_preview (max_chosen_of count (some (int n))))
  unfolding max_chosen_of
  integer-IsPreview n = elim (Bool-cases (leb_ℤ (pos 1) n)) [
    | inr low ↦ rw low (not_positive n (ground (arith, low)))
    | inl high ↦ elim (Bool-cases (n == pos count)) [
      | inl same ↦
          let e = ==→eq n (pos count) same in
          rw high (
            whole n (chosen_preview (ok n)) e
              (subst (λ m. OffersOrders head (chosen_preview (ok m))) (sym e) whole-OffersOrders))
      | inr other ↦
          rw (high, other)
            (partial n (ground (arith, high)) (λ e. not_both (eq→== n (pos count) e) other))
    ]
  ]

  by_chosen :
      (value : Option Json) → IsPreview head value (chosen_preview (max_chosen_of count value))
  unfolding max_chosen_of
  by_chosen none = unlimited _ whole-OffersOrders
  by_chosen (some (int n)) = integer-IsPreview n
  by_chosen (some null) = no_integer null (λ n e. cc)
  by_chosen (some (bool b)) = no_integer (bool b) (λ n e. cc)
  by_chosen (some (float t)) = no_integer (float t) (λ n e. cc)
  by_chosen (some (text t)) = no_integer (text t) (λ n e. cc)
  by_chosen (some (array items)) = no_integer (array items) (λ n e. cc)
  by_chosen (some (object fields)) = no_integer (object fields) (λ n e. cc)

  -- For a team of one to six, a team preview whose `maxChosenTeamSize` is missing, or is the size of
  -- the team, is read and offers exactly the default and every order of the whole team; one with
  -- another positive integer there is refused, and with anything else it is malformed.
  pub read_team_preview-IsPreview :
      IsPreview head (find_key payload "maxChosenTeamSize") (read_team_preview head payload)
  unfolding read_team_preview
  read_team_preview-IsPreview = by_chosen (find_key payload "maxChosenTeamSize")
