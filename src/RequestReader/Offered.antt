-- ===== src/RequestReader/Offered.antt =====
-- request_reader.py: which submissions a normal request has.
use battle_belief.Base.{
  contains-append_left, contains-append_right, All-contains, ℕ, ◌≤◌, Bool, true, false, not, ◌||◌,
  List, [], ◌∷◌, ◌++◌, map, length, All, All-append, All-weaken, ok, err, ◌>>=◌, ◌↔◌, ◌≡◌, refl,
  sym, subst, arith, Bool-cases, inl, inr, ==→eq, ==_refl, ◌==◌, if◌then◌else◌, if_cases, if_intro,
  string_eq,
}
use battle_belief.Errors.{value_error}
use battle_belief.Failures.{core}
use battle_belief.Actions.{BattleSubmission, submission_eq, switch, kind_eq}
use battle_belief.Actions.Checks.{IsSlot}
use battle_belief.Parser.{Parsed}
use battle_belief.RequestReader.Side.{RequestPokemon}
use battle_belief.RequestReader.Active.{ActiveRequest}
use battle_belief.RequestReader.Reader.{
  can_switch, slot_submissions, move_submissions, active_submissions,
}
use battle_belief.RequestReader.Submissions.{
  default_arguments, default_submission, slot_arguments, candidates,
}
use battle_belief.RequestReader.Safe.{default_submission-ok}
use battle_belief.RequestReader.Offers.{candidates-AreSlots, switches, slot_submissions-ok}
use battle_belief.RequestReader.Choices.{
  Among, OfMove, of_moves, have_ids, move_submissions-if, of_moves-All, of_moves-Among,
}
use battle_belief.RequestReader.Bench.{OfBench, IsStanding, can_switch-Decides, OfSlot-OfBench}
use battle_belief.RequestReader.Slots.{OfSlot, of_members, of_members-All, of_members-Among}

-- What a normal request offers.
abbrev pub is_restricted : ActiveRequest → Bool
is_restricted request = request.maybe_disabled || request.maybe_locked

abbrev pub is_trapped : ActiveRequest → Bool
is_trapped request = request.trapped || request.maybe_trapped

abbrev pub can_tera : ActiveRequest → Bool
can_tera request = not (request.can_terastallize == "")

pub data IsChoice (request : ActiveRequest) (members : List RequestPokemon) (s : BattleSubmission)
    : Type 0 where
  by_default : s ≡ default_arguments → IsChoice request members s
  by_move :
      is_restricted request ≡ false
      → OfMove (can_tera request) 1 request.moves s
      → IsChoice request members s
  by_switch :
      is_restricted request ≡ false
      → is_trapped request ≡ false
      → OfBench switch IsStanding members s
      → IsChoice request members s

module _ (request : ActiveRequest) (members : List RequestPokemon) where
  abbrev slots : List ℕ
  slots = if is_trapped request then [] else candidates can_switch 1 members

  abbrev free_choices : List BattleSubmission
  free_choices =
      (of_moves (can_tera request) 1 request.moves ++ map (slot_arguments switch) slots)
      ++ default_arguments ∷ []

  slots-All :
      is_restricted request ≡ false
      → All (IsChoice request members) (map (slot_arguments switch) slots)
  slots-All free =
      if_cases (λ ns. All (IsChoice request members) (map (slot_arguments switch) ns))
        (is_trapped request) (λ _. tt)
        (λ untrapped.
          All-weaken (OfSlot switch can_switch 1 members) _
            (λ s of.
              by_switch free untrapped
                ((OfSlot-OfBench switch can_switch IsStanding can_switch-Decides members s).0 of))
            _ (of_members-All switch can_switch 1 members))

  free-All : is_restricted request ≡ false → All (IsChoice request members) free_choices
  free-All free =
      All-append _ _ _
        (All-append _ _ _
          (All-weaken (OfMove (can_tera request) 1 request.moves) _ (λ s of. by_move free of) _
            (of_moves-All (can_tera request) 1 request.moves))
          (slots-All free))
        (by_default refl, tt)

  free-Among : (s : BattleSubmission) → IsChoice request members s → Among free_choices s
  free-Among s (by_default same) =
      contains-append_right
        (of_moves (can_tera request) 1 request.moves ++ map (slot_arguments switch) slots) _ s
        (rw same (ground (arith, ==_refl default_arguments)))
  free-Among s (by_move free of) = contains-append_left _ _ s (
      contains-append_left _ _ s (
        subst (Among (of_moves (can_tera request) 1 request.moves)) (sym of.same) (
          of_moves-Among (can_tera request) of.tera 1 of.index request.moves of.chosen of.found
            of.enabled of.possible)))
  free-Among s (by_switch free untrapped of) = contains-append_left _ _ s (
      contains-append_right (of_moves (can_tera request) 1 request.moves) _ s (
        rw untrapped (
          subst (Among (of_members switch can_switch 1 members)) (sym of.same) (
            of_members-Among switch can_switch 1 of.index members of.chosen of.found
              ((can_switch-Decides of.chosen).1 (of.benched, of.condition))))))

abbrev pub AreChoices : ActiveRequest → List RequestPokemon → List BattleSubmission → Type 0
AreChoices request members subs = (s : BattleSubmission) → Among subs s ↔ IsChoice request members s

-- What the submissions are, or the error, if one of them refuses an id.
abbrev pub AreOffers :
    ActiveRequest → List RequestPokemon → Bool → Parsed (List BattleSubmission) → Type 0
AreOffers request members true r =
    (subs : List BattleSubmission) × (r ≡ ok subs) × AreChoices request members subs
AreOffers request members false r = r ≡ err (core value_error)

free-AreChoices :
    (request : ActiveRequest) (members : List RequestPokemon)
    → is_restricted request ≡ false
    → AreChoices request members (free_choices request members)
free-AreChoices request members free s = (
  λ among.
      All-contains (IsChoice request members) (free_choices request members) s among
        (free-All request members free),
  free-Among request members s,
)

restricted-AreChoices :
    (request : ActiveRequest) (members : List RequestPokemon)
    → is_restricted request ≡ true
    → AreChoices request members (default_arguments ∷ [])
restricted-AreChoices request members restricted s =
    (λ among. by_default (==→eq s default_arguments (ground arith)), only_default s)
  where
    only_default :
        (t : BattleSubmission) → IsChoice request members t → Among (default_arguments ∷ []) t
    only_default t (by_default same) = rw same (ground (arith, ==_refl default_arguments))
    only_default t (by_move free of) = cc
    only_default t (by_switch free untrapped of) = cc

module _ (request : ActiveRequest) (members : List RequestPokemon)
    (few_moves : length request.moves ≤ 4) (small_team : length members ≤ 6) where
  slots-ok :
      slot_submissions switch (slots request members)
      ≡ ok (map (slot_arguments switch) (slots request members))
  slots-ok = slot_submissions-ok switch (slots request members) switches (
      if_intro (All (IsSlot 6)) (is_trapped request) tt
        (candidates-AreSlots can_switch 1 members (omega arith) (omega (arith, small_team))))

  free-AreOffers :
      is_restricted request ≡ false
      → AreOffers request members (have_ids request.moves) (do
        moves ← move_submissions (can_tera request) 1 request.moves
        others ← slot_submissions switch (slots request members)
        fallback ← default_submission
        ok ((moves ++ others) ++ fallback ∷ []))
  free-AreOffers free =
      rw
        (
          move_submissions-if (can_tera request) 1 request.moves (omega arith)
              (omega (arith, few_moves)),
          slots-ok,
          default_submission-ok,
        )
        (by_ids (have_ids request.moves))
    where
      by_ids :
          (b : Bool)
          → AreOffers request members b (
              (if b
                then ok (of_moves (can_tera request) 1 request.moves)
                else err (core value_error))
              >>= λ moves. ok (
                  (moves ++ map (slot_arguments switch) (slots request members))
                  ++ default_arguments ∷ []))
      by_ids true = (free_choices request members, refl, free-AreChoices request members free)
      by_ids false = refl

  -- A normal request of at most four moves and six members is offered submissions, unless a
  -- submission refuses the id of one of its moves. They are the default; unless its moves may be
  -- disabled or locked, every move that is not disabled, and terastallizing with it exactly if that
  -- is possible, and, unless the pokemon is or may be trapped, a switch to every member that is on
  -- the bench and has not fainted; and nothing else. A refused id, of a move that is not disabled of
  -- a request whose moves are not disabled or locked, raises the error of the constructor.
  pub active_submissions-AreOffers :
      AreOffers request members
        (is_restricted request || have_ids request.moves)
        (active_submissions request members)
  unfolding active_submissions
  active_submissions-AreOffers = elim (Bool-cases (is_restricted request)) [
    | inl restricted ↦
        rw (restricted, default_submission-ok)
          (default_arguments ∷ [], refl, restricted-AreChoices request members restricted)
    | inr free ↦ rw free (free-AreOffers free)
  ]
