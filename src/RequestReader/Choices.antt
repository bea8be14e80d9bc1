-- ===== src/RequestReader/Choices.antt =====
-- request_reader.py: what a normal request offers.
use battle_belief.Base.{
  ℕ, zero, suc, ◌+◌, ◌≤◌, String, Bool, true, false, not, ◌||◌, ◌&&◌, some, List, [], ◌∷◌, ◌++◌,
  get_elem?, length, contains-append_left, contains-append_right, All, All-append, All-weaken, ok,
  err, ◌>>=◌, inl, inr, ◌≡◌, refl, ap, subst, ◌∙◌, arith, contains, ==_refl, Bool-cases,
  if◌then◌else◌, if_cases, string_eq,
}
use battle_belief.Errors.{value_error}
use battle_belief.Failures.{Failure, core}
use battle_belief.Actions.{BattleSubmission, submission_eq, kind_eq, is_move_id, make_submission}
use battle_belief.Actions.Checks.{IsSlot, a_move}
use battle_belief.RequestReader.Active.{RequestMove}
use battle_belief.RequestReader.Reader.{tera_choices, move_choices, move_submissions}
use battle_belief.RequestReader.Submissions.{construct, move_arguments}
use battle_belief.RequestReader.Safe.{IsWellFormed-construct}

abbrev pub Among : List BattleSubmission → BattleSubmission → Type 0
Among subs s = contains subs s ≡ true

-- A submission of a move from a slot on that is not disabled; it terastallizes only if that is possible.
pub record OfMove (can_tera : Bool) (slot : ℕ) (moves : List RequestMove) (s : BattleSubmission)
    : Type 0 where
  pub index : ℕ
  pub chosen : RequestMove
  pub tera : Bool
  pub found : get_elem? moves index ≡ some chosen
  pub enabled : chosen.disabled ≡ false
  pub possible : (not tera || can_tera) ≡ true
  pub same : s ≡ move_arguments (slot + index) chosen.move_id tera

-- the submissions of a move, when they can be constructed
abbrev of_move : Bool → ℕ → String → List BattleSubmission
of_move can_tera slot move_id =
    move_arguments slot move_id false
    ∷ (if can_tera then move_arguments slot move_id true ∷ [] else [])

abbrev pub of_moves : Bool → ℕ → List RequestMove → List BattleSubmission
of_moves can_tera slot [] = []
of_moves can_tera slot (m ∷ ms) =
    (if m.disabled then [] else of_move can_tera slot m.move_id) ++ of_moves can_tera (suc slot) ms

-- whether each move that is not disabled has an id that a submission takes
abbrev pub have_ids : List RequestMove → Bool
have_ids [] = true
have_ids (m ∷ ms) = (m.disabled || is_move_id m.move_id) && have_ids ms

construct_valid :
    (slot : ℕ) (move_id : String) (tera : Bool)
    → IsSlot 4 slot
    → is_move_id move_id ≡ true
    → construct (move_arguments slot move_id tera) ≡ ok (move_arguments slot move_id tera)
construct_valid slot move_id tera h valid =
    IsWellFormed-construct (move_arguments slot move_id tera)
      (a_move slot move_id tera h valid refl)

construct_invalid :
    (slot : ℕ) (move_id : String) (tera : Bool)
    → is_move_id move_id ≡ false
    → construct (move_arguments slot move_id tera) ≡ err (core value_error)
unfolding construct make_submission
construct_invalid slot move_id tera invalid = rw invalid refl

move_choices-if :
    (can_tera : Bool) (slot : ℕ) (move_id : String)
    → IsSlot 4 slot
    → move_choices can_tera slot move_id
      ≡ (if is_move_id move_id then ok (of_move can_tera slot move_id) else err (core value_error))
unfolding move_choices tera_choices
move_choices-if can_tera slot move_id h = elim (Bool-cases (is_move_id move_id)) [
  | inl valid ↦ rw (valid, construct_valid slot move_id false h valid) (tera can_tera valid)
  | inr invalid ↦ rw (invalid, construct_invalid slot move_id false invalid) refl
]
  where
    tera :
        (can_tera : Bool)
        → is_move_id move_id ≡ true
        → (tera_choices can_tera slot move_id >>= λ more.
            ok (move_arguments slot move_id false ∷ more))
          ≡ ok (of_move can_tera slot move_id)
    tera false valid = refl
    tera true valid = rw (construct_valid slot move_id true h valid) refl

-- the submissions of the later moves behind those of one
behind_choices :
    (choices rest : List BattleSubmission) (b : Bool) (e : Failure)
    → ((if b then ok rest else err e) >>= λ subs. ok (choices ++ subs))
      ≡ (if b then ok (choices ++ rest) else err e)
behind_choices choices rest true e = refl
behind_choices choices rest false e = refl

-- The loop over the moves returns their submissions, unless a submission refuses an id.
pub move_submissions-if :
    (can_tera : Bool) (slot : ℕ) (moves : List RequestMove)
    → 1 ≤ slot
    → slot + length moves ≤ 5
    → move_submissions can_tera slot moves
      ≡ (if have_ids moves then ok (of_moves can_tera slot moves) else err (core value_error))
unfolding move_submissions
move_submissions-if can_tera slot [] low high = refl
move_submissions-if can_tera slot (m ∷ ms) low high =
    let later = move_submissions-if can_tera (suc slot) ms (omega arith) (omega arith) in
    elim (Bool-cases m.disabled) [
      | inl off ↦ rw (off, later) (behind_choices [] _ (have_ids ms) _)
      | inr on ↦ elim (Bool-cases (is_move_id m.move_id)) [
        | inl valid ↦
            rw (on, move_choices-if can_tera slot m.move_id (low, omega arith), valid, later)
              (behind_choices (of_move can_tera slot m.move_id) _ (have_ids ms) _)
        | inr invalid ↦
            rw (on, move_choices-if can_tera slot m.move_id (low, omega arith), invalid) refl
      ]
    ]

-- what is said of the later moves, said of all
later_move :
    (can_tera : Bool) (slot : ℕ) (m : RequestMove) (ms : List RequestMove) (s : BattleSubmission)
    → OfMove can_tera (suc slot) ms s
    → OfMove can_tera slot (m ∷ ms) s
later_move can_tera slot m ms s h = record {
  index = suc h.index;
  chosen = h.chosen;
  tera = h.tera;
  found = h.found;
  enabled = h.enabled;
  possible = h.possible;
  same = h.same ∙ ap (λ n. move_arguments n h.chosen.move_id h.tera) (omega arith);
}

first_move :
    (can_tera tera : Bool) (slot : ℕ) (m : RequestMove) (ms : List RequestMove)
    → m.disabled ≡ false
    → (not tera || can_tera) ≡ true
    → OfMove can_tera slot (m ∷ ms) (move_arguments slot m.move_id tera)
first_move can_tera tera slot m ms on possible = record {
  index = 0;
  chosen = m;
  tera = tera;
  found = refl;
  enabled = on;
  possible = possible;
  same = ap (λ n. move_arguments n m.move_id tera) (omega arith);
}

of_move-All :
    (can_tera : Bool) (slot : ℕ) (m : RequestMove) (ms : List RequestMove)
    → m.disabled ≡ false
    → All (OfMove can_tera slot (m ∷ ms)) (of_move can_tera slot m.move_id)
of_move-All true slot m ms on =
    (first_move true false slot m ms on refl, (first_move true true slot m ms on refl, tt))
of_move-All false slot m ms on = (first_move false false slot m ms on refl, tt)

unless_disabled-All :
    (can_tera : Bool) (slot : ℕ) (m : RequestMove) (ms : List RequestMove)
    → All
        (OfMove can_tera slot (m ∷ ms))
        (if m.disabled then [] else of_move can_tera slot m.move_id)
unless_disabled-All can_tera slot m ms =
    if_cases (All (OfMove can_tera slot (m ∷ ms))) m.disabled (λ off. tt)
      (λ on. of_move-All can_tera slot m ms on)

pub of_moves-All :
    (can_tera : Bool) (slot : ℕ) (moves : List RequestMove)
    → All (OfMove can_tera slot moves) (of_moves can_tera slot moves)
of_moves-All can_tera slot [] = tt
of_moves-All can_tera slot (m ∷ ms) =
    All-append _ _ _ (unless_disabled-All can_tera slot m ms)
      (All-weaken _ _ (later_move can_tera slot m ms) _ (of_moves-All can_tera (suc slot) ms))

of_move-Among :
    (can_tera tera : Bool) (slot : ℕ) (move_id : String)
    → (not tera || can_tera) ≡ true
    → Among (of_move can_tera slot move_id) (move_arguments slot move_id tera)
of_move-Among can_tera false slot move_id h =
    ground (arith, ==_refl (move_arguments slot move_id false))
of_move-Among true true slot move_id h = ground (arith, ==_refl (move_arguments slot move_id true))
of_move-Among false true slot move_id h = cc

pub of_moves-Among :
    (can_tera tera : Bool) (slot index : ℕ) (moves : List RequestMove) (chosen : RequestMove)
    → get_elem? moves index ≡ some chosen
    → chosen.disabled ≡ false
    → (not tera || can_tera) ≡ true
    → Among (of_moves can_tera slot moves) (move_arguments (slot + index) chosen.move_id tera)
of_moves-Among can_tera tera slot index [] chosen found on possible = cc
of_moves-Among can_tera tera slot zero (m ∷ ms) chosen found on possible =
    let same : m ≡ chosen = cc found in
    let here : m.disabled ≡ false = rw same on in
    subst (λ n. Among (of_moves can_tera slot (m ∷ ms)) (move_arguments n chosen.move_id tera))
      (omega arith)
      (subst (λ c. Among (of_moves can_tera slot (m ∷ ms)) (move_arguments slot c.move_id tera))
        same
        (rw here (
          contains-append_left (of_move can_tera slot m.move_id) (of_moves can_tera (suc slot) ms) _
            (of_move-Among can_tera tera slot m.move_id possible))))
of_moves-Among can_tera tera slot (suc index) (m ∷ ms) chosen found on possible =
    subst (λ n. Among (of_moves can_tera slot (m ∷ ms)) (move_arguments n chosen.move_id tera))
      (omega arith)
      (contains-append_right _ (of_moves can_tera (suc slot) ms) _
        (of_moves-Among can_tera tera (suc slot) index ms chosen found on possible))
