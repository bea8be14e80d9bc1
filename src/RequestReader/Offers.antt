-- ===== src/RequestReader/Offers.antt =====
-- request_reader.py: the submissions that are made from slots and from moves.
use battle_belief.Base.{
  ℕ, suc, ◌+◌, ◌≤◌, String, Bool, true, false, not, ◌||◌, List, [], ◌∷◌, map, length, All,
  All-append, All-map, ok, Ensures, Ensures-bind, Ensures-ok, Ensures-weaken, ◌==◌, nat_eq,
  string_eq, ◌≡◌, refl, sym, subst, arith, if◌then◌else◌, if_intro,
}
use battle_belief.Base.Int.{int_eq}
use battle_belief.Actions.{
  ActionKind, switch, revive, team, BattleSubmission, RequestKind, move_request, kind_eq,
}
use battle_belief.Actions.Checks.{IsWellFormed, a_switch, a_revival, IsSlot}
use battle_belief.Reconciler.{is_allowed, range_from, same_set}
use battle_belief.RequestReader.Side.{RequestPokemon}
use battle_belief.RequestReader.Active.{RequestMove}
use battle_belief.RequestReader.Reader.{
  slot_submissions, tera_choices, move_choices, move_submissions,
}
use battle_belief.RequestReader.Submissions.{construct, slot_arguments, move_arguments, candidates}
use battle_belief.RequestReader.Safe.{
  IsMade, construct-IsMade, IsWellFormed-construct, map_parsed-ok, IsOffered,
}

pub candidates-AreSlots :
    (keep : RequestPokemon → Bool) (slot : ℕ) (members : List RequestPokemon)
    → 1 ≤ slot
    → slot + length members ≤ 7
    → All (IsSlot 6) (candidates keep slot members)
unfolding candidates
candidates-AreSlots keep slot [] low high = tt
candidates-AreSlots keep slot (p ∷ ps) low high =
    let rest = candidates-AreSlots keep (suc slot) ps (omega arith) (omega arith) in
    if_intro (All (IsSlot 6)) (keep p) ((low, omega arith), rest) rest

-- The kinds of submission that are made from slots.
pub data TakesSlot : ActionKind → Type 0 where
  switches : TakesSlot switch
  revives : TakesSlot revive

slot_arguments-IsWellFormed :
    (kind : ActionKind) (slot : ℕ)
    → TakesSlot kind
    → IsSlot 6 slot
    → IsWellFormed (slot_arguments kind slot)
slot_arguments-IsWellFormed kind slot switches h = a_switch slot h refl
slot_arguments-IsWellFormed kind slot revives h = a_revival slot h refl

pub slot_submissions-ok :
    (kind : ActionKind) (slots : List ℕ)
    → TakesSlot kind
    → All (IsSlot 6) slots
    → slot_submissions kind slots ≡ ok (map (slot_arguments kind) slots)
unfolding slot_submissions
slot_submissions-ok kind slots takes =
    map_parsed-ok _ (slot_arguments kind) (IsSlot 6)
      (λ slot h.
        IsWellFormed-construct (slot_arguments kind slot)
          (slot_arguments-IsWellFormed kind slot takes h))
      slots

pub slot_arguments-AreOffered :
    (request : RequestKind) (count : ℕ) (kind : ActionKind) (slots : List ℕ)
    → TakesSlot kind
    → is_allowed request kind ≡ true
    → All (IsSlot 6) slots
    → All (IsOffered request count) (map (slot_arguments kind) slots)
slot_arguments-AreOffered request count kind slots takes allowed =
    All-map (IsSlot 6) (IsOffered request count) (slot_arguments kind)
      (λ slot h. record {
        well_formed = slot_arguments-IsWellFormed kind slot takes h;
        allowed = allowed;
        order = other kind takes slot;
      })
      slots
  where
    other :
        (kind : ActionKind)
        → TakesSlot kind
        → (slot : ℕ)
        → (not ((slot_arguments kind slot).kind == team) || same_set [] (range_from 1 count)) ≡ true
    other kind switches slot = ground arith
    other kind revives slot = ground arith

module _ (count : ℕ) where
  move-IsOffered :
      (slot : ℕ) (move_id : String) (terastallize : Bool) (made : BattleSubmission)
      → IsMade (move_arguments slot move_id terastallize) made
      → IsOffered move_request count made
  unfolding is_allowed
  move-IsOffered slot move_id terastallize made (same, well_formed) =
      subst (IsOffered move_request count) (sym same)
        (record { well_formed = well_formed; allowed = refl; order = ground arith })

  abbrev pub Offers : List BattleSubmission → Type 0
  Offers = All (IsOffered move_request count)

  made-Offers :
      (slot : ℕ) (move_id : String) (terastallize : Bool)
      → Ensures
          (IsOffered move_request count)
          (construct (move_arguments slot move_id terastallize))
  made-Offers slot move_id terastallize =
      Ensures-weaken (IsMade (move_arguments slot move_id terastallize)) _
        (move-IsOffered slot move_id terastallize) (construct _) (construct-IsMade _)

  tera_choices-Offers :
      (can_tera : Bool) (slot : ℕ) (move_id : String)
      → Ensures Offers (tera_choices can_tera slot move_id)
  unfolding tera_choices
  tera_choices-Offers false slot move_id = tt
  tera_choices-Offers true slot move_id =
      Ensures-bind Offers (construct (move_arguments slot move_id true)) _
        λ made e. (Ensures-ok _ (construct _) made e (made-Offers slot move_id true), tt)

  move_choices-Offers :
      (can_tera : Bool) (slot : ℕ) (move_id : String)
      → Ensures Offers (move_choices can_tera slot move_id)
  unfolding move_choices
  move_choices-Offers can_tera slot move_id =
      Ensures-bind Offers (construct (move_arguments slot move_id false)) _ λ made e.
        Ensures-bind Offers (tera_choices can_tera slot move_id) _ λ more f. (
          Ensures-ok _ (construct _) made e (made-Offers slot move_id false),
          Ensures-ok Offers _ more f (tera_choices-Offers can_tera slot move_id),
        )

  pub move_submissions-Offers :
      (can_tera : Bool) (slot : ℕ) (moves : List RequestMove)
      → Ensures Offers (move_submissions can_tera slot moves)
  unfolding move_submissions
  move_submissions-Offers can_tera slot [] = tt
  move_submissions-Offers can_tera slot (m ∷ ms) =
      Ensures-bind Offers (if m.disabled then ok [] else move_choices can_tera slot m.move_id) _
        λ choices e. Ensures-bind Offers (move_submissions can_tera (suc slot) ms) _ λ rest f.
          All-append _ choices rest
            (Ensures-ok Offers _ choices e (
              if_intro (Ensures Offers) m.disabled tt
                (move_choices-Offers can_tera slot m.move_id)))
            (Ensures-ok Offers _ rest f (move_submissions-Offers can_tera (suc slot) ms))
