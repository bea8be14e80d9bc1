-- ===== src/RequestReader/Slots.antt =====
-- request_reader.py: the submissions for the members of a team, by their slots.
use battle_belief.Base.{
  not_both, contains-append_left, contains-append_right, All-contains, ℕ, zero, suc, ◌+◌, Bool,
  true, some, List, [], ◌∷◌, ◌++◌, map, get_elem?, All, All-append, All-weaken, ◌≡◌, refl, ap, sym,
  subst, ◌∙◌, arith, ==_refl, if_cases, string_eq, ◌⊎◌, inl, inr, ◌↔◌,
}
use battle_belief.Actions.{ActionKind, BattleSubmission, submission_eq, kind_eq}
use battle_belief.RequestReader.Side.{RequestPokemon}
use battle_belief.RequestReader.Submissions.{default_arguments, slot_arguments, candidates}
use battle_belief.RequestReader.Choices.{Among}

module _ (kind : ActionKind) (keep : RequestPokemon → Bool) where
  -- The submission for a member, from a slot on, that is kept.
  pub record OfSlot (slot : ℕ) (members : List RequestPokemon) (s : BattleSubmission) : Type 0 where
    pub index : ℕ
    pub chosen : RequestPokemon
    pub found : get_elem? members index ≡ some chosen
    pub able : keep chosen ≡ true
    pub same : s ≡ slot_arguments kind (slot + index)

  later_slot :
      (slot : ℕ) (p : RequestPokemon) (ps : List RequestPokemon) (s : BattleSubmission)
      → OfSlot (suc slot) ps s
      → OfSlot slot (p ∷ ps) s
  later_slot slot p ps s h = record {
    index = suc h.index;
    chosen = h.chosen;
    found = h.found;
    able = h.able;
    same = h.same ∙ ap (slot_arguments kind) (omega arith);
  }

  -- the submissions, when they can be constructed
  abbrev pub of_members : ℕ → List RequestPokemon → List BattleSubmission
  of_members slot members = map (slot_arguments kind) (candidates keep slot members)

  pub of_members-All :
      (slot : ℕ) (members : List RequestPokemon)
      → All (OfSlot slot members) (of_members slot members)
  unfolding candidates
  of_members-All slot [] = tt
  of_members-All slot (p ∷ ps) =
      let rest = All-weaken _ _ (later_slot slot p ps) _ (of_members-All (suc slot) ps) in
      if_cases (λ slots. All (OfSlot slot (p ∷ ps)) (map (slot_arguments kind) slots)) (keep p)
        (λ able. (
          record {
            index = 0;
            chosen = p;
            found = refl;
            able = able;
            same = ap (slot_arguments kind) (omega arith);
          },
          rest,
        ))
        (λ _. rest)

  pub of_members-Among :
      (slot index : ℕ) (members : List RequestPokemon) (chosen : RequestPokemon)
      → get_elem? members index ≡ some chosen
      → keep chosen ≡ true
      → Among (of_members slot members) (slot_arguments kind (slot + index))
  unfolding candidates
  of_members-Among slot index [] chosen found able = cc
  of_members-Among slot zero (p ∷ ps) chosen found able =
      let same : p ≡ chosen = cc found in
      if_cases (λ slots. Among (map (slot_arguments kind) slots) (slot_arguments kind (slot + 0)))
        (keep p)
        (λ _.
          let here : Among (slot_arguments kind slot ∷ of_members (suc slot) ps)
              (slot_arguments kind slot) =
            ground (arith, ==_refl (slot_arguments kind slot)) in
          let sum : slot ≡ slot + 0 = omega arith in
          subst
            (λ n.
              Among (slot_arguments kind slot ∷ of_members (suc slot) ps) (slot_arguments kind n))
            sum here)
        (λ unable. absurd (not_both (ap keep same ∙ able) unable))
  of_members-Among slot (suc index) (p ∷ ps) chosen found able =
      let sum : suc slot + index ≡ slot + suc index = omega arith in
      let later : Among (of_members (suc slot) ps) (slot_arguments kind (slot + suc index)) =
        subst (λ n. Among (of_members (suc slot) ps) (slot_arguments kind n)) sum
          (of_members-Among (suc slot) index ps chosen found able) in
      if_cases
        (λ slots. Among (map (slot_arguments kind) slots) (slot_arguments kind (slot + suc index)))
        (keep p) (λ _. ground (arith, later)) (λ _. later)

  -- the submissions and the default, and what is among them
  abbrev pub IsSlotChoice : List RequestPokemon → BattleSubmission → Type 0
  IsSlotChoice members s = (s ≡ default_arguments) ⊎ OfSlot 1 members s

  pub with_default-AreSlotChoices :
      (members : List RequestPokemon) (s : BattleSubmission)
      → Among (of_members 1 members ++ default_arguments ∷ []) s ↔ IsSlotChoice members s
  with_default-AreSlotChoices members s = (
    λ among.
        All-contains (IsSlotChoice members) (of_members 1 members ++ default_arguments ∷ []) s among
          (All-append _ (of_members 1 members) _
            (All-weaken (OfSlot 1 members) _ (λ t of. inr of) _ (of_members-All 1 members))
            (inl refl, tt)),
    offered,
  )
    where
      offered : IsSlotChoice members s → Among (of_members 1 members ++ default_arguments ∷ []) s
      offered (inl same) =
          contains-append_right (of_members 1 members) _ s
            (rw same (ground (arith, ==_refl default_arguments)))
      offered (inr of) = contains-append_left _ _ s (
          subst (Among (of_members 1 members)) (sym of.same)
            (of_members-Among 1 of.index members of.chosen of.found of.able))
