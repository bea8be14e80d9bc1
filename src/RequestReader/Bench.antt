-- ===== src/RequestReader/Bench.antt =====
-- request_reader.py: the members on the bench, fainted or not.
use battle_belief.Base.{
  ℕ, ◌+◌, Bool, true, false, ◌||◌, String, some, List, [], ◌∷◌, ◌++◌, get_elem?, ◌==◌, ==→eq,
  ==_refl, eq→==, nat_eq, list_eq, string_eq, Bool-cases, ◌⊎◌, inl, inr, ◌↔◌, ◌≡◌, refl, sym, ap,
  arith,
}
use battle_belief.Base.Text.{codes}
use battle_belief.Actions.{ActionKind, BattleSubmission}
use battle_belief.Parser.{strip_start, strip_end, ends_with}
use battle_belief.RequestReader.Side.{RequestPokemon, pokemon_fainted}
use battle_belief.RequestReader.Reader.{can_switch, can_revive}
use battle_belief.RequestReader.Submissions.{default_arguments, slot_arguments}
use battle_belief.RequestReader.Slots.{OfSlot, IsSlotChoice}

-- A condition that says so: ` fnt` at its end, or nothing but `0 fnt`, spaces aside.
abbrev pub IsFainted : String → Type 0
IsFainted condition =
    ((before : List ℕ) × (strip_end (codes condition) ≡ before ++ codes " fnt"))
    ⊎ (strip_end (strip_start (codes condition)) ≡ codes "0 fnt")

ends_with-append :
    (xs suffix : List ℕ) → ends_with xs suffix ≡ true → (before : List ℕ) × (xs ≡ before ++ suffix)
unfolding ends_with
ends_with-append [] suffix h = ([], sym (==→eq suffix [] h))
ends_with-append (x ∷ xs) suffix h = elim (Bool-cases ((x ∷ xs) == suffix)) [
  | inl whole ↦ ([], ==→eq (x ∷ xs) suffix whole)
  | inr part ↦
      let (before, e) = ends_with-append xs suffix (ground arith) in
      (x ∷ before, ap (λ ys. x ∷ ys) e)
]

append-ends_with : (before suffix : List ℕ) → ends_with (before ++ suffix) suffix ≡ true
unfolding ends_with
append-ends_with [] [] = ==_refl {A = List ℕ} []
append-ends_with [] (y ∷ suffix) = ground (arith, ==_refl (y ∷ suffix))
append-ends_with (x ∷ before) suffix = ground (arith, append-ends_with before suffix)

pub pokemon_fainted-IsFainted :
    (condition : String) → pokemon_fainted condition ≡ true ↔ IsFainted condition
unfolding pokemon_fainted
pokemon_fainted-IsFainted condition = (
  λ h. elim (Bool-cases (ends_with (strip_end (codes condition)) (codes " fnt"))) [
    | inl suffix ↦ inl (ends_with-append (strip_end (codes condition)) (codes " fnt") suffix)
    | inr other ↦
        inr (==→eq (strip_end (strip_start (codes condition))) (codes "0 fnt") (ground arith))
  ],
  said,
)
  where
    said :
        IsFainted condition
        → (ends_with (strip_end (codes condition)) (codes " fnt")
            || strip_end (strip_start (codes condition)) == codes "0 fnt")
          ≡ true
    said (inl (before, e)) = let h = append-ends_with before (codes " fnt") in rw (e, h) refl
    said (inr e) =
        let h = eq→== (strip_end (strip_start (codes condition))) (codes "0 fnt") e in ground arith

-- The submission for a member on the bench, in its slot, whose condition is as required.
pub record OfBench (kind : ActionKind) (required : String → Type 0) (members : List RequestPokemon)
    (s : BattleSubmission) : Type 0 where
  pub index : ℕ
  pub chosen : RequestPokemon
  pub found : get_elem? members index ≡ some chosen
  pub benched : chosen.active ≡ false
  pub condition : required chosen.condition
  pub same : s ≡ slot_arguments kind (1 + index)

abbrev pub IsStanding : String → Type 0
IsStanding condition = ¬ IsFainted condition

-- The default, or a submission for a member on the bench.
abbrev pub IsBenchChoice :
    ActionKind → (String → Type 0) → List RequestPokemon → BattleSubmission → Type 0
IsBenchChoice kind required members s = (s ≡ default_arguments) ⊎ OfBench kind required members s

-- What decides whether a member is kept.
abbrev pub Decides : (RequestPokemon → Bool) → (String → Type 0) → Type 0
Decides keep required =
    (p : RequestPokemon) → keep p ≡ true ↔ ((p.active ≡ false) × required p.condition)

pub can_switch-Decides : Decides can_switch IsStanding
can_switch-Decides p = (
  λ h. (
    ground arith,
    λ fainted. let f = (pokemon_fainted-IsFainted p.condition).1 fainted in ground (arith, f),
  ),
  λ (benched, standing). elim (Bool-cases (pokemon_fainted p.condition)) [
    | inl f ↦ absurd (standing ((pokemon_fainted-IsFainted p.condition).0 f))
    | inr f ↦ ground (arith, benched, f)
  ],
)

pub can_revive-Decides : Decides can_revive IsFainted
can_revive-Decides p = (
  λ h. (ground arith, (pokemon_fainted-IsFainted p.condition).0 (ground arith)),
  λ (benched, fainted).
      let f = (pokemon_fainted-IsFainted p.condition).1 fainted in ground (arith, benched, f),
)

module _ (kind : ActionKind) (keep : RequestPokemon → Bool) (required : String → Type 0)
    (decides : Decides keep required) (members : List RequestPokemon) (s : BattleSubmission) where
  pub OfSlot-OfBench : OfSlot kind keep 1 members s ↔ OfBench kind required members s
  OfSlot-OfBench = (
    λ h. record {
      index = h.index;
      chosen = h.chosen;
      found = h.found;
      benched = ((decides h.chosen).0 h.able).0;
      condition = ((decides h.chosen).0 h.able).1;
      same = h.same;
    },
    λ h. record {
      index = h.index;
      chosen = h.chosen;
      found = h.found;
      able = (decides h.chosen).1 (h.benched, h.condition);
      same = h.same;
    },
  )

  pub IsSlotChoice-IsBenchChoice :
      IsSlotChoice kind keep members s ↔ IsBenchChoice kind required members s
  IsSlotChoice-IsBenchChoice = (forth, back)
    where
      forth : IsSlotChoice kind keep members s → IsBenchChoice kind required members s
      forth (inl by_default) = inl by_default
      forth (inr of) = inr (OfSlot-OfBench.0 of)

      back : IsBenchChoice kind required members s → IsSlotChoice kind keep members s
      back (inl by_default) = inl by_default
      back (inr of) = inr (OfSlot-OfBench.1 of)
