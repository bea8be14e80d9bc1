-- ===== src/RequestReader/Submissions.antt =====
-- request_reader.py: the submissions that the readers construct.
use battle_belief.Base.{
  ℕ, zero, suc, String, Bool, false, none, some, List, [], ◌∷◌, ◌++◌, map, nat_eq, string_eq,
  if◌then◌else◌,
}
use battle_belief.Base.Int.{int_eq}
use battle_belief.Actions.{
  ActionKind, move, team, default, explicit_request, server_default, BattleSubmission,
  make_submission,
}
use battle_belief.Parser.{Parsed, from_core}
use battle_belief.RequestReader.Side.{RequestPokemon}

-- `BattleSubmission(...)`, which may raise
unfoldable pub construct : BattleSubmission → Parsed BattleSubmission
construct s = from_core (make_submission s)

-- the arguments of the constructor
abbrev pub default_arguments : BattleSubmission
default_arguments = record {
  kind = default;
  provenance = server_default;
  slot = none;
  move_id = none;
  terastallize = false;
  team_order = [];
}

abbrev pub slot_arguments : ActionKind → ℕ → BattleSubmission
slot_arguments kind slot = record default_arguments {
  kind = kind;
  provenance = explicit_request;
  slot = some slot;
}

abbrev pub team_arguments : List ℕ → BattleSubmission
team_arguments order = record default_arguments {
  kind = team;
  provenance = explicit_request;
  team_order = order;
}

abbrev pub move_arguments : ℕ → String → Bool → BattleSubmission
move_arguments slot move_id terastallize = record default_arguments {
  kind = move;
  provenance = explicit_request;
  slot = some slot;
  move_id = some move_id;
  terastallize = terastallize;
}

-- `_default_submission`
unfoldable pub default_submission : Parsed BattleSubmission
default_submission = construct default_arguments

-- the slots, from a first one on, of the members that are kept
unfoldable pub candidates : (RequestPokemon → Bool) → ℕ → List RequestPokemon → List ℕ
candidates keep slot [] = []
candidates keep slot (p ∷ ps) =
    let rest = candidates keep (suc slot) ps in if keep p then slot ∷ rest else rest

-- An element of a list with the others, for each one in turn.
unfoldable pub picks : List ℕ → List (ℕ × List ℕ)
picks [] = []
picks (x ∷ xs) = (x, xs) ∷ map (λ (y, ys). (y, x ∷ ys)) (picks xs)

-- `f(x)` of each element, one after another
unfoldable pub flat_map : {A B : Type 0} → (A → List B) → List A → List B
flat_map f [] = []
flat_map f (x ∷ xs) = f x ++ flat_map f xs

-- `itertools.permutations(xs)`, of a list of this length
unfoldable pub permutations : ℕ → List ℕ → List (List ℕ)
unfolding picks flat_map
permutations zero xs = [] ∷ []
permutations (suc count) xs =
    flat_map (λ (x, rest). map (λ p. x ∷ p) (permutations count rest)) (picks xs)
