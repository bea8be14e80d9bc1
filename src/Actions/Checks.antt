-- ===== src/Actions/Checks.antt =====
-- domain/actions/submission.py: the shapes of a submission, and the check of the constructor.
use battle_belief.Base.{
  ℕ, ◌≤◌, String, Bool, true, false, Option, none, some, List, [], ◌∷◌, ◌≡◌, ◌↔◌, refl, sym, subst,
  ok, ==_refl, >>=-eq-ok, guard, length, All, contains, ◌==◌, nat_eq, string_eq, arith, Bool-cases,
  inl, inr,
}
use battle_belief.Errors.{value_error}
use battle_belief.Actions.Submission.{
  ActionKind, move, switch, revive, team, default, ActionProvenance, explicit_request,
  server_default, BattleSubmission, provenance_eq, is_move_id, all_id_codes, char_count, distinct,
  all_slots, id_or_none, check_kind, make_submission,
}

abbrev pub IsSlot : ℕ → ℕ → Type 0
IsSlot high slot = (1 ≤ slot) × (slot ≤ high)

abbrev pub AreDistinct : List ℕ → Type 0
AreDistinct [] = Unit
AreDistinct (x ∷ xs) = (contains xs x ≡ false) × AreDistinct xs

-- The five shapes of a submission.
pub data IsWellFormed (s : BattleSubmission) : Type 0 where
  a_move :
      (slot : ℕ) (move_id : String) (terastallize : Bool)
      → IsSlot 4 slot
      → is_move_id move_id ≡ true
      → s ≡ record {
        kind = move;
        provenance = explicit_request;
        slot = some slot;
        move_id = some move_id;
        terastallize = terastallize;
        team_order = [];
      }
      → IsWellFormed s
  a_switch :
      (slot : ℕ)
      → IsSlot 6 slot
      → s ≡ record {
        kind = switch;
        provenance = explicit_request;
        slot = some slot;
        move_id = none;
        terastallize = false;
        team_order = [];
      }
      → IsWellFormed s
  a_revival :
      (slot : ℕ)
      → IsSlot 6 slot
      → s ≡ record {
        kind = revive;
        provenance = explicit_request;
        slot = some slot;
        move_id = none;
        terastallize = false;
        team_order = [];
      }
      → IsWellFormed s
  a_team :
      (slot : ℕ) (slots : List ℕ)
      → All (IsSlot 6) (slot ∷ slots)
      → AreDistinct (slot ∷ slots)
      → s ≡ record {
        kind = team;
        provenance = explicit_request;
        slot = none;
        move_id = none;
        terastallize = false;
        team_order = slot ∷ slots;
      }
      → IsWellFormed s
  the_default :
      s ≡ record {
        kind = default;
        provenance = server_default;
        slot = none;
        move_id = none;
        terastallize = false;
        team_order = [];
      }
      → IsWellFormed s

length-distinct-le : (xs : List ℕ) → length (distinct xs) ≤ length xs
unfolding distinct
length-distinct-le [] = omega arith
length-distinct-le (x ∷ xs) = ground (arith, length-distinct-le xs)

contains-distinct : (xs : List ℕ) (x : ℕ) → contains (distinct xs) x ≡ contains xs x
unfolding distinct
contains-distinct [] x = refl
contains-distinct (y ∷ ys) x = ground (arith, contains-distinct ys x, contains-distinct ys y)

distinct_all : (xs : List ℕ) → length (distinct xs) ≡ length xs → AreDistinct xs
unfolding distinct
distinct_all [] h = tt
distinct_all (x ∷ xs) h = elim (Bool-cases (contains xs x)) [
  | inl dup ↦ absurd (ground (arith, contains-distinct xs x, length-distinct-le xs))
  | inr new ↦ (new, distinct_all xs (ground (arith, contains-distinct xs x)))
]

distinct_none : (xs : List ℕ) → AreDistinct xs → length (distinct xs) ≡ length xs
unfolding distinct
distinct_none [] h = refl
distinct_none (x ∷ xs) h = ground (arith, contains-distinct xs x, distinct_none xs h.1)

all_slots-All : (xs : List ℕ) → all_slots xs ≡ true → All (IsSlot 6) xs
all_slots-All [] h = tt
all_slots-All (x ∷ xs) h = (ground arith, all_slots-All xs (ground arith))

All-all_slots : (xs : List ℕ) → All (IsSlot 6) xs → all_slots xs ≡ true
All-all_slots [] h = refl
All-all_slots (x ∷ xs) h = ground (arith, All-all_slots xs h.1)

-- A list of guards passes when each does.
shape :
    (kind : ActionKind) (provenance : ActionProvenance) (slot : Option ℕ) (move_id : Option String)
    (terastallize : Bool) (team_order : List ℕ)
    → id_or_none move_id ≡ true
    → check_kind kind (record {
      kind = kind;
      provenance = provenance;
      slot = slot;
      move_id = move_id;
      terastallize = terastallize;
      team_order = team_order;
    })
      ≡ ok tt
    → IsWellFormed (record {
      kind = kind;
      provenance = provenance;
      slot = slot;
      move_id = move_id;
      terastallize = terastallize;
      team_order = team_order;
    })
unfolding check_kind
shape move explicit_request (some slot) (some m) tera [] id h =
    a_move slot m tera (ground arith) id refl
shape switch explicit_request (some slot) none false [] id h = a_switch slot (ground arith) refl
shape revive explicit_request (some slot) none false [] id h = a_revival slot (ground arith) refl
shape team explicit_request none none false (x ∷ xs) id h =
    a_team x xs (all_slots-All (x ∷ xs) (ground arith)) (distinct_all (x ∷ xs) (ground arith)) refl
shape default server_default none none false [] id h = the_default refl
shape _ _ _ _ _ _ id h = absurd (ground arith)

empty_id : is_move_id "" ≡ false
unfolding is_move_id all_id_codes char_count
empty_id = refl

move_id-ne-empty : (move_id : String) → is_move_id move_id ≡ true → (move_id == "") ≡ false
move_id-ne-empty move_id h = ground (arith, empty_id)

abbrev Passes : BattleSubmission → Type 0
Passes s = (id_or_none s.move_id ≡ true) × (check_kind s.kind s ≡ ok tt)

well_formed-Passes : (s : BattleSubmission) → IsWellFormed s → Passes s
unfolding check_kind
well_formed-Passes s (a_move slot m tera hs hm e) =
    subst Passes (sym e) (hm, ground (arith, move_id-ne-empty m, ==_refl explicit_request))
well_formed-Passes s (a_switch slot hs e) =
    subst Passes (sym e) (refl, ground (arith, ==_refl explicit_request))
well_formed-Passes s (a_revival slot hs e) =
    subst Passes (sym e) (refl, ground (arith, ==_refl explicit_request))
well_formed-Passes s (a_team x xs hs hd e) = subst Passes (sym e) (
  refl,
  ground (arith, ==_refl explicit_request, All-all_slots (x ∷ xs) hs, distinct_none (x ∷ xs) hd),
)
well_formed-Passes s (the_default e) =
    subst Passes (sym e) (refl, ground (arith, ==_refl server_default))

-- The constructor returns exactly the submissions of the five shapes: a move 1 to 4 with its id, a
-- switch or a revival of a slot 1 to 6, an order of distinct slots 1 to 6, or the server's default.
pub make_submission-IsWellFormed :
    (s : BattleSubmission) → (make_submission s ≡ ok s) ↔ IsWellFormed s
unfolding make_submission
make_submission-IsWellFormed s = (checked, passes)
  where
    checked : make_submission s ≡ ok s → IsWellFormed s
    checked h =
        let (_, id, rest) = >>=-eq-ok (guard (id_or_none s.move_id) value_error) _ h in
        let (_, kind, _) = >>=-eq-ok (check_kind s.kind s) _ rest in
        shape s.kind s.provenance s.slot s.move_id s.terastallize s.team_order (ground arith) kind

    passes : IsWellFormed s → make_submission s ≡ ok s
    passes w = let (id, kind) = well_formed-Passes s w in rw (id, kind)
