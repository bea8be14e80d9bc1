-- ===== src/RequestReader/Safe.antt =====
-- request_reader.py: what the submissions of a request are.
use battle_belief.Base.{
  ℕ, Bool, true, false, not, ◌||◌, List, [], ◌∷◌, ◌++◌, map, All, All-append, All-weaken, ok, err,
  guard, Ensures, Ensures-bind, Ensures-ok, ◌==◌, ==_refl, nat_eq, string_eq, ◌≡◌, refl, ap, arith,
}
use battle_belief.Errors.{Core, value_error}
use battle_belief.Actions.{
  team, default, BattleSubmission, make_submission, RequestKind, move_request, team_preview, wait,
  kind_eq, id_or_none, check_kind,
}
use battle_belief.Actions.Checks.{IsWellFormed, the_default, make_submission-IsWellFormed}
use battle_belief.Reconciler.{
  is_allowed, has_default, check_contents, check_kinds, check_orders, check_preview, range_from,
  same_set,
}
use battle_belief.Parser.{Parsed, from_core}
use battle_belief.RequestReader.JsonValues.{map_parsed}
use battle_belief.RequestReader.Submissions.{construct, default_arguments, default_submission}

from_core-Ensures :
    {A : Type 0} (P : A → Type 0) (m : Core A) → Ensures P m → Ensures P (from_core m)
from_core-Ensures P (ok value) h = h
from_core-Ensures P (err e) h = tt

abbrev pub IsMade : BattleSubmission → BattleSubmission → Type 0
IsMade s made = (made ≡ s) × IsWellFormed s

make_submission-IsMade : (s : BattleSubmission) → Ensures (IsMade s) (make_submission s)
unfolding make_submission
make_submission-IsMade s =
    Ensures-bind (IsMade s) (guard (id_or_none s.move_id) value_error) _ λ _ id.
      Ensures-bind (IsMade s) (check_kind s.kind s) _
        λ _ kind. (refl, (make_submission-IsWellFormed s).0 (rw (id, kind) refl))

-- The constructor returns its arguments, if it returns.
pub construct-IsMade : (s : BattleSubmission) → Ensures (IsMade s) (construct s)
unfolding construct
construct-IsMade s = from_core-Ensures (IsMade s) (make_submission s) (make_submission-IsMade s)

pub IsWellFormed-construct : (s : BattleSubmission) → IsWellFormed s → construct s ≡ ok s
unfolding construct
IsWellFormed-construct s w = ap from_core ((make_submission-IsWellFormed s).1 w)

module _ {A B : Type 0} (P : B → Type 0) where
  pub map_parsed-All :
      (f : A → Parsed B) (xs : List A)
      → ((x : A) → Ensures P (f x))
      → Ensures (All P) (map_parsed f xs)
  unfolding map_parsed
  map_parsed-All f [] h = tt
  map_parsed-All f (x ∷ xs) h = Ensures-bind (All P) (f x) _ λ y e.
      Ensures-bind (All P) (map_parsed f xs) _ λ ys es. (
        Ensures-ok P (f x) y e (h x),
        Ensures-ok (All P) (map_parsed f xs) ys es (map_parsed-All f xs h),
      )

module _ {A B : Type 0} (f : A → Parsed B) (g : A → B) (P : A → Type 0) where
  -- A construction that returns for each element.
  pub map_parsed-ok :
      ((x : A) → P x → f x ≡ ok (g x)) → (xs : List A) → All P xs → map_parsed f xs ≡ ok (map g xs)
  unfolding map_parsed
  map_parsed-ok h [] all = refl
  map_parsed-ok h (x ∷ xs) all = rw (h x all.0, map_parsed-ok h xs all.1) refl

pub default_submission-ok : default_submission ≡ ok default_arguments
unfolding default_submission
default_submission-ok = IsWellFormed-construct default_arguments (the_default refl)

-- A submission that a request of this kind, for a team of this size, may offer.
pub record IsOffered (kind : RequestKind) (count : ℕ) (s : BattleSubmission) : Type 0 where
  pub well_formed : IsWellFormed s
  pub allowed : is_allowed kind s.kind ≡ true
  pub order : (not (s.kind == team) || same_set s.team_order (range_from 1 count)) ≡ true

-- The submissions of a request: those a reconciler asks for, each of them well-formed.
pub record AreOffered (kind : RequestKind) (count : ℕ) (subs : List BattleSubmission) : Type 0 where
  pub well_formed : All IsWellFormed subs
  pub contents : check_contents kind subs ≡ ok tt
  pub kinds : check_kinds kind subs ≡ ok tt
  pub orders : check_preview kind count subs ≡ ok tt

abbrev pub has_choice : RequestKind → Bool
has_choice wait = false
has_choice _ = true

default-IsOffered :
    (kind : RequestKind) (count : ℕ)
    → has_choice kind ≡ true
    → IsOffered kind count default_arguments
unfolding is_allowed
default-IsOffered wait count h = cc
default-IsOffered move_request count h = record {
  well_formed = the_default refl;
  allowed = refl;
  order = ground arith;
}
default-IsOffered _ count h = record {
  well_formed = the_default refl;
  allowed = refl;
  order = ground arith;
}

check_kinds-offered :
    (kind : RequestKind) (count : ℕ) (subs : List BattleSubmission)
    → All (IsOffered kind count) subs
    → check_kinds kind subs ≡ ok tt
unfolding check_kinds
check_kinds-offered kind count [] h = refl
check_kinds-offered kind count (s ∷ subs) h =
    rw (h.0.allowed) (check_kinds-offered kind count subs h.1)

check_orders-offered :
    (kind : RequestKind) (count : ℕ) (subs : List BattleSubmission)
    → All (IsOffered kind count) subs
    → check_orders (range_from 1 count) subs ≡ ok tt
unfolding check_orders
check_orders-offered kind count [] h = refl
check_orders-offered kind count (s ∷ subs) h =
    rw (h.0.order) (check_orders-offered kind count subs h.1)

check_preview-offered :
    (kind : RequestKind) (count : ℕ) (subs : List BattleSubmission)
    → All (IsOffered kind count) subs
    → check_preview kind count subs ≡ ok tt
unfolding check_preview
check_preview-offered team_preview count subs h = check_orders-offered team_preview count subs h
check_preview-offered _ count subs h = refl

has_default-last :
    (subs : List BattleSubmission) → has_default (subs ++ default_arguments ∷ []) ≡ true
unfolding has_default
has_default-last [] = ground (arith, ==_refl default)
has_default-last (s ∷ subs) = ground (arith, has_default-last subs)

check_contents-default :
    (kind : RequestKind) (subs : List BattleSubmission)
    → has_choice kind ≡ true
    → check_contents kind (subs ++ default_arguments ∷ []) ≡ ok tt
unfolding check_contents
check_contents-default wait subs h = cc
check_contents-default _ subs h = rw (has_default-last subs) refl

-- Offered submissions with the default behind them.
pub with_default-AreOffered :
    (kind : RequestKind) (count : ℕ) (subs : List BattleSubmission)
    → has_choice kind ≡ true
    → All (IsOffered kind count) subs
    → AreOffered kind count (subs ++ default_arguments ∷ [])
with_default-AreOffered kind count subs h all =
    let whole =
      All-append (IsOffered kind count) subs (default_arguments ∷ []) all
        (default-IsOffered kind count h, tt) in
    record {
      well_formed =
          All-weaken (IsOffered kind count) IsWellFormed (λ s o. o.well_formed)
            (subs ++ default_arguments ∷ []) whole;
      contents = check_contents-default kind subs h;
      kinds = check_kinds-offered kind count (subs ++ default_arguments ∷ []) whole;
      orders = check_preview-offered kind count (subs ++ default_arguments ∷ []) whole;
    }
