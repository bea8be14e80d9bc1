-- ===== src/Reducer/History.antt =====
-- reducer.py: what an event leaves of what was known before it.
use battle_belief.Base.{
  String, Option, none, some, List, [], ◌∷◌, ◌++◌, ok, ◌>>=◌, ◌==◌, string_eq, option_eq,
}
use battle_belief.Errors.{Core}
use battle_belief.State.{ObservedState}
use battle_belief.Reducer.Lookup.{update_side}
use battle_belief.Reducer.Handlers.{add_evidence}
use mathlib.Core.List.{append-nil, append_assoc}
use battle_belief.Base.{
  ℕ, All-append, ◌≡◌, refl, sym, subst, All, Ensures, Ensures-bind, Ensures-ok, if_intro,
}
use battle_belief.State.{VisibleEvidence, SideView}

-- A value once known stays known.
abbrev pub StaysKnown : Option String → Option String → Type 0
StaysKnown none after = Unit
StaysKnown (some side_id) after = after ≡ some side_id

-- The later state has the same user and, if it was known, the same side of ours, and its evidence is
-- the earlier one's with more behind it, all of it of this event.
pub record Extends (before after : ObservedState) : Type 0 where
  pub index : after.event_index ≡ before.event_index
  pub user : after.our_user_id ≡ before.our_user_id
  pub our_side : StaysKnown before.our_side after.our_side
  pub evidence :
      (added : List VisibleEvidence) × (after.visible_evidence ≡ before.visible_evidence ++ added)
      × All (λ e. e.event_index ≡ before.event_index) added

pub StaysKnown-refl : (o : Option String) → StaysKnown o o
StaysKnown-refl none = tt
StaysKnown-refl (some side_id) = refl

StaysKnown-trans :
    (before between after : Option String)
    → StaysKnown before between
    → StaysKnown between after
    → StaysKnown before after
StaysKnown-trans none between after h k = tt
StaysKnown-trans (some side_id) between after h k = subst (λ known. StaysKnown known after) h k

-- a state in which nothing that `Extends` speaks of differs
pub same-Extends :
    (before after : ObservedState)
    → after.event_index ≡ before.event_index
    → after.our_user_id ≡ before.our_user_id
    → after.our_side ≡ before.our_side
    → after.visible_evidence ≡ before.visible_evidence
    → Extends before after
same-Extends before after index user known seen = record {
  index = index;
  user = user;
  our_side =
      subst (λ o. StaysKnown before.our_side o) (sym known) (StaysKnown-refl before.our_side);
  evidence = ([], rw (seen, append-nil before.visible_evidence) refl, tt);
}

pub Extends-trans :
    (before between after : ObservedState)
    → Extends before between
    → Extends between after
    → Extends before after
Extends-trans before between after h k =
    let (added, e, all) = h.evidence in
    let (more, f, rest) = k.evidence in
    record {
      index = cc (h.index, k.index);
      user = cc (h.user, k.user);
      our_side =
          StaysKnown-trans before.our_side between.our_side after.our_side h.our_side k.our_side;
      evidence = (
        added ++ more,
        rw (f, e) (append_assoc before.visible_evidence added more),
        All-append (λ (x : VisibleEvidence). x.event_index ≡ before.event_index) added more all
            (subst (λ i. All (λ x. x.event_index ≡ i) more) h.index rest),
      );
    }

pub update_side-Extends :
    (state : ObservedState) (new_side : SideView)
    → Ensures (Extends state) (update_side state new_side)
unfolding update_side
update_side-Extends state new_side =
    if_intro (Ensures (Extends state)) (new_side.side_id == "p1")
      (same-Extends state _ refl refl refl refl)
      (if_intro (Ensures (Extends state)) (new_side.side_id == "p2")
        (same-Extends state _ refl refl refl refl) tt)

pub add_evidence-Extends :
    (state : ObservedState) (kind side_id : String) (slot : ℕ) (nickname effect : String)
    (annotations : List String)
    → Extends state (add_evidence state kind side_id slot nickname effect annotations)
unfolding add_evidence
add_evidence-Extends state kind side_id slot nickname effect annotations = record {
  index = refl;
  user = refl;
  our_side = StaysKnown-refl state.our_side;
  evidence = (_ ∷ [], refl, (refl, tt));
}

-- evidence added after an update
pub Ensures-evidence :
    (state : ObservedState) (m : Core ObservedState) (kind side_id : String) (slot : ℕ)
    (nickname effect : String) (annotations : List String)
    → Ensures (Extends state) m
    → Ensures
        (Extends state)
        (m >>= λ state'. ok (add_evidence state' kind side_id slot nickname effect annotations))
Ensures-evidence state m kind side_id slot nickname effect annotations h =
    Ensures-bind (Extends state) m _ λ state' e.
      Extends-trans state state' (add_evidence state' kind side_id slot nickname effect annotations)
        (Ensures-ok (Extends state) m state' e h)
        (add_evidence-Extends state' kind side_id slot nickname effect annotations)
