-- ===== src/Reducer/Chronicle.antt =====
-- reducer.py: the order of the events and of the evidence.
use battle_belief.Base.{
  ℤ, negsuc, ◌≤ℤ◌, ◌<ℤ◌, leb_ℤ, String, List, [], ◌∷◌, ◌++◌, ◌≡◌, sym, subst, All, ok, err, Ensures,
  Ensures-bind, Ensures-ok, if_cases, arith,
}
use battle_belief.State.{VisibleEvidence, ObservedState, initial}
use battle_belief.Errors.{Core}
use battle_belief.Events.{BattleEvent}
use battle_belief.Reducer.Reduce.{reduce, reduce_body, reduce_all}
use battle_belief.Reducer.History.{Extends}
use battle_belief.Reducer.Grows.{reduce_body-Extends}

-- A later event: its index is larger, and the rest of the state extends what was known.
pub record IsNext (before after : ObservedState) (event : BattleEvent) : Type 0 where
  pub later : before.event_index <ℤ event.event_index
  pub extended : Extends (record before { event_index = event.event_index }) after

-- An event that does not raise has a larger index than the state, which takes it over; the user
-- stays the same, our side, once known, stays known, and what was seen is kept, with at most new
-- evidence of this event behind it.
pub reduce-IsNext :
    (state : ObservedState) (event : BattleEvent)
    → Ensures (λ after. IsNext state after event) (reduce state event)
unfolding reduce
reduce-IsNext state event =
    if_cases (Ensures (λ after. IsNext state after event))
      (leb_ℤ event.event_index state.event_index) (λ _. tt)
      (λ late.
        with_later (reduce_body (record state { event_index = event.event_index }) event.body)
          (ground arith)
          (reduce_body-Extends (record state { event_index = event.event_index }) event.body))
  where
    with_later :
        (m : Core ObservedState)
        → state.event_index <ℤ event.event_index
        → Ensures (Extends (record state { event_index = event.event_index })) m
        → Ensures (λ after. IsNext state after event) m
    with_later (ok after) lt h = record { later = lt; extended = h }
    with_later (err e) lt h = tt

-- The indices do not go down, from `low` on.
abbrev pub IsAscending : ℤ → List VisibleEvidence → Type 0
IsAscending low [] = Unit
IsAscending low (e ∷ l) = (low ≤ℤ e.event_index) × IsAscending e.event_index l

same-IsAscending :
    (low now : ℤ) (added : List VisibleEvidence)
    → low ≤ℤ now
    → All (λ e. e.event_index ≡ now) added
    → IsAscending low added
same-IsAscending low now [] le h = tt
same-IsAscending low now (e ∷ added) le h =
    (ground (arith, h.0, le), same-IsAscending e.event_index now added (ground (arith, h.0)) h.1)

append-IsAscending :
    (low before now : ℤ) (l added : List VisibleEvidence)
    → before ≤ℤ now
    → low ≤ℤ now
    → All (λ e. e.event_index ≤ℤ before) l
    → IsAscending low l
    → All (λ e. e.event_index ≡ now) added
    → IsAscending low (l ++ added)
append-IsAscending low before now [] added le low_le all h new =
    same-IsAscending low now added low_le new
append-IsAscending low before now (e ∷ l) added le low_le all h new = (
  h.0,
  append-IsAscending e.event_index before now l added le (omega (arith, all.0)) all.1 h.1 new,
)

All-append_le :
    (before now : ℤ) (l added : List VisibleEvidence)
    → before ≤ℤ now
    → All (λ e. e.event_index ≤ℤ before) l
    → All (λ e. e.event_index ≡ now) added
    → All (λ e. e.event_index ≤ℤ now) (l ++ added)
All-append_le before now [] [] le all new = tt
All-append_le before now [] (e ∷ added) le all new =
    (ground (arith, new.0), All-append_le before now [] added le tt new.1)
All-append_le before now (e ∷ l) added le all new =
    (omega (arith, all.0), All-append_le before now l added le all.1 new)

-- What was seen stands in the order of the events, none of it after the last one.
pub record IsChronicle (state : ObservedState) : Type 0 where
  pub started : negsuc 0 ≤ℤ state.event_index
  pub past : All (λ e. e.event_index ≤ℤ state.event_index) state.visible_evidence
  pub ascending : IsAscending (negsuc 0) state.visible_evidence

IsNext-IsChronicle :
    (before after : ObservedState) (event : BattleEvent)
    → IsNext before after event
    → IsChronicle before
    → IsChronicle after
IsNext-IsChronicle before after event n c =
    let (added, e, new) = n.extended.evidence in
    let now = event.event_index in
    let le : before.event_index ≤ℤ now = omega (arith, n.later) in
    record {
      started = subst (λ i. negsuc 0 ≤ℤ i) (sym n.extended.index) (omega (arith, c.started));
      past =
          subst (λ i. All (λ x. x.event_index ≤ℤ i) after.visible_evidence) (sym n.extended.index)
            (subst (λ l. All (λ x. x.event_index ≤ℤ now) l) (sym e)
              (All-append_le before.event_index now before.visible_evidence added le c.past new));
      ascending = subst (IsAscending (negsuc 0)) (sym e) (
          append-IsAscending (negsuc 0) before.event_index now before.visible_evidence added le
            (omega (arith, c.started)) c.past c.ascending new);
    }

reduce_all-IsChronicle :
    (state : ObservedState) (events : List BattleEvent)
    → IsChronicle state
    → Ensures IsChronicle (reduce_all state events)
unfolding reduce_all
reduce_all-IsChronicle state [] c = c
reduce_all-IsChronicle state (event ∷ events) c =
    Ensures-bind IsChronicle (reduce state event) _ λ after e. reduce_all-IsChronicle after events (
      IsNext-IsChronicle state after event
        (Ensures-ok (λ s. IsNext state s event) (reduce state event) after e
          (reduce-IsNext state event))
        c)

-- In every state that a battle reaches, the evidence seen stands in the order of the events.
pub battle-IsChronicle :
    (our_user_id : String) (events : List BattleEvent)
    → Ensures IsChronicle (reduce_all (initial our_user_id) events)
unfolding initial
battle-IsChronicle our_user_id events =
    reduce_all-IsChronicle (initial our_user_id) events
      (record { started = omega arith; past = tt; ascending = tt })
