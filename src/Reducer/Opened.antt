-- ===== src/Reducer/Opened.antt =====
-- reducer.py: the timeline of an item, an ability or an identity after `_open_interval`.
use battle_belief.Base.{ℤ, String, Option, none, some, List, [], ◌∷◌, ◌++◌, ◌≤ℤ◌, ◌≡◌, refl}
use battle_belief.State.{EvidenceInterval}
use battle_belief.Reducer.Conditions.{close_open_interval, open_interval}
use battle_belief.Reducer.Valid.{IsTimeline}
use battle_belief.Reducer.Values.{open_interval-IsTimeline}

-- when an interval ends, if an open one ends at `now`
abbrev end_at : ℤ → Option ℤ → ℤ
end_at now none = now
end_at now (some end) = end

-- The same intervals, in order, each with an end: an open one ends at `now`.
pub AreClosed : ℤ → List EvidenceInterval → List EvidenceInterval → Type 0
AreClosed now [] [] = Unit
AreClosed now (iv ∷ l) (jv ∷ r) =
    (jv.value ≡ iv.value)
    × (jv.source_event_index ≡ iv.source_event_index)
    × (jv.valid_from ≡ iv.valid_from)
    × (jv.valid_until ≡ some (end_at now iv.valid_until))
    × AreClosed now l r
AreClosed now _ _ = ⊥

close_open_interval-AreClosed :
    (now : ℤ) (l : List EvidenceInterval) → AreClosed now l (close_open_interval l now)
unfolding AreClosed close_open_interval
close_open_interval-AreClosed now [] = tt
close_open_interval-AreClosed now (iv ∷ l) =
    elim iv.valid_until
      as (λ u.
        AreClosed now ((record iv { valid_until = u }) ∷ l)
          (close_open_interval ((record iv { valid_until = u }) ∷ l) now)) [
            | none ↦ (refl, refl, refl, refl, close_open_interval-AreClosed now l)
            | some end ↦ (refl, refl, refl, refl, close_open_interval-AreClosed now l)
          ]

-- A timeline after another observation.
pub record IsOpened (start now : ℤ) (value : Option String) (before after : List EvidenceInterval)
    : Type 0 where
  pub earlier : List EvidenceInterval
  pub closed : AreClosed now before earlier
  pub extended :
      after
      ≡ earlier
        ++ (record {
          value = value;
          source_event_index = now;
          valid_from = now;
          valid_until = none;
        })
          ∷ []
  pub timeline : IsTimeline start now after

-- Opening an interval at `now` keeps the earlier intervals in order, ends the open one there, if
-- there is one, and puts behind them one open interval of the new value that starts at `now`; if the
-- intervals were a timeline, with `now` not before it, so they are again.
pub open_interval-IsOpened :
    (start earlier now : ℤ) (l : List EvidenceInterval) (value : Option String)
    → earlier ≤ℤ now
    → IsTimeline start earlier l
    → IsOpened start now value l (open_interval l value now)
unfolding open_interval
open_interval-IsOpened start earlier now l value le h = record {
  earlier = close_open_interval l now;
  closed = close_open_interval-AreClosed now l;
  extended = refl;
  timeline = open_interval-IsTimeline start earlier now l value le h;
}
