-- ===== src/Reducer/Valid.antt =====
-- reducer.py and domain/state: what holds of the observed state between two events.
use battle_belief.Base.{
  ℕ, ◌+◌, ◌≤◌, ℤ, pos, negsuc, ◌≤ℤ◌, ◌<ℤ◌, String, true, Option, none, some, List, [], ◌∷◌, ◌≡◌,
  length, All, if◌then◌else◌,
}
use battle_belief.State.{HpObservation, EvidenceInterval, PokemonView, SideView, ObservedState}
use battle_belief.Reducer.Conditions.{layer_cap}

pub record IsValidHp (hp : HpObservation) : Type 0 where
  pub some_maximum : pos 0 <ℤ hp.maximum
  pub not_negative : pos 0 ≤ℤ hp.current
  pub capped : hp.current ≤ℤ hp.maximum
  pub zero_if_fainted : hp.fainted ≡ true → hp.current ≡ pos 0

abbrev pub IsValidHp? : Option HpObservation → Type 0
IsValidHp? none = Unit
IsValidHp? (some hp) = IsValidHp hp

-- the hit points of a pokemon that counts as fainted
abbrev pub IsZeroHp : Option HpObservation → Type 0
IsZeroHp none = ⊥
IsZeroHp (some hp) = hp.current ≡ pos 0

-- The intervals follow one another, none of them starts after `now`, and only the last may be open.
abbrev pub IsTimeline : ℤ → ℤ → List EvidenceInterval → Type 0
IsTimeline start now [] = start ≤ℤ now
IsTimeline start now (iv ∷ rest) = (start ≤ℤ iv.valid_from) × elim iv.valid_until [
  | none ↦ (iv.valid_from ≤ℤ now) × (rest ≡ [])
  | some end ↦ (iv.valid_from ≤ℤ end) × IsTimeline end now rest
]

abbrev pub IsBoost : ℤ → Type 0
IsBoost b = (negsuc 5 ≤ℤ b) × (b ≤ℤ pos 6)

abbrev pub AreBoosts : List ℤ → Type 0
AreBoosts boosts = (length boosts ≡ 7) × All IsBoost boosts

pub record IsValidView (now : ℤ) (pv : PokemonView) : Type 0 where
  pub hp : IsValidHp? pv.hp
  pub fainted : pv.fainted ≡ true → IsZeroHp pv.hp
  pub boosts : AreBoosts pv.boosts
  pub items : IsTimeline (negsuc 0) now pv.item_intervals
  pub abilities : IsTimeline (negsuc 0) now pv.ability_intervals
  pub identities : IsTimeline (negsuc 0) now pv.identity_intervals

abbrev pub active_count : List PokemonView → ℕ
active_count [] = 0
active_count (pv ∷ pvs) = (if pv.active then 1 else 0) + active_count pvs

abbrev pub IsLayered : String × ℕ → Type 0
IsLayered (condition, layers) = (1 ≤ layers) × (layers ≤ layer_cap condition)

pub record IsValidSide (now : ℤ) (s : SideView) : Type 0 where
  pub views : All (IsValidView now) s.pokemon
  pub one_active : active_count s.pokemon ≤ 1
  pub layers : All IsLayered s.side_conditions

pub record IsValidState (state : ObservedState) : Type 0 where
  pub started : negsuc 0 ≤ℤ state.event_index
  pub p1_id : state.p1.side_id ≡ "p1"
  pub p2_id : state.p2.side_id ≡ "p2"
  pub p1_side : IsValidSide state.event_index state.p1
  pub p2_side : IsValidSide state.event_index state.p2
