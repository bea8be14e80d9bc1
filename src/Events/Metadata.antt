-- ===== src/Events/Metadata.antt =====
-- domain/events/metadata.py and domain/events/progress.py. Every event class has `event_index`,
-- which stands in `BattleEvent`; a constructor has the other fields of its class, in their order.
use battle_belief.Base.{ℤ, String, Bool}

pub data MetadataEvent : Type 0 where
  battle_init : String → MetadataEvent
  player_declared : String → String → String → MetadataEvent
  team_size_declared : String → ℤ → MetadataEvent
  game_type_declared : String → MetadataEvent
  generation_declared : ℤ → MetadataEvent
  tier_declared : String → MetadataEvent
  battle_rated : Bool → MetadataEvent
  rule_declared : String → MetadataEvent
  preview_pokemon_declared : String → String → Bool → MetadataEvent
  preview_cleared : MetadataEvent
  team_preview_started : MetadataEvent

pub data ProgressEvent : Type 0 where
  battle_started : ProgressEvent
  turn_started : ℤ → ProgressEvent
  battle_won : String → ProgressEvent
  battle_tied : ProgressEvent
