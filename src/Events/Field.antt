-- ===== src/Events/Field.antt =====
-- domain/events/field.py, evidence.py, ignored.py and base.py: the field, and the event type.
use battle_belief.Base.{ℕ, ℤ, String, Option, List}
use battle_belief.Events.Metadata.{MetadataEvent, ProgressEvent}
use battle_belief.Events.Pokemon.{PokemonEvent}

pub data FieldEvent : Type 0 where
  weather_changed : Option String → String → FieldEvent
  field_condition_changed : String → String → List String → FieldEvent
  side_condition_changed : String → String → String → FieldEvent
  side_conditions_swapped : FieldEvent

-- One case for each module of event classes.
pub data EventBody : Type 0 where
  metadata : MetadataEvent → EventBody
  progress : ProgressEvent → EventBody
  pokemon : PokemonEvent → EventBody
  battlefield : FieldEvent → EventBody
  evidence :
      String → Option String → Option ℕ → Option String → Option String → List String → EventBody
  ignored_display : String → EventBody

pub record BattleEvent : Type 0 where
  pub event_index : ℤ
  pub body : EventBody
