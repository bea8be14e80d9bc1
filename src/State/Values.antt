-- ===== src/State/Values.antt =====
-- domain/state/values.py: hit points, evidence intervals and the preview roster.
use battle_belief.Base.{
  ℤ, pos, leb_ℤ, ltb_ℤ, String, Bool, not, ◌==◌, ◌&&◌, ◌||◌, Option, ok, ◌>>◌, guard,
}
use battle_belief.Base.Int.{int_eq}
use battle_belief.Errors.{Core, value_error}

pub data HpPrecision : Type 0 where
  exact percent pixel : HpPrecision

pub record HpObservation : Type 0 where
  pub current : ℤ
  pub maximum : ℤ
  pub precision : HpPrecision
  pub fainted : Bool

-- `HpObservation(...)` with its `__post_init__`
unfoldable pub hp_observation : ℤ → ℤ → HpPrecision → Bool → Core HpObservation
hp_observation current maximum precision fainted = do
  guard (not (leb_ℤ maximum (pos 0) || ltb_ℤ current (pos 0) || ltb_ℤ maximum current)) value_error
  guard (not (fainted && not (current == pos 0))) value_error
  ok (record { current = current; maximum = maximum; precision = precision; fainted = fainted })

-- A raw value of the wire; its precision is not known yet.
pub record HpToken : Type 0 where
  pub current : ℤ
  pub maximum : ℤ
  pub status : Option String
  pub fainted : Bool

pub record EvidenceInterval : Type 0 where
  pub value : Option String
  pub source_event_index : ℤ
  pub valid_from : ℤ
  pub valid_until : Option ℤ

pub record PreviewPokemon : Type 0 where
  pub details : String
  pub has_item : Bool
