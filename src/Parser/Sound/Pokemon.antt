-- ===== src/Parser/Sound/Pokemon.antt =====
-- parser.py: the handler of the pokemon and their moves.
use battle_belief.Base.{
  ℕ, ℤ, String, List, [], ◌∷◌, drop, ◌==◌, string_eq, contains, true, ◌≡◌, refl, arith,
  if◌then◌else◌, if_intro,
}
use battle_belief.Events.{pokemon_switched, pokemon_dragged, identity_changed, form_changed}
use battle_belief.Events.{persistent_details}
use battle_belief.State.{HpToken}
use battle_belief.Parser.Idents.{looks_like_pokemon_ident}
use battle_belief.Parser.Pokemon.{
  Target, parse_target, parse_switch, parse_details, parse_move, parse_faint, parse_cant,
  parse_pokemon_identity,
}
use battle_belief.Parser.Lines.{pokemon_identity_types}
use battle_belief.Parser.Yields.{
  Yields, Yields-bind, Yields-require, Yields-arg, IsIdent, IsActive, IsHp,
  parse_pokemon_ident-IsIdent, parse_active_ident-IsActive, parse_hp_token-IsHp,
}
use battle_belief.Parser.Sound.{IsAt, IsTarget, IsWellNamed, IsParsedAt}

-- the pokemon that an argument may name
abbrev pub HasTarget : Target → Type 0
HasTarget target = IsTarget target.side_id target.slot target.nickname

pub parse_target-HasTarget : (args : List String) → Yields HasTarget (parse_target args)
unfolding parse_target
parse_target-HasTarget [] = tt
parse_target-HasTarget (first ∷ rest) =
    if_intro (Yields HasTarget) (looks_like_pokemon_ident first)
      (Yields-bind HasTarget IsIdent _ _ (parse_pokemon_ident-IsIdent first)
        λ (side_id, slot, nickname) known. known)
      tt

module _ (wire_type : String) (side : String) (slot : ℕ) (nick details : String)
    (hp : HpToken) where
  either_switch :
      IsAt side slot nick × IsHp hp
      → IsWellNamed (
          if wire_type == "switch"
          then pokemon_switched side slot nick details hp
          else pokemon_dragged side slot nick details hp)
  either_switch h = if_intro IsWellNamed (wire_type == "switch") h h

  either_change :
      IsAt side slot nick × IsHp hp
      → IsWellNamed (
          if wire_type == "detailschange"
          then form_changed side slot nick persistent_details details hp
          else identity_changed side slot nick details hp)
  either_change h = if_intro IsWellNamed (wire_type == "detailschange") h h

module _ (args : List String) (ei : ℤ) where
  parse_switch-Yields :
      (wire_type : String) → Yields (IsParsedAt ei) (parse_switch wire_type args ei)
  unfolding parse_switch
  parse_switch-Yields wire_type = Yields-require (IsParsedAt ei) args 3 _ λ enough.
      Yields-arg _ args 0 _ (omega arith) λ ident.
        Yields-bind _ IsActive _ _ (parse_active_ident-IsActive ident) λ (side, slot, nick) known.
          Yields-arg _ args 1 _ (omega arith) λ details.
            Yields-arg _ args 2 _ (omega arith) λ hp_str.
              Yields-bind _ IsHp _ _ (parse_hp_token-IsHp hp_str) λ hp nonneg.
                (refl, either_switch wire_type side slot nick details hp (known, nonneg))

  parse_details-Yields :
      (wire_type : String) → Yields (IsParsedAt ei) (parse_details wire_type args ei)
  unfolding parse_details
  parse_details-Yields wire_type = Yields-require (IsParsedAt ei) args 3 _ λ enough.
      Yields-arg _ args 0 _ (omega arith) λ ident.
        Yields-bind _ IsActive _ _ (parse_active_ident-IsActive ident) λ (side, slot, nick) known.
          Yields-arg _ args 2 _ (omega arith) λ hp_str.
            Yields-bind _ IsHp _ _ (parse_hp_token-IsHp hp_str) λ hp nonneg.
              Yields-arg _ args 1 _ (omega arith)
                λ details. (refl, either_change wire_type side slot nick details hp (known, nonneg))

  parse_move-Yields : Yields (IsParsedAt ei) (parse_move args ei)
  unfolding parse_move
  parse_move-Yields = Yields-require (IsParsedAt ei) args 2 _ λ enough.
      Yields-arg _ args 0 _ (omega arith) λ ident.
        Yields-bind _ IsActive _ _ (parse_active_ident-IsActive ident) λ (side, slot, nick) known.
          Yields-arg _ args 1 _ (omega arith) λ move_name.
            Yields-bind _ HasTarget _ _ (parse_target-HasTarget (drop 2 args))
              λ target named. (refl, (known, named))

  parse_faint-Yields : Yields (IsParsedAt ei) (parse_faint args ei)
  unfolding parse_faint
  parse_faint-Yields = Yields-require (IsParsedAt ei) args 1 _ λ enough.
      Yields-arg _ args 0 _ (omega arith) λ ident.
        Yields-bind _ IsActive _ _ (parse_active_ident-IsActive ident)
          λ (side, slot, nick) known. (refl, known)

  parse_cant-Yields : Yields (IsParsedAt ei) (parse_cant args ei)
  unfolding parse_cant
  parse_cant-Yields = Yields-require (IsParsedAt ei) args 2 _ λ enough.
      Yields-arg _ args 0 _ (omega arith) λ ident.
        Yields-bind _ IsActive _ _ (parse_active_ident-IsActive ident)
          λ (side, slot, nick) known. Yields-arg _ args 1 _ (omega arith) λ reason. (refl, known)

pub parse_pokemon_identity-Yields :
    (wire_type : String) (args : List String) (ei : ℤ)
    → contains pokemon_identity_types wire_type ≡ true
    → Yields (IsParsedAt ei) (parse_pokemon_identity wire_type args ei)
unfolding parse_pokemon_identity
parse_pokemon_identity-Yields wire_type args ei known = ground (
  arith,
  parse_switch-Yields args ei wire_type,
  parse_details-Yields args ei wire_type,
  parse_move-Yields args ei,
  parse_faint-Yields args ei,
  parse_cant-Yields args ei,
)
