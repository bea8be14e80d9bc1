-- ===== src/Parser/Sound/Metadata.antt =====
-- parser.py: the handlers of the metadata, the preview, the progress, the health and the status.
use battle_belief.Base.{ℤ, String, List, string_eq, contains, true, ◌≡◌, refl, arith}
use battle_belief.Parser.Metadata.{
  parse_player, parse_team_size, parse_game_type, parse_generation, parse_tier, parse_rule,
  parse_metadata, parse_poke, parse_preview, parse_turn, parse_win, parse_progress, parse_health,
  parse_cure_team, parse_status_change, parse_status,
}
use battle_belief.Parser.Lines.{metadata_types, preview_types, progress_types}
use battle_belief.Parser.Yields.{
  Yields, Yields-bind, Yields-require, Yields-arg, IsIdent, IsActive, IsHp, Anything,
  parse_int-Yields, parse_pokemon_ident-IsIdent, parse_active_ident-IsActive, parse_hp_token-IsHp,
}
use battle_belief.Parser.Sound.{IsParsedAt}

module _ (args : List String) (ei : ℤ) where
  parse_player-Yields : Yields (IsParsedAt ei) (parse_player args ei)
  unfolding parse_player
  parse_player-Yields = Yields-require (IsParsedAt ei) args 2 _ λ enough.
      Yields-arg _ args 0 _ (omega arith)
        λ side_id. Yields-arg _ args 1 _ (omega arith) λ username. (refl, tt)

  parse_team_size-Yields : Yields (IsParsedAt ei) (parse_team_size args ei)
  unfolding parse_team_size
  parse_team_size-Yields = Yields-require (IsParsedAt ei) args 2 _ λ enough.
      Yields-arg _ args 1 _ (omega arith) λ size_text.
        Yields-bind _ Anything _ _ (parse_int-Yields size_text)
          λ size _. Yields-arg _ args 0 _ (omega arith) λ side_id. (refl, tt)

  parse_game_type-Yields : Yields (IsParsedAt ei) (parse_game_type args ei)
  unfolding parse_game_type
  parse_game_type-Yields =
      Yields-require (IsParsedAt ei) args 1 _
        λ enough. Yields-arg _ args 0 _ (omega arith) λ game_type. (refl, tt)

  parse_generation-Yields : Yields (IsParsedAt ei) (parse_generation args ei)
  unfolding parse_generation
  parse_generation-Yields = Yields-require (IsParsedAt ei) args 1 _ λ enough.
      Yields-arg _ args 0 _ (omega arith)
        λ text. Yields-bind _ Anything _ _ (parse_int-Yields text) λ generation _. (refl, tt)

  parse_tier-Yields : Yields (IsParsedAt ei) (parse_tier args ei)
  unfolding parse_tier
  parse_tier-Yields = Yields-require (IsParsedAt ei) args 1 _ λ enough. (refl, tt)

  parse_rule-Yields : Yields (IsParsedAt ei) (parse_rule args ei)
  unfolding parse_rule
  parse_rule-Yields = Yields-require (IsParsedAt ei) args 1 _ λ enough. (refl, tt)

  parse_poke-Yields : Yields (IsParsedAt ei) (parse_poke args ei)
  unfolding parse_poke
  parse_poke-Yields = Yields-require (IsParsedAt ei) args 2 _ λ enough.
      Yields-arg _ args 0 _ (omega arith)
        λ side_id. Yields-arg _ args 1 _ (omega arith) λ details. (refl, tt)

  parse_turn-Yields : Yields (IsParsedAt ei) (parse_turn args ei)
  unfolding parse_turn
  parse_turn-Yields = Yields-require (IsParsedAt ei) args 1 _ λ enough.
      Yields-arg _ args 0 _ (omega arith)
        λ text. Yields-bind _ Anything _ _ (parse_int-Yields text) λ turn _. (refl, tt)

  parse_win-Yields : Yields (IsParsedAt ei) (parse_win args ei)
  unfolding parse_win
  parse_win-Yields =
      Yields-require (IsParsedAt ei) args 1 _
        λ enough. Yields-arg _ args 0 _ (omega arith) λ winner. (refl, tt)

  parse_cure_team-Yields : Yields (IsParsedAt ei) (parse_cure_team args ei)
  unfolding parse_cure_team
  parse_cure_team-Yields = Yields-require (IsParsedAt ei) args 1 _ λ enough.
      Yields-arg _ args 0 _ (omega arith) λ ident.
        Yields-bind _ IsIdent _ _ (parse_pokemon_ident-IsIdent ident)
          λ (side, slot, nick) known. (refl, known.0)

  parse_status_change-Yields :
      (wire_type : String) → Yields (IsParsedAt ei) (parse_status_change wire_type args ei)
  unfolding parse_status_change
  parse_status_change-Yields wire_type = Yields-require (IsParsedAt ei) args 1 _ λ enough.
      Yields-arg _ args 0 _ (omega arith) λ ident.
        Yields-bind _ IsActive _ _ (parse_active_ident-IsActive ident)
          λ (side, slot, nick) known. (refl, known)

module _ (wire_type : String) (args : List String) (ei : ℤ) where
  pub parse_metadata-Yields :
      contains metadata_types wire_type ≡ true
      → Yields (IsParsedAt ei) (parse_metadata wire_type args ei)
  unfolding parse_metadata
  parse_metadata-Yields known = ground (
    arith,
    parse_player-Yields args ei,
    parse_team_size-Yields args ei,
    parse_game_type-Yields args ei,
    parse_generation-Yields args ei,
    parse_tier-Yields args ei,
    parse_rule-Yields args ei,
  )

  pub parse_preview-Yields :
      contains preview_types wire_type ≡ true
      → Yields (IsParsedAt ei) (parse_preview wire_type args ei)
  unfolding parse_preview
  parse_preview-Yields known = ground (arith, parse_poke-Yields args ei)

  pub parse_progress-Yields :
      contains progress_types wire_type ≡ true
      → Yields (IsParsedAt ei) (parse_progress wire_type args ei)
  unfolding parse_progress
  parse_progress-Yields known = ground (arith, parse_turn-Yields args ei, parse_win-Yields args ei)

  pub parse_health-Yields : Yields (IsParsedAt ei) (parse_health wire_type args ei)
  unfolding parse_health
  parse_health-Yields = Yields-require (IsParsedAt ei) args 2 _ λ enough.
      Yields-arg _ args 0 _ (omega arith) λ ident.
        Yields-bind _ IsIdent _ _ (parse_pokemon_ident-IsIdent ident) λ (side, slot, nick) known.
          Yields-arg _ args 1 _ (omega arith) λ hp_str.
            Yields-bind _ IsHp _ _ (parse_hp_token-IsHp hp_str) λ hp nonneg. (refl, (known, nonneg))

  pub parse_status-Yields : Yields (IsParsedAt ei) (parse_status wire_type args ei)
  unfolding parse_status
  parse_status-Yields =
      ground (arith, parse_cure_team-Yields args ei, parse_status_change-Yields args ei wire_type)
