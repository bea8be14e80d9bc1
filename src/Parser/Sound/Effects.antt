-- ===== src/Parser/Sound/Effects.antt =====
-- parser.py: the handlers of the field, the volatiles, the items, the forms and the evidence.
use battle_belief.Base.{
  ℤ, String, List, ◌==◌, string_eq, contains, true, ◌≡◌, refl, arith, if_intro,
}
use battle_belief.Events.{battlefield}
use battle_belief.Base.Text.{codes, lower_codes}
use battle_belief.Base.{nat_eq, list_eq, ◌||◌}
use battle_belief.Parser.Effects.{
  parse_weather, parse_field_condition, parse_side_condition, parse_field, parse_recharge,
  parse_volatile_change, parse_volatile, parse_item_ability, parse_transform, parse_forme_change,
  parse_terastallize, parse_form_tera, parse_evidence,
}
use battle_belief.Parser.Lines.{field_types, form_tera_types}
use battle_belief.Parser.Yields.{IsSide}
use battle_belief.Parser.Sound.Pokemon.{HasTarget, parse_target-HasTarget}
use battle_belief.Parser.Yields.{
  Yields, Yields-bind, Yields-require, Yields-arg, IsActive, IsHp, parse_active_ident-IsActive,
  parse_hp_token-IsHp, parse_side_ident-Yields,
}
use battle_belief.Parser.Sound.{IsWellNamed, IsWellFormed, IsParsedAt}

module _ (args : List String) (ei : ℤ) where
  parse_weather-Yields : Yields (IsParsedAt ei) (parse_weather args ei)
  unfolding parse_weather
  parse_weather-Yields = Yields-require (IsParsedAt ei) args 1 _ λ enough.
      Yields-arg _ args 0 _ (omega arith) λ weather_name. (
        refl,
        if_intro (λ e. IsWellFormed (battlefield e))
            (lower_codes (codes weather_name) == codes "none") tt tt,
      )

  parse_field_condition-Yields :
      (wire_type : String) → Yields (IsParsedAt ei) (parse_field_condition wire_type args ei)
  unfolding parse_field_condition
  parse_field_condition-Yields wire_type =
      Yields-require (IsParsedAt ei) args 1 _
        λ enough. Yields-arg _ args 0 _ (omega arith) λ condition. (refl, tt)

  parse_side_condition-Yields :
      (wire_type : String) → Yields (IsParsedAt ei) (parse_side_condition wire_type args ei)
  unfolding parse_side_condition
  parse_side_condition-Yields wire_type = Yields-require (IsParsedAt ei) args 2 _ λ enough.
      Yields-arg _ args 0 _ (omega arith) λ ident.
        Yields-bind _ IsSide _ _ (parse_side_ident-Yields ident)
          λ side known. Yields-arg _ args 1 _ (omega arith) λ condition. (refl, known)

  parse_recharge-Yields : Yields (IsParsedAt ei) (parse_recharge args ei)
  unfolding parse_recharge
  parse_recharge-Yields = Yields-require (IsParsedAt ei) args 1 _ λ enough.
      Yields-arg _ args 0 _ (omega arith) λ ident.
        Yields-bind _ IsActive _ _ (parse_active_ident-IsActive ident)
          λ (side, slot, nick) known. (refl, known)

  parse_volatile_change-Yields :
      (wire_type : String) → Yields (IsParsedAt ei) (parse_volatile_change wire_type args ei)
  unfolding parse_volatile_change
  parse_volatile_change-Yields wire_type = Yields-require (IsParsedAt ei) args 2 _ λ enough.
      Yields-arg _ args 0 _ (omega arith) λ ident.
        Yields-bind _ IsActive _ _ (parse_active_ident-IsActive ident)
          λ (side, slot, nick) known. Yields-arg _ args 1 _ (omega arith) λ volatile. (refl, known)

  parse_transform-Yields : Yields (IsParsedAt ei) (parse_transform args ei)
  unfolding parse_transform
  parse_transform-Yields = Yields-require (IsParsedAt ei) args 2 _ λ enough.
      Yields-arg _ args 0 _ (omega arith) λ ident.
        Yields-bind _ IsActive _ _ (parse_active_ident-IsActive ident) λ (side, slot, nick) known.
          Yields-arg _ args 1 _ (omega arith) λ target.
            Yields-bind _ IsActive _ _ (parse_active_ident-IsActive target)
              λ (side', slot', nick') known'. (refl, (known, known'))

  parse_forme_change-Yields : Yields (IsParsedAt ei) (parse_forme_change args ei)
  unfolding parse_forme_change
  parse_forme_change-Yields = Yields-require (IsParsedAt ei) args 3 _ λ enough.
      Yields-arg _ args 0 _ (omega arith) λ ident.
        Yields-bind _ IsActive _ _ (parse_active_ident-IsActive ident) λ (side, slot, nick) known.
          Yields-arg _ args 2 _ (omega arith) λ hp_str.
            Yields-bind _ IsHp _ _ (parse_hp_token-IsHp hp_str)
              λ hp nonneg. Yields-arg _ args 1 _ (omega arith) λ species. (refl, (known, nonneg))

  parse_terastallize-Yields : Yields (IsParsedAt ei) (parse_terastallize args ei)
  unfolding parse_terastallize
  parse_terastallize-Yields = Yields-require (IsParsedAt ei) args 2 _ λ enough.
      Yields-arg _ args 0 _ (omega arith) λ ident.
        Yields-bind _ IsActive _ _ (parse_active_ident-IsActive ident)
          λ (side, slot, nick) known. Yields-arg _ args 1 _ (omega arith) λ tera_type. (refl, known)

module _ (wire_type : String) (args : List String) (ei : ℤ) where
  pub parse_field-Yields :
      contains field_types wire_type ≡ true → Yields (IsParsedAt ei) (parse_field wire_type args ei)
  unfolding parse_field
  parse_field-Yields known = ground (
    arith,
    parse_weather-Yields args ei,
    parse_field_condition-Yields args ei wire_type,
    parse_side_condition-Yields args ei wire_type,
  )

  pub parse_volatile-Yields : Yields (IsParsedAt ei) (parse_volatile wire_type args ei)
  unfolding parse_volatile
  parse_volatile-Yields =
      ground (arith, parse_recharge-Yields args ei, parse_volatile_change-Yields args ei wire_type)

  pub parse_item_ability-Yields : Yields (IsParsedAt ei) (parse_item_ability wire_type args ei)
  unfolding parse_item_ability
  parse_item_ability-Yields = Yields-require (IsParsedAt ei) args 1 _ λ enough.
      Yields-arg _ args 0 _ (omega arith) λ ident.
        Yields-bind _ IsActive _ _ (parse_active_ident-IsActive ident) λ (side, slot, nick) known.
          (refl, if_intro IsWellNamed (wire_type == "-item" || wire_type == "-enditem") known known)

  pub parse_form_tera-Yields :
      contains form_tera_types wire_type ≡ true
      → Yields (IsParsedAt ei) (parse_form_tera wire_type args ei)
  unfolding parse_form_tera
  parse_form_tera-Yields known = ground (
    arith,
    parse_transform-Yields args ei,
    parse_forme_change-Yields args ei,
    parse_terastallize-Yields args ei,
  )

  pub parse_evidence-Yields : Yields (IsParsedAt ei) (parse_evidence wire_type args ei)
  unfolding parse_evidence
  parse_evidence-Yields =
      Yields-bind (IsParsedAt ei) HasTarget _ _ (parse_target-HasTarget args)
        λ target named. (refl, named)
