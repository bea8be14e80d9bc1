-- ===== src/Parser/Sound/Boosts.antt =====
-- parser.py: the handler of the boosts.
use battle_belief.Base.{
  ℤ, String, List, ◌==◌, string_eq, contains, true, ◌≡◌, refl, arith, if_intro,
}
use battle_belief.Events.{make_boosts_cleared}
use battle_belief.Parser.Boosts.{
  parse_boost_change, parse_boost_pair, parse_boost_clear, parse_clear_all, parse_invert,
  parse_boost,
}
use battle_belief.Parser.Lines.{boost_types}
use battle_belief.Parser.Yields.{
  Yields, Yields-bind, Yields-require, Yields-arg, IsActive, Anything, parse_int-Yields,
  parse_active_ident-IsActive,
}
use battle_belief.Parser.Sound.{IsWellNamed, IsParsedAt}

module _ (args : List String) (ei : ℤ) where
  parse_boost_change-Yields :
      (wire_type : String) → Yields (IsParsedAt ei) (parse_boost_change wire_type args ei)
  unfolding parse_boost_change
  parse_boost_change-Yields wire_type = Yields-require (IsParsedAt ei) args 3 _ λ enough.
      Yields-arg _ args 0 _ (omega arith) λ ident.
        Yields-bind _ IsActive _ _ (parse_active_ident-IsActive ident) λ (side, slot, nick) known.
          Yields-arg _ args 1 _ (omega arith) λ stat.
            Yields-arg _ args 2 _ (omega arith) λ text.
              Yields-bind _ Anything _ _ (parse_int-Yields text) λ magnitude _. (refl, known)

  parse_boost_pair-Yields :
      (wire_type : String) → Yields (IsParsedAt ei) (parse_boost_pair wire_type args ei)
  unfolding parse_boost_pair
  parse_boost_pair-Yields wire_type = Yields-require (IsParsedAt ei) args 2 _ λ enough.
      Yields-arg _ args 0 _ (omega arith) λ first.
        Yields-bind _ IsActive _ _ (parse_active_ident-IsActive first) λ (side, slot, nick) known.
          Yields-arg _ args 1 _ (omega arith) λ second.
            Yields-bind _ IsActive _ _ (parse_active_ident-IsActive second)
              λ (side', slot', nick') known'. (
                refl,
                if_intro IsWellNamed (wire_type == "-swapboost") (known, known') (known, known'),
              )

  parse_boost_clear-Yields :
      (wire_type : String) → Yields (IsParsedAt ei) (parse_boost_clear wire_type args ei)
  unfolding parse_boost_clear make_boosts_cleared
  parse_boost_clear-Yields wire_type = Yields-require (IsParsedAt ei) args 1 _ λ enough.
      Yields-arg _ args 0 _ (omega arith) λ ident.
        Yields-bind _ IsActive _ _ (parse_active_ident-IsActive ident)
          λ (side, slot, nick) known. (refl, (known, refl))

  parse_clear_all-Yields : Yields (IsParsedAt ei) (parse_clear_all args ei)
  unfolding parse_clear_all make_boosts_cleared string_eq
  parse_clear_all-Yields = (refl, (tt, refl))

  parse_invert-Yields : Yields (IsParsedAt ei) (parse_invert args ei)
  unfolding parse_invert
  parse_invert-Yields = Yields-require (IsParsedAt ei) args 1 _ λ enough.
      Yields-arg _ args 0 _ (omega arith) λ ident.
        Yields-bind _ IsActive _ _ (parse_active_ident-IsActive ident)
          λ (side, slot, nick) known. (refl, known)

pub parse_boost-Yields :
    (wire_type : String) (args : List String) (ei : ℤ)
    → contains boost_types wire_type ≡ true
    → Yields (IsParsedAt ei) (parse_boost wire_type args ei)
unfolding parse_boost
parse_boost-Yields wire_type args ei known = ground (
  arith,
  parse_boost_change-Yields args ei wire_type,
  parse_boost_pair-Yields args ei wire_type,
  parse_boost_clear-Yields args ei wire_type,
  parse_clear_all-Yields args ei,
  parse_invert-Yields args ei,
)
