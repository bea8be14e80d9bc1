-- ===== src/Parser/Boosts.antt =====
-- adapters/showdown_protocol/parser.py: the handler of the boosts.
use battle_belief.Base.{
  ℤ, neg_ℤ, String, not, ◌||◌, Option, none, some, List, map, filter, get_elem?, ok, err, ◌>>=◌,
  ◌>>◌, ◌==◌, string_eq, if◌then◌else◌,
}
use battle_belief.State.{boost_stats}
use battle_belief.Events.{
  BattleEvent, BoostChangeMode, delta, set, boost_changed, boosts_swapped, boosts_copied,
  boosts_inverted, make_boosts_cleared, pokemon,
}
use battle_belief.Failures.{unknown_protocol_event}
use battle_belief.Parser.Words.{split_on}
use battle_belief.Parser.Idents.{
  Parsed, from_core, event_at, require, arg, parse_int, parse_active_ident, normalize_boost_stat,
}

-- `mode, amount`
unfoldable pub boost_amount : String → ℤ → BoostChangeMode × ℤ
boost_amount wire_type magnitude =
    if wire_type == "-setboost"
    then (set, magnitude)
    else if wire_type == "-boost"
    then (delta, magnitude)
    else (delta, neg_ℤ magnitude)

-- the stats of `-swapboost` and `-copyboost`: those listed, or all
unfoldable pub stats_of : Option String → List String
stats_of none = boost_stats
stats_of (some stats_arg) =
    if stats_arg == ""
    then boost_stats
    else map normalize_boost_stat (filter (λ s. not (s == "")) (split_on b',' stats_arg))

-- the branch of `-boost`, `-unboost` and `-setboost`
unfoldable pub parse_boost_change : String → List String → ℤ → Parsed BattleEvent
unfolding boost_amount
parse_boost_change wire_type args ei = do
  require args 3
  ident ← arg args 0
  (side_id, slot, nickname) ← parse_active_ident ident
  stat ← arg args 1
  magnitude_text ← arg args 2
  magnitude ← parse_int magnitude_text
  let (mode, amount) = boost_amount wire_type magnitude
  ok (
      event_at ei
        (pokemon (boost_changed side_id slot nickname (normalize_boost_stat stat) mode amount)))

-- the branch of `-swapboost` and `-copyboost`
unfoldable pub parse_boost_pair : String → List String → ℤ → Parsed BattleEvent
parse_boost_pair wire_type args ei = do
  require args 2
  first ← arg args 0
  (first_side, first_slot, first_nick) ← parse_active_ident first
  second ← arg args 1
  (second_side, second_slot, second_nick) ← parse_active_ident second
  let stats = stats_of (get_elem? args 2)
  ok (
      event_at ei (
        pokemon (
          if wire_type == "-swapboost"
          then boosts_swapped first_side first_slot first_nick second_side second_slot second_nick
              stats
          else boosts_copied first_side first_slot first_nick second_side second_slot second_nick
              stats)))

-- `{...}[wire_type]`
unfoldable pub clear_scope : String → String
clear_scope wire_type =
    if wire_type == "-clearpositiveboost"
    then "positive"
    else if wire_type == "-clearnegativeboost"
    then "negative"
    else "all"

-- the branch of `-clearboost`, `-clearpositiveboost` and `-clearnegativeboost`
unfoldable pub parse_boost_clear : String → List String → ℤ → Parsed BattleEvent
parse_boost_clear wire_type args ei = do
  require args 1
  ident ← arg args 0
  (side_id, slot, nickname) ← parse_active_ident ident
  cleared ←
      from_core
        (make_boosts_cleared (some side_id) (some slot) (some nickname) (clear_scope wire_type))
  ok (event_at ei (pokemon cleared))

-- the branch of `-clearallboost`
unfoldable pub parse_clear_all : List String → ℤ → Parsed BattleEvent
parse_clear_all args ei = do
  cleared ← from_core (make_boosts_cleared none none none "all")
  ok (event_at ei (pokemon cleared))

-- the branch of `-invertboost`
unfoldable pub parse_invert : List String → ℤ → Parsed BattleEvent
parse_invert args ei = do
  require args 1
  ident ← arg args 0
  (side_id, slot, nickname) ← parse_active_ident ident
  ok (event_at ei (pokemon (boosts_inverted side_id slot nickname)))

-- `_parse_boost`
unfoldable pub parse_boost : String → List String → ℤ → Parsed BattleEvent
unfolding parse_boost_change parse_boost_pair parse_boost_clear parse_clear_all parse_invert
parse_boost wire_type args ei =
    if wire_type == "-boost" || wire_type == "-unboost" || wire_type == "-setboost"
    then parse_boost_change wire_type args ei
    else if wire_type == "-swapboost" || wire_type == "-copyboost"
    then parse_boost_pair wire_type args ei
    else if wire_type == "-clearallboost"
    then parse_clear_all args ei
    else if wire_type == "-clearboost"
        || wire_type == "-clearpositiveboost"
        || wire_type == "-clearnegativeboost"
    then parse_boost_clear wire_type args ei
    else if wire_type == "-invertboost"
    then parse_invert args ei
    else err unknown_protocol_event
