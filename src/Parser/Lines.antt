-- ===== src/Parser/Lines.antt =====
-- adapters/showdown_protocol/parser.py and wire_types.py: the dispatch on the wire type.
use battle_belief.Base.{
  ℕ, ℤ, String, Bool, ◌&&◌, ◌||◌, true, false, Option, none, some, List, [], ◌∷◌, contains, ok, err,
  ◌>>◌, guard, ◌==◌, nat_eq, string_eq, list_eq, if◌then◌else◌,
}
use battle_belief.Base.Text.{codes, lower_codes}
use battle_belief.Events.{BattleEvent, battle_init, metadata, ignored_display}
use battle_belief.Events
use battle_belief.Failures.{
  core, unknown_protocol_event, malformed_protocol_message, timer_or_forfeit,
}
use battle_belief.Parser.Words.{join_with}
use battle_belief.Parser.Idents.{Parsed, event_at, malformed, split_payload}
use battle_belief.Parser.Metadata.{
  parse_metadata, parse_preview, parse_progress, parse_health, parse_status,
}
use battle_belief.Parser.Pokemon.{parse_pokemon_identity}
use battle_belief.Parser.Boosts.{parse_boost}
use battle_belief.Parser.Effects.{
  parse_field, parse_volatile, parse_item_ability, parse_form_tera, parse_evidence,
}

-- `BATTLE_EVENT_TYPES`
abbrev pub battle_event_types : List String
battle_event_types =
    "init" ∷ "player" ∷ "teamsize" ∷ "gametype" ∷ "gen" ∷ "tier" ∷ "rated" ∷ "rule" ∷ "clearpoke"
    ∷ "poke" ∷ "teampreview" ∷ "start" ∷ "turn" ∷ "win" ∷ "tie" ∷ "move" ∷ "switch" ∷ "drag"
    ∷ "faint" ∷ "cant" ∷ "detailschange" ∷ "replace" ∷ "-damage" ∷ "-heal" ∷ "-sethp" ∷ "-status"
    ∷ "-curestatus" ∷ "-cureteam" ∷ "-boost" ∷ "-unboost" ∷ "-setboost" ∷ "-swapboost"
    ∷ "-copyboost" ∷ "-clearboost" ∷ "-clearallboost" ∷ "-clearpositiveboost"
    ∷ "-clearnegativeboost" ∷ "-invertboost" ∷ "-weather" ∷ "-fieldstart" ∷ "-fieldend"
    ∷ "-sidestart" ∷ "-sideend" ∷ "-swapsideconditions" ∷ "-start" ∷ "-end" ∷ "-singleturn"
    ∷ "-singlemove" ∷ "-mustrecharge" ∷ "-item" ∷ "-enditem" ∷ "-ability" ∷ "-endability"
    ∷ "-transform" ∷ "-formechange" ∷ "-terastallize" ∷ "-crit" ∷ "-supereffective" ∷ "-resisted"
    ∷ "-immune" ∷ "-miss" ∷ "-fail" ∷ "-activate" ∷ "-block" ∷ "-notarget" ∷ "-nothing"
    ∷ "-hitcount" ∷ "-prepare" ∷ "-fieldactivate" ∷ "upkeep" ∷ "t:" ∷ "-anim" ∷ "-hint" ∷ "-center"
    ∷ "-combine" ∷ "-waiting" ∷ "message" ∷ "-message" ∷ []

abbrev pub metadata_types : List String
metadata_types = "player" ∷ "teamsize" ∷ "gametype" ∷ "gen" ∷ "tier" ∷ "rated" ∷ "rule" ∷ []

abbrev pub preview_types : List String
preview_types = "clearpoke" ∷ "poke" ∷ "teampreview" ∷ []

abbrev pub progress_types : List String
progress_types = "start" ∷ "turn" ∷ "win" ∷ "tie" ∷ []

abbrev pub pokemon_identity_types : List String
pokemon_identity_types =
    "move" ∷ "switch" ∷ "drag" ∷ "faint" ∷ "cant" ∷ "detailschange" ∷ "replace" ∷ []

abbrev pub health_types : List String
health_types = "-damage" ∷ "-heal" ∷ "-sethp" ∷ []

abbrev pub status_types : List String
status_types = "-status" ∷ "-curestatus" ∷ "-cureteam" ∷ []

abbrev pub boost_types : List String
boost_types =
    "-boost" ∷ "-unboost" ∷ "-setboost" ∷ "-swapboost" ∷ "-copyboost" ∷ "-clearboost"
    ∷ "-clearallboost" ∷ "-clearpositiveboost" ∷ "-clearnegativeboost" ∷ "-invertboost" ∷ []

abbrev pub field_types : List String
field_types =
    "-weather" ∷ "-fieldstart" ∷ "-fieldend" ∷ "-sidestart" ∷ "-sideend" ∷ "-swapsideconditions"
    ∷ []

abbrev pub volatile_types : List String
volatile_types = "-start" ∷ "-end" ∷ "-singleturn" ∷ "-singlemove" ∷ "-mustrecharge" ∷ []

abbrev pub item_ability_types : List String
item_ability_types = "-item" ∷ "-enditem" ∷ "-ability" ∷ "-endability" ∷ []

abbrev pub form_tera_types : List String
form_tera_types = "-transform" ∷ "-formechange" ∷ "-terastallize" ∷ []

abbrev pub evidence_types : List String
evidence_types =
    "-crit" ∷ "-supereffective" ∷ "-resisted" ∷ "-immune" ∷ "-miss" ∷ "-fail" ∷ "-activate"
    ∷ "-block" ∷ "-notarget" ∷ "-nothing" ∷ "-hitcount" ∷ "-prepare" ∷ "-fieldactivate" ∷ []

abbrev pub ignored_display_types : List String
ignored_display_types =
    "upkeep" ∷ "t:" ∷ "-anim" ∷ "-hint" ∷ "-center" ∷ "-combine" ∷ "-waiting" ∷ "message"
    ∷ "-message" ∷ []

-- the branch of `init`
unfoldable pub parse_init : Option String → List String → ℤ → Parsed BattleEvent
parse_init none args ei = malformed
parse_init (some room_id) args ei = do
  guard (args == ("battle" ∷ [])) malformed_protocol_message
  ok (event_at ei (metadata (battle_init room_id)))

unfoldable pub ends_with : List ℕ → List ℕ → Bool
ends_with [] suffix = suffix == []
ends_with (c ∷ cs) suffix = (c ∷ cs) == suffix || ends_with cs suffix

-- the messages that end a battle by the timer or by a forfeit
unfoldable pub is_timer_message : List ℕ → Bool
is_timer_message lowered =
    ends_with lowered (codes " lost due to inactivity.")
    || ends_with lowered (codes " forfeited.")
    || lowered == codes "all players are inactive."

-- What is left after the other groups: the spacer, the timer messages and the display lines.
unfoldable pub parse_display : String → String → List String → ℤ → Parsed BattleEvent
parse_display payload wire_type args ei =
    if payload == "|"
    then ok (event_at ei (ignored_display "spacer"))
    else if wire_type == "-message" && is_timer_message (lower_codes (codes (join_with "|" args)))
    then err timer_or_forfeit
    else if contains ignored_display_types wire_type
    then ok (event_at ei (ignored_display wire_type))
    else err unknown_protocol_event

-- the tests of `parse_battle_line` on the wire type, after the one for `init`
unfoldable pub parse_groups : String → String → List String → ℤ → Parsed BattleEvent
unfolding parse_display
parse_groups payload wire_type args ei =
    if contains metadata_types wire_type
    then parse_metadata wire_type args ei
    else if contains preview_types wire_type
    then parse_preview wire_type args ei
    else if contains progress_types wire_type
    then parse_progress wire_type args ei
    else if contains pokemon_identity_types wire_type
    then parse_pokemon_identity wire_type args ei
    else if contains health_types wire_type
    then parse_health wire_type args ei
    else if contains status_types wire_type
    then parse_status wire_type args ei
    else if contains boost_types wire_type
    then parse_boost wire_type args ei
    else if contains field_types wire_type
    then parse_field wire_type args ei
    else if contains volatile_types wire_type
    then parse_volatile wire_type args ei
    else if contains item_ability_types wire_type
    then parse_item_ability wire_type args ei
    else if contains form_tera_types wire_type
    then parse_form_tera wire_type args ei
    else if contains evidence_types wire_type
    then parse_evidence wire_type args ei
    else parse_display payload wire_type args ei

unfoldable pub parse_wire : String → Option String → String → List String → ℤ → Parsed BattleEvent
unfolding parse_init parse_groups
parse_wire payload room_id wire_type args ei =
    if wire_type == "init"
    then parse_init room_id args ei
    else parse_groups payload wire_type args ei

-- `except (ValueError, IndexError, KeyError)`
unfoldable pub as_malformed : Parsed BattleEvent → Parsed BattleEvent
as_malformed (err (core e)) = malformed
as_malformed r = r

-- `parse_battle_line`
unfoldable pub parse_battle_line : String → ℤ → Option String → Parsed BattleEvent
unfolding as_malformed parse_wire
parse_battle_line payload event_index room_id =
    let (wire_type, args) = split_payload payload in
    as_malformed (parse_wire payload room_id wire_type args event_index)

-- `message or None`
abbrev some_unless_empty : String → Option String
some_unless_empty message = if message == "" then none else some message

abbrev timer_evidence : ℤ → String → String → BattleEvent
timer_evidence ei kind message =
    event_at ei (Events.evidence kind none none none (some_unless_empty message) [])

abbrev is_prefix : List ℕ → List ℕ → Bool
is_prefix [] s = true
is_prefix (c ∷ p) [] = false
is_prefix (c ∷ p) (d ∷ s) = c == d && is_prefix p s

-- `word in text`
unfoldable pub has_word : List ℕ → List ℕ → Bool
has_word word [] = is_prefix word []
has_word word (c ∷ cs) = is_prefix word (c ∷ cs) || has_word word cs

-- `parse_inactive_line`
unfoldable pub parse_inactive_line : String → ℤ → Parsed BattleEvent
parse_inactive_line payload event_index =
    let (wire_type, args) = split_payload payload in
    let message = join_with "|" args in
    let lowered = lower_codes (codes message) in
    if wire_type == "inactiveoff"
    then ok (timer_evidence event_index "timer_warning_cleared" message)
    else if wire_type == "inactive"
    then (if has_word (codes "forfeit") lowered || has_word (codes "lost due to inactivity") lowered
        then err timer_or_forfeit
        else ok (timer_evidence event_index "timer_warning" message))
    else err unknown_protocol_event
