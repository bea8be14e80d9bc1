-- ===== src/Session/Encoder.antt =====
-- packages/battlebelief-runtime/src/battlebelief_runtime/adapters/showdown_protocol/command_encoder.py:
-- the choice text of a submission.
use battle_belief.Base.{ℕ, String, Option, none, some, List, [], ◌∷◌, if◌then◌else◌}
unfoldable pub use battle_belief.Base.Text.{◌<>◌, digit, digits_of, decimal}
use battle_belief.Actions.{ActionKind, move, switch, revive, team, default, BattleSubmission}

-- `str(slot)` of a slot that may be missing
unfoldable pub slot_text : Option ℕ → String
slot_text none = "None"
slot_text (some slot) = decimal slot

-- `"".join(str(slot) for slot in team_order)`
unfoldable pub order_text : List ℕ → String
order_text [] = ""
order_text (slot ∷ slots) = decimal slot <> order_text slots

unfoldable pub encode_kind : ActionKind → BattleSubmission → String
encode_kind default s = "default"
encode_kind move s =
    let base = "move " <> slot_text s.slot in
    if s.terastallize then base <> " terastallize" else base
encode_kind switch s = "switch " <> slot_text s.slot
encode_kind revive s = "switch " <> slot_text s.slot
encode_kind team s = "team " <> order_text s.team_order

-- `encode_submission`; every kind has its case, so that the last line of it is not reached
unfoldable pub encode_submission : BattleSubmission → String
encode_submission s = encode_kind s.kind s
