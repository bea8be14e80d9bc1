-- ===== src/Session/Fields.antt =====
-- domain/records/public_projection.py and decision_record.py: the checks of the fields of a record.
use battle_belief.Base.{
  ℕ, zero, suc, String, Bool, true, false, ◌&&◌, ◌||◌, Option, none, some, List, [], ◌∷◌, leb, ◌==◌,
  nat_eq, if◌then◌else◌,
}
use battle_belief.Base.Text.{codes, starts_with}
use battle_belief.Actions.{RequestIdentity}
use battle_belief.Session.Records.{PendingTrace}

-- `_MAX_SAFE_INTEGER`
abbrev pub max_safe_integer : ℕ
max_safe_integer = 9007199254740991

abbrev pub is_hex_code : ℕ → Bool
is_hex_code c = leb b'0' c && leb c b'9' || leb b'a' c && leb c b'f'

-- `[0-9a-f]{n}`, to the end
unfoldable pub are_hex_codes : ℕ → List ℕ → Bool
are_hex_codes zero [] = true
are_hex_codes (suc n) (c ∷ cs) = is_hex_code c && are_hex_codes n cs
are_hex_codes _ _ = false

abbrev pub after_codes : ℕ → List ℕ → List ℕ
after_codes zero cs = cs
after_codes (suc n) [] = []
after_codes (suc n) (c ∷ cs) = after_codes n cs

-- `_DIGEST_RE.fullmatch(value)`, `^sha256:[0-9a-f]{64}$`
unfoldable pub is_digest : String → Bool
unfolding are_hex_codes
is_digest value = starts_with value "sha256:" && are_hex_codes 64 (after_codes 7 (codes value))

abbrev pub is_word_code : ℕ → Bool
is_word_code c = leb b'a' c && leb c b'z' || leb b'0' c && leb c b'9'

-- `[a-z0-9]+(?:[-_][a-z0-9]+)*` from here to the end, within a word or before one
unfoldable pub is_arm_text : Bool → List ℕ → Bool
is_arm_text within [] = within
is_arm_text within (c ∷ cs) =
    let word = is_arm_text true cs in
    let separated = is_arm_text false cs in
    if is_word_code c then word else within && ((c == b'-' || c == b'_') && separated)

-- `_ARM_ID_RE.fullmatch(value)`
unfoldable pub is_arm_id : String → Bool
unfolding is_arm_text
is_arm_id value = is_arm_text false (codes value)

-- `ResolvedDecisionRecordBinding`, of which a record checks the arm.
pub record ResolvedBinding : Type 0 where
  pub arm_id : String

-- `MeasurementRunContext`: what the session and its records read of it.
pub record MeasurementRunContext : Type 0 where
  pub run_context_digest : String
  pub battle_id_digest : String
  pub resolved_binding : Option ResolvedBinding

-- `PublicRequestIdentity.__post_init__`
unfoldable pub is_public : RequestIdentity → Bool
unfolding is_digest
is_public identity = leb identity.rqid max_safe_integer && is_digest identity.request_digest

-- the checks of `DecisionRecord.__post_init__` on the index, the identity, the digests and the arm
unfoldable pub are_valid_fields : MeasurementRunContext → ResolvedBinding → PendingTrace → Bool
unfolding is_public is_digest is_arm_id
are_valid_fields context binding pending =
    leb pending.decision_index max_safe_integer
    && (is_public pending.request.identity
        && (is_digest context.run_context_digest
            && (is_digest context.battle_id_digest
                && (is_digest pending.observed_state_digest
                    && (is_digest pending.safe_submission_set_digest
                        && is_arm_id binding.arm_id)))))

-- the same of a context that may have no binding, which the constructor refuses
abbrev pub fields_of_context : MeasurementRunContext → Option ResolvedBinding → PendingTrace → Bool
fields_of_context context none pending = false
fields_of_context context (some binding) pending = are_valid_fields context binding pending

abbrev pub fields_valid : Option MeasurementRunContext → PendingTrace → Bool
fields_valid none pending = false
fields_valid (some context) pending = fields_of_context context context.resolved_binding pending
