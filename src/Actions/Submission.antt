-- ===== src/Actions/Submission.antt =====
-- domain/actions/submission.py and decision_request.py: the types, and the check that
-- `BattleSubmission.__post_init__` makes.
use Prim.Native.Char.{code}
use battle_belief.Base.{
  ℕ, suc, String, Bool, true, false, not, ◌&&◌, ◌||◌, Option, none, some, List, [], ◌∷◌, ok, ◌>>◌,
  guard, leb, ◌==◌, nat_eq, string_eq, contains, length, Eq, is_none, String-discrete,
  if◌then◌else◌,
}
use native.Mathlib.Decide.{ℕ_discrete}
use battle_belief.Errors.{Core, value_error}

pub data ActionKind : Type 0 where
  move switch revive team default : ActionKind

pub data ActionProvenance : Type 0 where
  explicit_request server_default : ActionProvenance

pub record RequestIdentity : Type 0 where
  pub room_id : String
  pub rqid : ℕ
  pub request_digest : String

pub record BattleSubmission : Type 0 where
  pub kind : ActionKind
  pub provenance : ActionProvenance
  pub slot : Option ℕ
  pub move_id : Option String
  pub terastallize : Bool
  pub team_order : List ℕ

unfoldable pub ActionKind-discrete : Discrete ActionKind
ActionKind-discrete = hlevel

instance unfoldable pub kind_eq : Eq ActionKind
kind_eq = record { dec = ActionKind-discrete }

unfoldable pub ActionProvenance-discrete : Discrete ActionProvenance
ActionProvenance-discrete = hlevel

instance unfoldable pub provenance_eq : Eq ActionProvenance
unfolding ActionProvenance-discrete
provenance_eq = record { dec = ActionProvenance-discrete }

unfoldable pub RequestIdentity-discrete : Discrete RequestIdentity
RequestIdentity-discrete = hlevel (ℕ_discrete, String-discrete)

instance unfoldable pub identity_eq : Eq RequestIdentity
identity_eq = record { dec = RequestIdentity-discrete }

unfoldable pub BattleSubmission-discrete : Discrete BattleSubmission
BattleSubmission-discrete =
    hlevel (ℕ_discrete, String-discrete, ActionKind-discrete, ActionProvenance-discrete)

instance unfoldable pub submission_eq : Eq BattleSubmission
submission_eq = record { dec = BattleSubmission-discrete }

pub record SafeSubmissionSet : Type 0 where
  pub request_identity : RequestIdentity
  pub submissions : List BattleSubmission

pub data RequestKind : Type 0 where
  move_request forced_switch revival team_preview wait : RequestKind

pub record DecisionRequest : Type 0 where
  pub identity : RequestIdentity
  pub kind : RequestKind
  pub side_id : String
  pub team_member_count : ℕ
  pub active_identity : Option String
  pub safe_submissions : SafeSubmissionSet
  pub is_update : Bool

abbrev is_id_code : ℕ → Bool
is_id_code c = leb b'a' c && leb c b'z' || leb b'0' c && leb c b'9'

-- `[a-z0-9]*` from here to the end
unfoldable pub all_id_codes : String → Bool
all_id_codes String.[] = true
all_id_codes (String.◌∷◌ c s) = is_id_code (code c) && all_id_codes s

unfoldable pub char_count : String → ℕ
char_count String.[] = 0
char_count (String.◌∷◌ c s) = suc (char_count s)

-- `_MOVE_ID_RE.fullmatch(move_id)`, `^[a-z0-9]{1,100}$`
unfoldable pub is_move_id : String → Bool
is_move_id s = all_id_codes s && (leb 1 (char_count s) && leb (char_count s) 100)

-- `set(order)`, as a list
unfoldable pub distinct : List ℕ → List ℕ
distinct [] = []
distinct (x ∷ xs) = let rest = distinct xs in if contains rest x then rest else x ∷ rest

abbrev pub in_range : ℕ → ℕ → Option ℕ → Bool
in_range low high none = false
in_range low high (some slot) = leb low slot && leb slot high

abbrev pub all_slots : List ℕ → Bool
all_slots [] = true
all_slots (slot ∷ slots) = leb 1 slot && leb slot 6 && all_slots slots

abbrev pub is_empty {ℓ} : {A : Type ℓ} → List A → Bool
is_empty [] = true
is_empty (x ∷ xs) = false

abbrev pub id_or_none : Option String → Bool
id_or_none none = true
id_or_none (some move_id) = is_move_id move_id

-- `if not self.move_id`
abbrev pub has_move_id : Option String → Bool
has_move_id none = false
has_move_id (some move_id) = not (move_id == "")

-- the branch of `__post_init__` for each kind
unfoldable pub check_kind : ActionKind → BattleSubmission → Core (Unit {0})
check_kind move s = do
  guard (in_range 1 4 s.slot) value_error
  guard (has_move_id s.move_id) value_error
  guard (is_empty s.team_order) value_error
  guard (s.provenance == explicit_request) value_error
check_kind switch s = do
  guard (in_range 1 6 s.slot) value_error
  guard (not s.terastallize) value_error
  guard (is_none s.move_id) value_error
  guard (is_empty s.team_order) value_error
  guard (s.provenance == explicit_request) value_error
check_kind revive s = do
  guard (in_range 1 6 s.slot) value_error
  guard (not s.terastallize) value_error
  guard (is_none s.move_id) value_error
  guard (is_empty s.team_order) value_error
  guard (s.provenance == explicit_request) value_error
check_kind team s = do
  guard (not (is_empty s.team_order)) value_error
  guard (length (distinct s.team_order) == length s.team_order && all_slots s.team_order)
      value_error
  guard (is_none s.slot) value_error
  guard (not s.terastallize) value_error
  guard (is_none s.move_id) value_error
  guard (s.provenance == explicit_request) value_error
check_kind default s = do
  guard (s.provenance == server_default) value_error
  guard (is_none s.slot) value_error
  guard (is_none s.move_id) value_error
  guard (not s.terastallize) value_error
  guard (is_empty s.team_order) value_error

-- `BattleSubmission(...)`: the submission, if `__post_init__` lets it pass
unfoldable pub make_submission : BattleSubmission → Core BattleSubmission
make_submission s = do guard (id_or_none s.move_id) value_error; check_kind s.kind s; ok s
