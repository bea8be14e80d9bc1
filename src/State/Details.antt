-- ===== src/State/Details.antt =====
-- domain/state/pokemon_view.py: the switch identity, the details without their tera type.
use Prim.Native.Char.{Char, code}
use battle_belief.Base.{String, true, false, ◌==◌, nat_eq, ◌&&◌, List, [], ◌∷◌, if◌then◌else◌}
use Prim.Native.String.{◌++◌ as ◌<>◌}
use battle_belief.Base.Text.{starts_with}

-- one more character in front of the first piece
unfoldable pub onto_first : Char → List String → List String
onto_first c [] = (String.◌∷◌ c String.[]) ∷ []
onto_first c (p ∷ ps) = (String.◌∷◌ c p) ∷ ps

-- `details.split(", ")`
unfoldable pub split_details : String → List String
split_details String.[] = String.[] ∷ []
split_details (String.◌∷◌ c String.[]) = (String.◌∷◌ c String.[]) ∷ []
split_details (String.◌∷◌ c (String.◌∷◌ d s)) = elim (code c == b',' && code d == b' ') [
  | true ↦ String.[] ∷ split_details s
  | false ↦ onto_first c (split_details (String.◌∷◌ d s))
]

-- `", ".join(parts)`
unfoldable pub join_details : List String → String
join_details [] = ""
join_details (p ∷ []) = p
join_details (p ∷ q ∷ ps) = p <> (", " <> join_details (q ∷ ps))

-- `[p for p in parts if not p.startswith("tera:")]`
unfoldable pub without_tera : List String → List String
without_tera [] = []
without_tera (p ∷ ps) = if starts_with p "tera:" then without_tera ps else p ∷ without_tera ps

unfoldable pub normalize_identity_details : String → String
normalize_identity_details details = join_details (without_tera (split_details details))
