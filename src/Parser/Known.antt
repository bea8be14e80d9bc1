-- ===== src/Parser/Known.antt =====
-- parser.py and wire_types.py: the wire types that the dispatch knows.
use battle_belief.Base.{
  ℤ, String, Bool, true, false, ◌||◌, ◌&&◌, Option, none, some, List, [], ◌∷◌, ◌++◌, err, contains,
  ◌==◌, nat_eq, string_eq, list_eq, inl, inr, ◌≡◌, refl, ap, ◌∙◌, sym, arith, if◌then◌else◌,
  Bool-cases, if_intro,
}
use battle_belief.Base.Text.{codes, lower_codes}
use battle_belief.Events.{BattleEvent}
use battle_belief.Failures.{unknown_protocol_event}
use battle_belief.Parser.Words.{join_with}
use battle_belief.Parser.Idents.{Parsed}
use battle_belief.Parser.Lines.{
  battle_event_types, metadata_types, preview_types, progress_types, pokemon_identity_types,
  health_types, status_types, boost_types, field_types, volatile_types, item_ability_types,
  form_tera_types, evidence_types, ignored_display_types, parse_init, is_timer_message,
  parse_display, parse_groups, parse_wire,
}
use battle_belief.Parser.Yields.{Yields}
use battle_belief.Parser.Sound.{IsParsedAt}
use battle_belief.Parser.Sound.Metadata.{
  parse_metadata-Yields, parse_preview-Yields, parse_progress-Yields, parse_health-Yields,
  parse_status-Yields,
}
use battle_belief.Parser.Sound.Pokemon.{parse_pokemon_identity-Yields}
use battle_belief.Parser.Sound.Boosts.{parse_boost-Yields}
use battle_belief.Parser.Sound.Effects.{
  parse_field-Yields, parse_volatile-Yields, parse_item_ability-Yields, parse_form_tera-Yields,
  parse_evidence-Yields,
}

-- One list for each test of the dispatch after the first.
abbrev groups : List (List String)
groups =
    metadata_types ∷ preview_types ∷ progress_types ∷ pokemon_identity_types ∷ health_types
    ∷ status_types ∷ boost_types ∷ field_types ∷ volatile_types ∷ item_ability_types
    ∷ form_tera_types ∷ evidence_types ∷ ignored_display_types ∷ []

abbrev flatten : List (List String) → List String
flatten [] = []
flatten (g ∷ gs) = g ++ flatten gs

abbrev in_any : List (List String) → String → Bool
in_any [] w = false
in_any (g ∷ gs) w = contains g w || in_any gs w

or_assoc : (a b c : Bool) → ((a || b) || c) ≡ (a || (b || c))
or_assoc a b c = ground arith

contains-append :
    (xs ys : List String) (w : String) → contains (xs ++ ys) w ≡ (contains xs w || contains ys w)
contains-append [] ys w = refl
contains-append (x ∷ xs) ys w =
    ap (λ b. w == x || b) (contains-append xs ys w)
    ∙ sym (or_assoc (w == x) (contains xs w) (contains ys w))

contains-flatten : (gs : List (List String)) (w : String) → contains (flatten gs) w ≡ in_any gs w
contains-flatten [] w = refl
contains-flatten (g ∷ gs) w =
    contains-append g (flatten gs) w ∙ ap (λ b. contains g w || b) (contains-flatten gs w)

battle_event_types-groups :
    (w : String) → contains battle_event_types w ≡ (w == "init" || in_any groups w)
battle_event_types-groups w = ap (λ b. w == "init" || b) (contains-flatten groups w)

-- One test of the dispatch, where the wire type is known to this test or to a later one.
module _ {A : Type 0} (P : A → Type 0) where
  here_or_later :
      (b later spacer : Bool) (m rest : Parsed A)
      → (b ≡ true → Yields P m)
      → ((later || spacer) ≡ true → Yields P rest)
      → ((b || later) || spacer) ≡ true
      → Yields P (if b then m else rest)
  here_or_later true later spacer m rest here there h = here refl
  here_or_later false later spacer m rest here there h = there h

-- One test of the dispatch, where neither it nor a later one knows the wire type.
not_here :
    {A : Type 0} (b later spacer : Bool) (m rest result : A)
    → ((later || spacer) ≡ false → rest ≡ result)
    → ((b || later) || spacer) ≡ false
    → (if b then m else rest) ≡ result
not_here true later spacer m rest result there h = cc
not_here false later spacer m rest result there h = there h

-- Whether the dispatch knows a line.
abbrev pub is_known : String → String → Bool
is_known payload wire_type = contains battle_event_types wire_type || payload == "|"

parse_init-Yields :
    (room_id : Option String) (args : List String) (ei : ℤ)
    → Yields (IsParsedAt ei) (parse_init room_id args ei)
unfolding parse_init
parse_init-Yields none args ei = refl
parse_init-Yields (some room_id) args ei = ground arith

module _ (payload wire_type : String) (args : List String) (ei : ℤ) where
  parse_display-Yields :
      ((contains ignored_display_types wire_type || false) || payload == "|") ≡ true
      → Yields (IsParsedAt ei) (parse_display payload wire_type args ei)
  unfolding parse_display
  parse_display-Yields h = elim (Bool-cases (payload == "|")) [
    | inl spacer ↦ rw spacer (refl, tt)
    | inr line ↦
        let ignored : contains ignored_display_types wire_type ≡ true = ground arith in
        rw line (
          if_intro (Yields (IsParsedAt ei))
            (wire_type == "-message" && is_timer_message (lower_codes (codes (join_with "|" args))))
            refl (rw ignored (refl, tt)))
  ]

  parse_display-unknown :
      ((contains ignored_display_types wire_type || false) || payload == "|") ≡ false
      → parse_display payload wire_type args ei ≡ err unknown_protocol_event
  unfolding parse_display
  parse_display-unknown h = ground arith

module _ (payload : String) (room_id : Option String) (wire_type : String) (args : List String)
    (ei : ℤ) where
  groups-Yields :
      (in_any groups wire_type || payload == "|") ≡ true
      → Yields (IsParsedAt ei) (parse_groups payload wire_type args ei)
  unfolding parse_groups
  groups-Yields =
      let P = IsParsedAt ei in
      let spacer = payload == "|" in
      here_or_later P (contains metadata_types wire_type) _ spacer _ _
        (parse_metadata-Yields wire_type args ei)
        (here_or_later P (contains preview_types wire_type) _ spacer _ _
          (parse_preview-Yields wire_type args ei)
          (here_or_later P (contains progress_types wire_type) _ spacer _ _
            (parse_progress-Yields wire_type args ei)
            (here_or_later P (contains pokemon_identity_types wire_type) _ spacer _ _
              (parse_pokemon_identity-Yields wire_type args ei)
              (here_or_later P (contains health_types wire_type) _ spacer _ _
                (λ known. parse_health-Yields wire_type args ei)
                (here_or_later P (contains status_types wire_type) _ spacer _ _
                  (λ known. parse_status-Yields wire_type args ei)
                  (here_or_later P (contains boost_types wire_type) _ spacer _ _
                    (parse_boost-Yields wire_type args ei)
                    (here_or_later P (contains field_types wire_type) _ spacer _ _
                      (parse_field-Yields wire_type args ei)
                      (here_or_later P (contains volatile_types wire_type) _ spacer _ _
                        (λ known. parse_volatile-Yields wire_type args ei)
                        (here_or_later P (contains item_ability_types wire_type) _ spacer _ _
                          (λ known. parse_item_ability-Yields wire_type args ei)
                          (here_or_later P (contains form_tera_types wire_type) _ spacer _ _
                            (parse_form_tera-Yields wire_type args ei)
                            (here_or_later P (contains evidence_types wire_type) _ spacer _ _
                              (λ known. parse_evidence-Yields wire_type args ei)
                              (parse_display-Yields payload wire_type args ei))))))))))))

  groups-unknown :
      (in_any groups wire_type || payload == "|") ≡ false
      → parse_groups payload wire_type args ei ≡ err unknown_protocol_event
  unfolding parse_groups
  groups-unknown =
      let unknown : Parsed BattleEvent = err unknown_protocol_event in
      let spacer = payload == "|" in
      not_here (contains metadata_types wire_type) _ spacer _ _ unknown (
        not_here (contains preview_types wire_type) _ spacer _ _ unknown (
          not_here (contains progress_types wire_type) _ spacer _ _ unknown (
            not_here (contains pokemon_identity_types wire_type) _ spacer _ _ unknown (
              not_here (contains health_types wire_type) _ spacer _ _ unknown (
                not_here (contains status_types wire_type) _ spacer _ _ unknown (
                  not_here (contains boost_types wire_type) _ spacer _ _ unknown (
                    not_here (contains field_types wire_type) _ spacer _ _ unknown (
                      not_here (contains volatile_types wire_type) _ spacer _ _ unknown (
                        not_here (contains item_ability_types wire_type) _ spacer _ _ unknown (
                          not_here (contains form_tera_types wire_type) _ spacer _ _ unknown (
                            not_here (contains evidence_types wire_type) _ spacer _ _ unknown
                              (parse_display-unknown payload wire_type args ei))))))))))))

  known_groups :
      is_known payload wire_type
      ≡ ((wire_type == "init" || in_any groups wire_type) || payload == "|")
  known_groups = ap (λ b. b || payload == "|") (battle_event_types-groups wire_type)

  pub parse_wire-Yields :
      is_known payload wire_type ≡ true
      → Yields (IsParsedAt ei) (parse_wire payload room_id wire_type args ei)
  unfolding parse_wire
  parse_wire-Yields h =
      here_or_later (IsParsedAt ei) (wire_type == "init") _ (payload == "|") _ _
        (λ init. parse_init-Yields room_id args ei) groups-Yields (sym known_groups ∙ h)

  pub parse_wire-unknown :
      is_known payload wire_type ≡ false
      → parse_wire payload room_id wire_type args ei ≡ err unknown_protocol_event
  unfolding parse_wire
  parse_wire-unknown h =
      not_here (wire_type == "init") _ (payload == "|") _ _ (err unknown_protocol_event)
        groups-unknown (sym known_groups ∙ h)
