-- ===== src/RequestReader/Sound.antt =====
-- request_reader.py: what `read_request` returns.
use battle_belief.Base.{
  suc, ◌≤◌, leb, String, true, ◌&&◌, ◌||◌, List, [], ◌∷◌, length, ok, Ensures, Ensures-bind,
  Ensures-guard, Ensures-ok, ◌==◌, ==→eq, nat_eq, string_eq, ◌⊎◌, inl, inr, ◌≡◌, refl, ap, arith,
  Bool-cases,
}
use battle_belief.Base.Int.{int_eq}
use battle_belief.Actions.{kind_eq}
use battle_belief.Parser.{Parsed}
use battle_belief.RequestReader.JsonValues.{
  Json, Fields, find_key, get_key, require_list, require_object, require_string, require_rqid,
  optional_bool, check_key, map_parsed,
}
use battle_belief.RequestReader.Side.{
  RequestPokemon, count_active, parse_request_pokemon, parse_side, first_active,
}
use battle_belief.RequestReader.Active.{parse_force_switch}
use battle_belief.RequestReader.Reader.{
  nickname_of, check_active, read_payload, Loaded, loaded, decode_error, load_failed, after_loads,
  read_request,
}
use battle_belief.RequestReader.Readers.{IsReadRequest, read_kind-IsReadRequest}

length-map_parsed :
    {A B : Type 0} (f : A → Parsed B) (xs : List A)
    → Ensures (λ ys. length ys ≡ length xs) (map_parsed f xs)
unfolding map_parsed
length-map_parsed f [] = refl
length-map_parsed f (x ∷ xs) =
    Ensures-bind (λ ys. length ys ≡ suc (length xs)) (f x) _
      λ y _.
        Ensures-bind (λ ys. length ys ≡ suc (length xs)) (map_parsed f xs) _
          λ ys e. ap suc (
            Ensures-ok (λ ys. length ys ≡ length xs) (map_parsed f xs) ys e
              (length-map_parsed f xs))

-- The members of a side, and its id.
abbrev IsSideOf : String × List RequestPokemon → Type 0
IsSideOf (side_id, members) =
    ((side_id ≡ "p1") ⊎ (side_id ≡ "p2")) × (1 ≤ length members) × (length members ≤ 6)

one_of :
    (side_id : String)
    → (side_id == "p1" || side_id == "p2") ≡ true
    → (side_id ≡ "p1") ⊎ (side_id ≡ "p2")
one_of side_id h = elim (Bool-cases (side_id == "p1")) [
  | inl first ↦ inl (==→eq side_id "p1" first)
  | inr other ↦ inr (==→eq side_id "p2" (ground arith))
]

parse_side-IsSideOf : (value : Json) → Ensures IsSideOf (parse_side value)
unfolding parse_side
parse_side-IsSideOf value = Ensures-bind IsSideOf (require_object value) _ λ fields _.
    Ensures-bind IsSideOf (require_string (get_key fields "id")) _ λ side_id _.
      Ensures-guard IsSideOf (side_id == "p1" || side_id == "p2") _ _ λ known.
        Ensures-bind IsSideOf (check_key require_string fields "name") _ λ _ _.
          Ensures-bind IsSideOf (require_list (get_key fields "pokemon")) _ λ values _.
            Ensures-guard IsSideOf (leb 1 (length values) && leb (length values) 6) _ _ λ size.
              Ensures-bind IsSideOf (map_parsed (parse_request_pokemon side_id) values) _
                λ members e.
                  Ensures-guard IsSideOf (leb (count_active members) 1) _ (ok (side_id, members))
                    λ _.
                      let count : length members ≡ length values =
                        Ensures-ok _ (map_parsed (parse_request_pokemon side_id) values) members e
                          (length-map_parsed (parse_request_pokemon side_id) values) in
                      (one_of side_id known, ground arith, ground arith)

read_payload-IsReadRequest :
    (digest : Fields → String) (room_id : String) (payload : Fields)
    → Ensures (IsReadRequest room_id) (read_payload digest room_id payload)
unfolding read_payload
read_payload-IsReadRequest digest room_id payload =
    let P = IsReadRequest room_id in
    Ensures-bind P (require_rqid payload) _ λ rqid _.
      Ensures-bind P (optional_bool payload "wait") _ λ is_wait _.
        Ensures-bind P (optional_bool payload "teamPreview") _ λ preview _.
          Ensures-bind P (optional_bool payload "update") _ λ update _.
            Ensures-bind P (parse_force_switch payload) _ λ force_switch _.
              Ensures-bind P (check_active (find_key payload "active")) _ λ _ _.
                Ensures-bind P (parse_side (get_key payload "side")) _ λ (side_id, members) e.
                  Ensures-bind P (nickname_of (first_active members)) _ λ active_identity _.
                    let known =
                      Ensures-ok IsSideOf (parse_side (get_key payload "side")) (side_id, members) e
                        (parse_side-IsSideOf (get_key payload "side")) in
                    read_kind-IsReadRequest room_id _
                      (record { room = refl; side = known.0; size = (known.1, known.2) }) is_wait
                      preview (first_active members) force_switch payload

-- Whatever the payload, a request that is read has the room it was read for, is on the side p1 or
-- p2, has a team of one to six and submissions made for it alone. They are well-formed, of the kinds
-- that the request allows, and, in a team preview, orders of the whole team; a request to wait has
-- none of them, and every other request has the default.
pub read_request-IsReadRequest :
    (loads : String → Loaded) (digest : Fields → String) (room_id payload : String)
    → Ensures (IsReadRequest room_id) (read_request loads digest room_id payload)
unfolding read_request
read_request-IsReadRequest loads digest room_id payload = each (loads payload)
  where
    each : (r : Loaded) → Ensures (IsReadRequest room_id) (after_loads digest room_id r)
    each decode_error = tt
    each (load_failed e) = tt
    each (loaded data_value) =
        Ensures-bind (IsReadRequest room_id) (require_object data_value) _
          λ fields _. read_payload-IsReadRequest digest room_id fields
