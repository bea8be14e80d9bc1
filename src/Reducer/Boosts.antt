-- ===== src/Reducer/Boosts.antt =====
-- reducer.py: the seven boosts of a pokemon.
use battle_belief.Base.{
  ℕ, suc, ℤ, pos, negsuc, ◌+ℤ◌, min_ℤ, max_ℤ, String, Option, none, some, List, [], ◌∷◌, ◌++◌, map,
  ok, err, ◌>>=◌, ◌==◌, string_eq, contains, get_elem?, set, take, drop, if◌then◌else◌,
}
use battle_belief.Errors.{Core, reducer_invariant, unknown_scope, value_error, index_error}
use battle_belief.State.{boost_stats, zero_boosts}

abbrev pub next_index : Core ℕ → Core ℕ
next_index (ok i) = ok (suc i)
next_index (err e) = err e

-- `names.index(stat)`
unfoldable pub index_of : List String → String → Core ℕ
index_of [] stat = err value_error
index_of (name ∷ names) stat = if name == stat then ok 0 else next_index (index_of names stat)

abbrev pub or_index_error : Option ℤ → Core ℤ
or_index_error none = err index_error
or_index_error (some b) = ok b

-- `boosts[idx]`
unfoldable pub boost_at : List ℤ → ℕ → Core ℤ
boost_at boosts i = or_index_error (get_elem? boosts i)

-- `(*boosts[:idx], value, *boosts[idx + 1 :])`
unfoldable pub with_boost : List ℤ → ℕ → ℤ → List ℤ
with_boost boosts i value = take i boosts ++ value ∷ drop (suc i) boosts

-- `max(-6, min(6, value))`
unfoldable pub clamp_boost : ℤ → ℤ
clamp_boost value = max_ℤ (negsuc 5) (min_ℤ (pos 6) value)

unfoldable pub apply_boost_delta : List ℤ → String → ℤ → Core (List ℤ)
apply_boost_delta boosts stat delta = do
  i ← index_of boost_stats stat
  old ← boost_at boosts i
  ok (with_boost boosts i (clamp_boost (old +ℤ delta)))

unfoldable pub set_boost : List ℤ → String → ℤ → Core (List ℤ)
set_boost boosts stat value = do
  i ← index_of boost_stats stat
  ok (with_boost boosts i (clamp_boost value))

unfoldable pub clear_boosts : List ℤ → String → Core (List ℤ)
clear_boosts boosts scope =
    if scope == "all"
    then ok zero_boosts
    else if scope == "positive"
    then ok (map (λ b. min_ℤ b (pos 0)) boosts)
    else if scope == "negative"
    then ok (map (λ b. max_ℤ b (pos 0)) boosts)
    else if contains boost_stats scope
    then (do i ← index_of boost_stats scope; ok (with_boost boosts i (pos 0)))
    else err (reducer_invariant (unknown_scope scope))

-- The loop of `BoostsSwapped` over the two lists.
unfoldable pub swap_boosts : List String → List ℤ → List ℤ → Core (List ℤ × List ℤ)
swap_boosts [] src tgt = ok (src, tgt)
swap_boosts (stat ∷ stats) src tgt = do
  i ← index_of boost_stats stat
  b ← boost_at tgt i
  a ← boost_at src i
  swap_boosts stats (set src i b) (set tgt i a)

-- The loop of `BoostsCopied`.
unfoldable pub copy_boosts : List String → List ℤ → List ℤ → Core (List ℤ)
copy_boosts [] src tgt = ok tgt
copy_boosts (stat ∷ stats) src tgt = do
  i ← index_of boost_stats stat
  a ← boost_at src i
  old ← boost_at tgt i
  copy_boosts stats src (set tgt i a)
