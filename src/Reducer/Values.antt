-- ===== src/Reducer/Values.antt =====
-- reducer.py: the validity of hit points, boosts and intervals.
use mathlib.Core.List.{append-nil}
use battle_belief.Base.{
  ℕ, zero, suc, ◌<◌, ℤ, pos, negsuc, ◌+ℤ◌, ◌≤ℤ◌, neg_ℤ, min_ℤ, max_ℤ, String, Bool, true, false,
  Option, none, some, List, [], ◌∷◌, ◌++◌, map, ◌≡◌, ok, err, ◌>>=◌, >>=-eq-ok, subst, ◌==◌,
  string_eq, contains, if_intro, get_last?, length, get_elem?, set, arith, ap, refl, ◌∙◌,
  length-map, length-set, All-set, All-get, All-map,
}
use battle_belief.Base.Int.{clamp_bounds}
use battle_belief.Errors.{Core}
use battle_belief.State.{
  HpToken, HpObservation, HpPrecision, EvidenceInterval, hp_observation, boost_stats, zero_boosts,
}
use battle_belief.Reducer.Lookup.{precision_of, token_to_observation}
use battle_belief.Reducer.Boosts.{
  index_of, boost_at, with_boost, clamp_boost, apply_boost_delta, set_boost, clear_boosts,
  swap_boosts, copy_boosts,
}
use battle_belief.Reducer.Conditions.{
  is_suppression, close_interval, close_open_interval, open_interval,
  end_ability_suppression_on_switch_out,
}
use battle_belief.Reducer.Valid.{IsValidHp, IsTimeline, IsBoost, AreBoosts}

pub hp_observation-IsValidHp :
    (current maximum : ℤ) (precision : HpPrecision) (fainted : Bool) (hp : HpObservation)
    → hp_observation current maximum precision fainted ≡ ok hp
    → IsValidHp hp × (hp.fainted ≡ fainted)
unfolding hp_observation
hp_observation-IsValidHp current maximum precision fainted hp h = ground arith

pub token-IsValidHp :
    (token : HpToken) (side_id : String) (our_side : Option String) (hp : HpObservation)
    → token_to_observation token side_id our_side ≡ ok hp
    → IsValidHp hp × (hp.fainted ≡ token.fainted)
unfolding token_to_observation
token-IsValidHp token side_id our_side hp h =
    let precision = precision_of token side_id our_side in
    ground (
      arith,
      hp_observation-IsValidHp (pos 0) (max_ℤ token.maximum (pos 1)) precision true hp,
      hp_observation-IsValidHp token.current token.maximum precision false hp,
    )

pub clamp_boost-IsBoost : (b : ℤ) → IsBoost (clamp_boost b)
unfolding clamp_boost
clamp_boost-IsBoost b = clamp_bounds (negsuc 5) (pos 6) b (omega arith)

-- Two ways to write one entry of a list agree inside it.
with_boost-eq-set :
    (boosts : List ℤ) (i : ℕ) (v : ℤ) → i < length boosts → with_boost boosts i v ≡ set boosts i v
unfolding with_boost
with_boost-eq-set [] i v h = absurd (omega arith)
with_boost-eq-set (b ∷ bs) zero v h = refl
with_boost-eq-set (b ∷ bs) (suc i) v h = ap (λ r. b ∷ r) (with_boost-eq-set bs i v (omega arith))

index_of-lt :
    (names : List String) (stat : String) (i : ℕ) → index_of names stat ≡ ok i → i < length names
unfolding index_of
index_of-lt [] stat i h = cc
index_of-lt (n ∷ ns) stat zero h = omega arith
index_of-lt (n ∷ ns) stat (suc i) h = ground (arith, index_of-lt ns stat i)

boost_at-eq :
    (boosts : List ℤ) (i : ℕ) (b : ℤ) → boost_at boosts i ≡ ok b → get_elem? boosts i ≡ some b
unfolding boost_at
boost_at-eq boosts i b h = ground arith

set-AreBoosts :
    (boosts : List ℤ) (i : ℕ) (v : ℤ) → AreBoosts boosts → IsBoost v → AreBoosts (set boosts i v)
set-AreBoosts boosts i v h b = (length-set boosts i v ∙ h.0, All-set IsBoost boosts i v h.1 b)

get_elem?-lt : (boosts : List ℤ) (i : ℕ) (b : ℤ) → get_elem? boosts i ≡ some b → i < length boosts
get_elem?-lt [] i b h = cc
get_elem?-lt (x ∷ xs) zero b h = omega arith
get_elem?-lt (x ∷ xs) (suc i) b h = omega (arith, get_elem?-lt xs i b h)

with_boost-AreBoosts :
    (boosts : List ℤ) (stat : String) (i : ℕ) (v : ℤ)
    → index_of boost_stats stat ≡ ok i
    → AreBoosts boosts
    → IsBoost v
    → AreBoosts (with_boost boosts i v)
with_boost-AreBoosts boosts stat i v e h b =
    rw (with_boost-eq-set boosts i v (omega (arith, index_of-lt boost_stats stat i e)))
      (set-AreBoosts boosts i v h b)

-- validity under a result
abbrev pub AreBoosts? : Core (List ℤ) → Type 0
AreBoosts? (ok boosts) = AreBoosts boosts
AreBoosts? (err e) = Unit

pub apply_boost_delta-AreBoosts :
    (boosts : List ℤ) (stat : String) (amount : ℤ) (new : List ℤ)
    → AreBoosts boosts
    → apply_boost_delta boosts stat amount ≡ ok new
    → AreBoosts new
unfolding apply_boost_delta
apply_boost_delta-AreBoosts boosts stat amount new h e =
    let (i, ei, rest) = >>=-eq-ok (index_of boost_stats stat) _ e in
    let (old, eo, last) = >>=-eq-ok (boost_at boosts i) _ rest in
    subst (λ (r : Core (List ℤ)). AreBoosts? r) last
      (with_boost-AreBoosts boosts stat i (clamp_boost (old +ℤ amount)) ei h
        (clamp_boost-IsBoost _))

pub set_boost-AreBoosts :
    (boosts : List ℤ) (stat : String) (amount : ℤ) (new : List ℤ)
    → AreBoosts boosts
    → set_boost boosts stat amount ≡ ok new
    → AreBoosts new
unfolding set_boost
set_boost-AreBoosts boosts stat amount new h e =
    let (i, ei, last) = >>=-eq-ok (index_of boost_stats stat) _ e in
    subst (λ (r : Core (List ℤ)). AreBoosts? r) last
      (with_boost-AreBoosts boosts stat i (clamp_boost amount) ei h (clamp_boost-IsBoost _))

map-AreBoosts :
    (f : ℤ → ℤ)
    → ((b : ℤ) → IsBoost b → IsBoost (f b))
    → (boosts : List ℤ) → AreBoosts boosts
    → AreBoosts (map f boosts)
map-AreBoosts f keep boosts h =
    (length-map f boosts ∙ h.0, All-map IsBoost IsBoost f keep boosts h.1)

neg_ℤ-IsBoost : (b : ℤ) → IsBoost b → IsBoost (neg_ℤ b)
neg_ℤ-IsBoost b h = ground arith

pub inverted-AreBoosts : (boosts : List ℤ) → AreBoosts boosts → AreBoosts (map neg_ℤ boosts)
inverted-AreBoosts = map-AreBoosts neg_ℤ neg_ℤ-IsBoost

min-IsBoost : (b : ℤ) → IsBoost b → IsBoost (min_ℤ b (pos 0))
min-IsBoost b h = ground arith

max-IsBoost : (b : ℤ) → IsBoost b → IsBoost (max_ℤ b (pos 0))
max-IsBoost b h = ground arith

pub zero_boosts-AreBoosts : AreBoosts zero_boosts
zero_boosts-AreBoosts = omega arith

cleared_stat-AreBoosts :
    (boosts : List ℤ) (scope : String)
    → AreBoosts boosts
    → AreBoosts? (index_of boost_stats scope >>= λ i. ok (with_boost boosts i (pos 0)))
cleared_stat-AreBoosts boosts scope h = go (index_of boost_stats scope) refl
  where
    go :
        (r : Core ℕ)
        → index_of boost_stats scope ≡ r
        → AreBoosts? (r >>= λ i. ok (with_boost boosts i (pos 0)))
    go (ok i) e = with_boost-AreBoosts boosts scope i (pos 0) e h (omega arith)
    go (err e) _ = tt

clear_boosts-AreBoosts? :
    (boosts : List ℤ) (scope : String) → AreBoosts boosts → AreBoosts? (clear_boosts boosts scope)
unfolding clear_boosts
clear_boosts-AreBoosts? boosts scope h =
    if_intro AreBoosts? (scope == "all") zero_boosts-AreBoosts (
      if_intro AreBoosts? (scope == "positive")
        (map-AreBoosts (λ b. min_ℤ b (pos 0)) min-IsBoost boosts h)
        (if_intro AreBoosts? (scope == "negative")
          (map-AreBoosts (λ b. max_ℤ b (pos 0)) max-IsBoost boosts h)
          (if_intro AreBoosts? (contains boost_stats scope) (cleared_stat-AreBoosts boosts scope h)
            tt)))

pub clear_boosts-AreBoosts :
    (boosts : List ℤ) (scope : String) (new : List ℤ)
    → AreBoosts boosts
    → clear_boosts boosts scope ≡ ok new
    → AreBoosts new
clear_boosts-AreBoosts boosts scope new h e =
    subst (λ (r : Core (List ℤ)). AreBoosts? r) e (clear_boosts-AreBoosts? boosts scope h)

abbrev ArePairs? : Core (List ℤ × List ℤ) → Type 0
ArePairs? (ok (src, tgt)) = AreBoosts src × AreBoosts tgt
ArePairs? (err e) = Unit

pub swap_boosts-AreBoosts :
    (stats : List String) (src tgt src' tgt' : List ℤ)
    → AreBoosts src
    → AreBoosts tgt
    → swap_boosts stats src tgt ≡ ok (src', tgt')
    → AreBoosts src' × AreBoosts tgt'
unfolding swap_boosts
swap_boosts-AreBoosts [] src tgt src' tgt' hs ht e =
    subst (λ (r : Core (List ℤ × List ℤ)). ArePairs? r) e (hs, ht)
swap_boosts-AreBoosts (stat ∷ stats) src tgt src' tgt' hs ht e =
    let (i, ei, r1) = >>=-eq-ok (index_of boost_stats stat) _ e in
    let (b, eb, r2) = >>=-eq-ok (boost_at tgt i) _ r1 in
    let (a, ea, r3) = >>=-eq-ok (boost_at src i) _ r2 in
    swap_boosts-AreBoosts stats (set src i b) (set tgt i a) src' tgt'
      (set-AreBoosts src i b hs (All-get IsBoost tgt i b (boost_at-eq tgt i b eb) ht.1))
      (set-AreBoosts tgt i a ht (All-get IsBoost src i a (boost_at-eq src i a ea) hs.1)) r3

pub copy_boosts-AreBoosts :
    (stats : List String) (src tgt new : List ℤ)
    → AreBoosts src
    → AreBoosts tgt
    → copy_boosts stats src tgt ≡ ok new
    → AreBoosts new
unfolding copy_boosts
copy_boosts-AreBoosts [] src tgt new hs ht e = subst (λ (r : Core (List ℤ)). AreBoosts? r) e ht
copy_boosts-AreBoosts (stat ∷ stats) src tgt new hs ht e =
    let (i, ei, r1) = >>=-eq-ok (index_of boost_stats stat) _ e in
    let (a, ea, r2) = >>=-eq-ok (boost_at src i) _ r1 in
    let (old, eo, r3) = >>=-eq-ok (boost_at tgt i) _ r2 in
    copy_boosts-AreBoosts stats src (set tgt i a) new hs
      (set-AreBoosts tgt i a ht (All-get IsBoost src i a (boost_at-eq src i a ea) hs.1)) r3

-- Closing the open interval at `now` leaves a timeline in which every interval has an end, so that
-- what starts at `now` may follow.
pub close_open_interval-IsTimeline :
    (start before now : ℤ) (l tail : List EvidenceInterval)
    → before ≤ℤ now
    → IsTimeline start before l
    → ((s : ℤ) → s ≤ℤ now → IsTimeline s now tail)
    → IsTimeline start now (close_open_interval l now ++ tail)
unfolding close_open_interval
close_open_interval-IsTimeline start before now [] tail le h t = t start (omega arith)
close_open_interval-IsTimeline start before now (iv ∷ rest) tail le h t =
    (elim iv.valid_until
        as (λ u.
          IsTimeline start before ((record iv { valid_until = u }) ∷ rest)
          → IsTimeline start now
              (map (close_interval now) ((record iv { valid_until = u }) ∷ rest) ++ tail)) [
                | none ↦ λ k. (k.0, (omega arith, rw k.1.1 (t now (omega arith))))
                | some end ↦ λ k. (
                  k.0,
                  (k.1.0, close_open_interval-IsTimeline end before now rest tail le k.1.1 t),
                )
              ])
      h

-- Opening an interval at `now` leaves a timeline.
pub open_interval-IsTimeline :
    (start before now : ℤ) (l : List EvidenceInterval) (value : Option String)
    → before ≤ℤ now
    → IsTimeline start before l
    → IsTimeline start now (open_interval l value now)
unfolding open_interval
open_interval-IsTimeline start before now l value le h =
    close_open_interval-IsTimeline start before now l _ le h (λ s k. (k, (omega arith, refl)))

pub IsTimeline-later :
    (start before now : ℤ) (l : List EvidenceInterval)
    → before ≤ℤ now
    → IsTimeline start before l
    → IsTimeline start now l
IsTimeline-later start before now [] le h = omega arith
IsTimeline-later start before now (iv ∷ rest) le h =
    (elim iv.valid_until
        as (λ u.
          IsTimeline start before ((record iv { valid_until = u }) ∷ rest)
          → IsTimeline start now ((record iv { valid_until = u }) ∷ rest)) [
            | none ↦ λ k. (k.0, (omega arith, k.1.1))
            | some end ↦ λ k. (k.0, (k.1.0, IsTimeline-later end before now rest le k.1.1))
          ])
      h

pub end_suppression-IsTimeline :
    (start before now : ℤ) (l : List EvidenceInterval)
    → before ≤ℤ now
    → IsTimeline start before l
    → IsTimeline start now (end_ability_suppression_on_switch_out l now)
unfolding end_ability_suppression_on_switch_out
end_suppression-IsTimeline start before now l le h =
    if_intro (IsTimeline start now) (is_suppression (get_last? l))
      (rw (← append-nil (close_open_interval l now))
        (close_open_interval-IsTimeline start before now l [] le h (λ s k. k)))
      (IsTimeline-later start before now l le h)
