-- ===== src/Reducer/Views.antt =====
-- reducer.py: the changes of one pokemon and the validity of its view.
use battle_belief.Base.{
  ℤ, pos, negsuc, ◌≤ℤ◌, String, Bool, true, false, Option, none, some, List, [], map, ◌≡◌, ok, err,
  ◌>>=◌, arith, refl, sym, subst, neg_ℤ, ◌∙◌, if_intro, Ensures,
}
use battle_belief.Errors.{Core}
use battle_belief.Events.{
  BoostChangeMode, delta, set, FormChangeKind, persistent_details, temporary_species,
}
use battle_belief.State.{
  HpToken, HpObservation, EvidenceInterval, hp_observation, HpPrecision, zero_boosts, PokemonView,
  SideView, new_pokemon_view,
}
use battle_belief.Reducer.Boosts.{apply_boost_delta, set_boost, clear_boosts}
use battle_belief.Reducer.Switching.{deactivate, activate_new, activate_existing}
use battle_belief.Reducer.Handlers.{
  faint, with_hp, change_boost, clear_pokemon_boosts, change_item, change_ability, change_identity,
  change_form, maximum_or, precision_or, revealed,
}
use battle_belief.Reducer.Valid.{
  IsValidHp, IsValidHp?, IsZeroHp, IsValidView, IsTimeline, AreBoosts,
}
use battle_belief.Reducer.Values.{
  hp_observation-IsValidHp, apply_boost_delta-AreBoosts, set_boost-AreBoosts,
  clear_boosts-AreBoosts, inverted-AreBoosts, zero_boosts-AreBoosts, open_interval-IsTimeline,
  IsTimeline-later, end_suppression-IsTimeline,
}

-- A view that was valid before stays so when time passes.
pub IsValidView-later :
    {before now : ℤ} {pv : PokemonView} → before ≤ℤ now → IsValidView before pv → IsValidView now pv
IsValidView-later {before} {now} {pv} le v = record {
  hp = v.hp;
  fainted = v.fainted;
  boosts = v.boosts;
  items = IsTimeline-later (negsuc 0) before now pv.item_intervals le v.items;
  abilities = IsTimeline-later (negsuc 0) before now pv.ability_intervals le v.abilities;
  identities = IsTimeline-later (negsuc 0) before now pv.identity_intervals le v.identities;
}

-- A change that a branch makes: the result is a valid view, as active as before.
pub record Keeps (now : ℤ) (pv pv' : PokemonView) : Type 0 where
  pub valid : IsValidView now pv'
  pub same_active : pv'.active ≡ pv.active

-- The same of a change that may raise.
abbrev pub Kept : ℤ → PokemonView → Core PokemonView → Type 0
Kept now pv = Ensures (Keeps now pv)

-- What the invariant speaks of in a view.
abbrev Facts : Type 0
Facts =
    Option HpObservation
    × Bool
    × List ℤ
    × List EvidenceInterval
    × List EvidenceInterval
    × List EvidenceInterval
    × Bool

abbrev pub facts : PokemonView → Facts
facts pv = (
  pv.hp, pv.fainted, pv.boosts, pv.item_intervals, pv.ability_intervals, pv.identity_intervals,
  pv.active,
)

KeepsFacts : ℤ → PokemonView → Facts → Type 0
KeepsFacts now pv (hp, fainted, boosts, items, abilities, identities, active) =
    IsValidHp? hp
    × (fainted ≡ true → IsZeroHp hp)
    × AreBoosts boosts
    × IsTimeline (negsuc 0) now items
    × IsTimeline (negsuc 0) now abilities
    × IsTimeline (negsuc 0) now identities
    × (active ≡ pv.active)

-- A change of other fields keeps the view valid.
pub same_facts-Keeps :
    {now : ℤ} (pv pv' : PokemonView) → IsValidView now pv → facts pv' ≡ facts pv → Keeps now pv pv'
unfolding KeepsFacts
same_facts-Keeps {now} pv pv' v e =
    let k : KeepsFacts now pv (facts pv') =
      subst (KeepsFacts now pv) (sym e)
        (v.hp, v.fainted, v.boosts, v.items, v.abilities, v.identities, refl) in
    record {
      valid = record {
        hp = k.0;
        fainted = k.1;
        boosts = k.2;
        items = k.3;
        abilities = k.4;
        identities = k.5;
      };
      same_active = k.6;
    }

module _ (now : ℤ) (pv : PokemonView) (v : IsValidView now pv) where
  open v use {boosts, items, abilities, identities}

  faint-Keeps :
      (hp : HpObservation)
      → IsValidHp hp × (hp.fainted ≡ true)
      → Kept now pv (
          ok (record pv {
            fainted = true;
            hp = some hp;
            boosts = zero_boosts;
            volatiles = [];
            recharging = false;
            transform_target = none;
          }))
  faint-Keeps hp (h, f) = record {
    valid = record {
      hp = h;
      fainted = λ _. h.zero_if_fainted f;
      boosts = zero_boosts-AreBoosts;
      items = items;
      abilities = abilities;
      identities = identities;
    };
    same_active = refl;
  }

  pub faint-Kept : Kept now pv (faint pv)
  unfolding faint
  faint-Kept = go (hp_observation (pos 0) maximum precision true) refl
    where
      maximum : ℤ
      maximum = maximum_or pv.hp

      precision : HpPrecision
      precision = precision_or pv.hp

      go :
          (r : Core HpObservation)
          → hp_observation (pos 0) maximum precision true ≡ r
          → Kept now pv (
              r >>= λ hp. ok (record pv {
                fainted = true;
                hp = some hp;
                boosts = zero_boosts;
                volatiles = [];
                recharging = false;
                transform_target = none;
              }))
      go (ok hp) e = faint-Keeps hp (hp_observation-IsValidHp (pos 0) maximum precision true hp e)
      go (err x) e = tt

  pub with_hp-Keeps :
      (hp : HpObservation) (token : HpToken)
      → IsValidHp hp × (hp.fainted ≡ token.fainted)
      → Keeps now pv (with_hp hp token pv)
  unfolding with_hp
  with_hp-Keeps hp token (h, f) = record {
    valid = record {
      hp = h;
      fainted = λ e. h.zero_if_fainted (f ∙ e);
      boosts = boosts;
      items = items;
      abilities = abilities;
      identities = identities;
    };
    same_active = refl;
  }

  pub with_boosts-Keeps : (new : List ℤ) → AreBoosts new → Keeps now pv (record pv { boosts = new })
  with_boosts-Keeps new h = record {
    valid = record {
      hp = v.hp;
      fainted = v.fainted;
      boosts = h;
      items = items;
      abilities = abilities;
      identities = identities;
    };
    same_active = refl;
  }

  bound_boosts-Kept :
      (r : Core (List ℤ))
      → ((new : List ℤ) → r ≡ ok new → AreBoosts new)
      → Kept now pv (r >>= λ new. ok (record pv { boosts = new }))
  bound_boosts-Kept (ok new) h = with_boosts-Keeps new (h new refl)
  bound_boosts-Kept (err e) h = tt

  pub change_boost-Kept :
      (mode : BoostChangeMode) (stat : String) (amount : ℤ)
      → Kept now pv (change_boost mode stat amount pv)
  unfolding change_boost
  change_boost-Kept delta stat amount =
      bound_boosts-Kept (apply_boost_delta pv.boosts stat amount)
        (λ new. apply_boost_delta-AreBoosts pv.boosts stat amount new boosts)
  change_boost-Kept set stat amount =
      bound_boosts-Kept (set_boost pv.boosts stat amount)
        (λ new. set_boost-AreBoosts pv.boosts stat amount new boosts)

  pub clear_pokemon_boosts-Kept : (scope : String) → Kept now pv (clear_pokemon_boosts scope pv)
  unfolding clear_pokemon_boosts
  clear_pokemon_boosts-Kept scope =
      bound_boosts-Kept (clear_boosts pv.boosts scope)
        (λ new. clear_boosts-AreBoosts pv.boosts scope new boosts)

  pub inverted-Keeps : Keeps now pv (record pv { boosts = map neg_ℤ pv.boosts })
  inverted-Keeps = with_boosts-Keeps (map neg_ℤ pv.boosts) (inverted-AreBoosts pv.boosts boosts)

  pub change_item-Keeps :
      (action : String) (item : Option String) → Keeps now pv (change_item now action item pv)
  unfolding change_item
  change_item-Keeps action item = record {
    valid = record {
      hp = v.hp;
      fainted = v.fainted;
      boosts = boosts;
      items =
          open_interval-IsTimeline (negsuc 0) now now pv.item_intervals (revealed action item)
            (omega arith) items;
      abilities = abilities;
      identities = identities;
    };
    same_active = refl;
  }

  pub change_ability-Keeps :
      (action : String) (ability : Option String)
      → Keeps now pv (change_ability now action ability pv)
  unfolding change_ability
  change_ability-Keeps action ability = record {
    valid = record {
      hp = v.hp;
      fainted = v.fainted;
      boosts = boosts;
      items = items;
      abilities =
          open_interval-IsTimeline (negsuc 0) now now pv.ability_intervals (revealed action ability)
            (omega arith) abilities;
      identities = identities;
    };
    same_active = refl;
  }

  pub change_identity-Keeps :
      (nickname details : String) (hp : HpObservation) (token : HpToken)
      → IsValidHp hp × (hp.fainted ≡ token.fainted)
      → Keeps now pv (change_identity now nickname details hp token pv)
  unfolding change_identity
  change_identity-Keeps nickname details hp token (h, f) = record {
    valid = record {
      hp = h;
      fainted = λ e. h.zero_if_fainted (f ∙ e);
      boosts = boosts;
      items = items;
      abilities = abilities;
      identities =
          open_interval-IsTimeline (negsuc 0) now now pv.identity_intervals (some details)
            (omega arith) identities;
    };
    same_active = refl;
  }

  pub change_form-Keeps :
      (kind : FormChangeKind) (value : String) (hp : HpObservation) (token : HpToken)
      → IsValidHp hp × (hp.fainted ≡ token.fainted)
      → Keeps now pv (change_form kind value hp token pv)
  unfolding change_form
  change_form-Keeps persistent_details value hp token (h, f) = record {
    valid = record {
      hp = h;
      fainted = λ e. h.zero_if_fainted (f ∙ e);
      boosts = boosts;
      items = items;
      abilities = abilities;
      identities = identities;
    };
    same_active = refl;
  }
  change_form-Keeps temporary_species value hp token (h, f) = record {
    valid = record {
      hp = h;
      fainted = λ e. h.zero_if_fainted (f ∙ e);
      boosts = boosts;
      items = items;
      abilities = abilities;
      identities = identities;
    };
    same_active = refl;
  }

  -- Leaving the field, at a later time, ends a suppressed ability and keeps the rest.
  pub deactivate-IsValidView : (later : ℤ) → now ≤ℤ later → IsValidView later (deactivate later pv)
  unfolding deactivate
  deactivate-IsValidView later le =
      if_intro (IsValidView later) pv.active
        (record {
          hp = v.hp;
          fainted = v.fainted;
          boosts = zero_boosts-AreBoosts;
          items = IsTimeline-later (negsuc 0) now later pv.item_intervals le items;
          abilities =
              end_suppression-IsTimeline (negsuc 0) now later pv.ability_intervals le abilities;
          identities = IsTimeline-later (negsuc 0) now later pv.identity_intervals le identities;
        })
        (IsValidView-later le v)

  pub activate_existing-IsValidView :
      (details : String) (hp : HpObservation) (status : Option String)
      → IsValidHp hp
      → IsValidView now (activate_existing pv details hp status)
  unfolding activate_existing
  activate_existing-IsValidView details hp status h = record {
    hp = h;
    fainted = λ e. cc;
    boosts = zero_boosts-AreBoosts;
    items = items;
    abilities = abilities;
    identities = identities;
  }

pub activate_new-IsValidView :
    (now : ℤ) (s : SideView) (nickname details : String) (hp : HpObservation)
    (status : Option String)
    → negsuc 0 ≤ℤ now
    → IsValidHp hp
    → IsValidView now (activate_new s nickname details hp status)
unfolding activate_new new_pokemon_view
activate_new-IsValidView now s nickname details hp status le h = record {
  hp = h;
  fainted = λ e. cc;
  boosts = zero_boosts-AreBoosts;
  items = le;
  abilities = le;
  identities = le;
}
