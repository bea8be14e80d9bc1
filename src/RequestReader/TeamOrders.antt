-- ===== src/RequestReader/TeamOrders.antt =====
-- request_reader.py: the submissions of a team preview.
use battle_belief.Base.{ℕ, ◌≤◌, List, [], ◌∷◌, map, ok, arith, refl, ◌≡◌, nat_eq, string_eq}
use battle_belief.Actions.{team_preview, kind_eq}
use battle_belief.Actions.Checks.{IsWellFormed, a_team}
use battle_belief.Reconciler.{is_allowed, range_from}
use battle_belief.RequestReader.JsonValues.{map_parsed}
use battle_belief.RequestReader.Submissions.{construct, team_arguments, permutations}
use battle_belief.RequestReader.Orders.{IsTeamOrder, permutations-AreTeamOrders}
use battle_belief.RequestReader.Safe.{IsWellFormed-construct, map_parsed-ok, IsOffered}

module _ (count : ℕ) (some_member : 1 ≤ count) (small : count ≤ 6) where
  team_order-IsWellFormed :
      (order : List ℕ) → IsTeamOrder count order → IsWellFormed (team_arguments order)
  team_order-IsWellFormed [] h = absurd (omega (arith, h.size, some_member))
  team_order-IsWellFormed (x ∷ xs) h = a_team x xs h.slots h.distinct refl

  pub team_order-IsOffered :
      (order : List ℕ)
      → IsTeamOrder count order
      → IsOffered team_preview count (team_arguments order)
  unfolding is_allowed
  team_order-IsOffered order h = record {
    well_formed = team_order-IsWellFormed order h;
    allowed = refl;
    order = rw (h.same) (ground arith);
  }

  abbrev pub team_orders : List (List ℕ)
  team_orders = permutations count (range_from 1 count)

  -- The constructor takes every order.
  pub team_orders-ok :
      map_parsed (λ order. construct (team_arguments order)) team_orders
      ≡ ok (map team_arguments team_orders)
  team_orders-ok =
      map_parsed-ok _ team_arguments (IsTeamOrder count)
        (λ order h. IsWellFormed-construct (team_arguments order) (team_order-IsWellFormed order h))
        team_orders (permutations-AreTeamOrders count small)
