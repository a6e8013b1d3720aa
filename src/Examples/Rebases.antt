-- ===== src/Examples/Rebases.antt =====
-- The theorems on the data and the actions of a Rebase, each at a concrete input.
use xcplane.Common.{◌≡◌, refl, String, false, List, [], ◌∷◌, Map, Outcome, ok, err, lookup}
use xcplane.Actions.{AnsibleAction, action_id}
use xcplane.Actions.Sorting.{Rises, has_id}
use xcplane.Reconcile.RebaseData.{RebaseData, create_rebase_data}
use xcplane.Reconcile.Deploy.{planned_actions}
use xcplane.Reconcile.Deploy.Planned.{or_all, reasons, planned_actions_lem}
use xcplane.Examples.{running, redeclared, old_cloud, new_cloud, cf_state}

abbrev names : List String
names = "tls1" ∷ "reality1" ∷ []

abbrev map_or_empty : {E : Type 0} → Outcome E (Map RebaseData) → Map RebaseData
map_or_empty (ok m) = m
map_or_empty (err e) = []

abbrev table : Map RebaseData
unfolding create_rebase_data
table = map_or_empty (create_rebase_data old_cloud new_cloud false ("alpha" ∷ []) (λ n. names))

planned_actions_lem_example :
    (actions : List AnsibleAction) × (planned_actions running redeclared (lookup "alpha" table)
      ≡ ok actions)
    × Rises actions
    × ((a : AnsibleAction)
        → has_id (action_id a) actions
          ≡ or_all (reasons running redeclared cf_state cf_state (lookup "alpha" table) a))
planned_actions_lem_example =
    planned_actions_lem running redeclared (lookup "alpha" table) cf_state cf_state refl refl
