-- ===== src/Examples/Checks.antt =====
-- The theorems on the monitor, each at a concrete input.
use xcplane.Common.{◌+◌, ◌≤◌, ◌≡◌, refl, true, [], ◌∷◌, none, ok, arith, string_eq, pair_eq}
use xcplane.Server.Kind.{ssh, nginx, svc_kind_eq}
use xcplane.Monitor.{healthy, sick, SvcStatus, SvcEntry, ActionMap}
use xcplane.Monitor.Attempts.{IsBounded}
use xcplane.Monitor.Response.{failed, handle_response}
use xcplane.Monitor.Response.Attempts.{handle_response-IsBounded}
use xcplane.Monitor.Response.Guards.{MayFix}
use xcplane.Monitor.Response.Fixes.{handle_response-MayFix}
use xcplane.Examples.{running}

abbrev pub status : SvcStatus
status = record { health = sick; failed_count = 3; failed_since = 1000; fix_try = 1 }

abbrev pub entry : SvcEntry
entry = record { server = running; kind = nginx; status = status }

abbrev pub action_map : ActionMap
action_map =
    (("alpha", ssh), record { svc_health = healthy; fix_try = 0; fix_action = none })
    ∷ (("alpha", nginx), record { svc_health = sick; fix_try = 1; fix_action = none })
    ∷ []

handle_response-IsBounded_example :
    IsBounded (handle_response true 3 2000 (ok true) (failed entry) action_map)
handle_response-IsBounded_example =
    handle_response-IsBounded true 3 2000 (ok true) (failed entry) action_map
      (omega arith, (omega arith, tt)) (omega arith)

handle_response-MayFix_example :
    (e : SvcEntry) × (failed entry ≡ failed e)
    × (true ≡ true)
    × (3 ≤ e.status.failed_count + 1)
    × MayFix e action_map
unfolding handle_response
handle_response-MayFix_example =
    handle_response-MayFix true 3 2000 (ok true) (failed entry) action_map refl
