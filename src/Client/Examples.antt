-- ===== src/Client/Examples.antt =====
-- Witnesses on one page's connection.
use holo_web_conductor.Common.{◌≡◌, refl, true, false, none, some, List, [], ◌∷◌, subst, codes}
use holo_web_conductor.Client.Connection.Types.{url, ExtensionStatus}
use holo_web_conductor.Client.Connection.Monitor.{initial}
use holo_web_conductor.Client.Connection.Monitor.Runs.{Call, tries, pushed, succeeded, run}
use holo_web_conductor.Client.Connection.Monitor.Following.{view, follow, run-follow}
use holo_web_conductor.Client.Connection.Reconnect.{
  Config, Manager, cancel, fresh_manager, Reach, here, next, asked,
}
use holo_web_conductor.Client.Connection.Reconnect.Timers.{
  IsOne, no_call, always, begun, Reach-IsOne, two_timers, free-reconnect,
}

abbrev healthy : ExtensionStatus
healthy = record {
  http_healthy = true;
  ws_healthy = true;
  authenticated = none;
  linker_url = url (codes "wss://linker");
  last_error = none;
  peer_count = some 3;
}

abbrev lost : ExtensionStatus
lost = record healthy { http_healthy = false }

abbrev day : List Call
day = pushed 10 healthy ∷ pushed 20 lost ∷ tries 1 1000 ∷ succeeded ∷ []

run-follow_example :
    view (follow initial.state (run day initial).1) ≡ view (run day initial).0.state
run-follow_example = run-follow day initial.state initial refl

abbrev config : Config
config = record {
  auto_reconnect = none;
  reconnect_delay_ms = some 10;
  max_reconnect_delay_ms = none;
}

begun-Reach : Reach config no_call fresh_manager (begun fresh_manager)
begun-Reach =
    subst (Reach config no_call fresh_manager)
      (free-reconnect config (λ d. 0) fresh_manager refl refl)
      (next here (asked (λ d. 0) fresh_manager))

Reach-IsOne_example : IsOne (begun fresh_manager)
Reach-IsOne_example =
    Reach-IsOne config fresh_manager (begun fresh_manager) (refl, refl) begun-Reach

two_timers_example :
    (m : Manager) × Reach config always fresh_manager m
    × (m.armed ≡ 2 ∷ 1 ∷ [])
    × ((cancel m).armed ≡ 1 ∷ [])
two_timers_example = two_timers config (λ d. 0) refl
