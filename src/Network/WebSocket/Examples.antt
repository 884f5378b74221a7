-- ===== src/Network/WebSocket/Examples.antt =====
-- Witnesses on a connection that is opened, lost and made again.
use holo_web_conductor.Common.{
  ◌≡◌, refl, true, false, none, some, List, [], ◌∷◌, ◌++◌, codes, any, is_some, seq_eq,
}
use holo_web_conductor.Network.WebSocket.Messages.{
  Options, Registration, auth_ok, reconnecting, connecting, opening,
}
use holo_web_conductor.Network.WebSocket.Service.{new_service, exhausted, connect, register_agent}
use holo_web_conductor.Network.WebSocket.Handlers.{handle_open, handle_message}
use holo_web_conductor.Network.WebSocket.Steps.{
  Event, connects, registers, socket_opens, socket_closes, receives, reconnects, step, run,
  Possible, possible, Apart,
}
use holo_web_conductor.Network.WebSocket.Registrations.{held, asked, run-held}
use holo_web_conductor.Network.WebSocket.Steady.{IsSteady}
use holo_web_conductor.Network.WebSocket.Health.{run-IsSteady, run-recovers}
use holo_web_conductor.Network.WebSocket.Wire.{is_register, wire, Told}
use holo_web_conductor.Network.WebSocket.Sent.{run-sent}
use holo_web_conductor.Network.WebSocket.Again.{again, again-forgets}

abbrev options : Options
options = record {
  reconnect_base_delay = 1000;
  reconnect_max_delay = 30000;
  max_reconnect_attempts = none;
}

abbrev alice : Registration
alice = record { dna_hash = codes "dna"; agent_pubkey = codes "alice" }

-- The last event first.
abbrev accepted : List Event
accepted =
    receives (auth_ok (some (codes "token"))) ∷ socket_opens ∷ connects true ∷ registers alice ∷ []

run-held_example : held alice (run options (socket_closes ∷ accepted) new_service) ≡ 1
unfolding asked seq_eq
run-held_example = run-held options alice (socket_closes ∷ accepted)

accepted-Possible : Possible options accepted new_service
unfolding run handle_message handle_open connect register_agent
accepted-Possible = (refl, (refl, (refl, (refl, tt))))

accepted-Apart : Apart options accepted new_service
unfolding run handle_message handle_open connect register_agent
accepted-Apart = (refl, (refl, (refl, (refl, tt))))

run-IsSteady_example : IsSteady options (run options accepted new_service)
run-IsSteady_example = run-IsSteady options accepted accepted-Possible accepted-Apart

accepted_ws : is_some (run options accepted new_service).ws ≡ true
unfolding run handle_message handle_open connect register_agent
accepted_ws = refl

accepted_left : exhausted options (run options accepted new_service).reconnect_attempts ≡ false
accepted_left = refl

run-recovers_example :
    let t = (step options socket_closes (run options accepted new_service)).0 in
    (t.state ≡ reconnecting)
    × (t.registrations ≡ [])
    × (t.pending_registrations
        ≡ (run options accepted new_service).pending_registrations
          ++ (run options accepted new_service).registrations)
    × (possible (reconnects true) t ≡ true)
    × ((step options (reconnects true) t).0.ws ≡ some opening)
    × ((step options (reconnects true) t).0.state ≡ connecting)
run-recovers_example =
    run-recovers options accepted accepted-Possible accepted-Apart accepted_ws accepted_left

run-sent_example : Told (wire options accepted) (alice ∷ [])
unfolding run handle_message handle_open connect register_agent
run-sent_example = run-sent options accepted accepted-Possible accepted-Apart refl

accepted_authenticated : (run options accepted new_service).authenticated ≡ true
unfolding run handle_message handle_open connect register_agent
accepted_authenticated = refl

again-forgets_example :
    ((run options (again ++ accepted) new_service).registrations
      ≡ (run options accepted new_service).registrations)
    × (any (is_register alice) (wire options (again ++ accepted)) ≡ false)
again-forgets_example =
    again-forgets options accepted alice accepted-Possible accepted-Apart accepted_authenticated
