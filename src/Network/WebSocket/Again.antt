-- ===== src/Network/WebSocket/Again.antt =====
-- packages/core/src/network/websocket-service.ts: a connection that is made anew by hand, as
-- packages/extension/src/offscreen/index.ts does after an answer 401.
use holo_web_conductor.Common.{
  ◌≡◌, refl, ap, ◌∙◌, Bool, true, false, none, some, List, [], ◌∷◌, ◌++◌, append-nil, any, arith,
}
use holo_web_conductor.Network.WebSocket.Messages.{
  is_open, ConnectionState, Options, Registration, auth_ok,
}
use holo_web_conductor.Network.WebSocket.Service.{
  opened, Service, new_service, cleanup, disconnect, connect, set_state, send, authenticate,
  try_authenticate_next_agent,
}
use holo_web_conductor.Network.WebSocket.Handlers.{
  handle_open, handle_message, handle_auth_ok, process_pending_registrations,
}
use holo_web_conductor.Network.WebSocket.Steps.{
  ready_to_open, Event, connects, disconnects, socket_opens, receives, step, run, Possible, Apart,
}
use holo_web_conductor.Network.WebSocket.Health.{run-IsSteady}
use holo_web_conductor.Network.WebSocket.Wire.{wire, is_register}
use holo_web_conductor.Network.WebSocket.Connecting.{connect_made-ws, try-IsQuiet}

-- The registrations and the pending ones are left alone.
abbrev IsKept : Service → Service → Type 0
IsKept t s =
    (t.registrations ≡ s.registrations) × (t.pending_registrations ≡ s.pending_registrations)

set_state-IsKept : (c : ConnectionState) (s : Service) → IsKept (set_state c s).0 s
unfolding set_state
set_state-IsKept c s = (ground arith, ground arith)

disconnect-IsKept : (s : Service) → IsKept (disconnect s).0 s × ((disconnect s).0.ws ≡ none)
unfolding disconnect cleanup set_state
disconnect-IsKept s = ((ground arith, ground arith), ground arith)

connect-IsKept : (o : Options) (s : Service) → s.ws ≡ none → IsKept (connect o true s).0 s
unfolding connect set_state
connect-IsKept o s w = (ground arith, ground arith)

open-IsKept : (s : Service) → IsKept (handle_open s).0 s
unfolding handle_open try_authenticate_next_agent authenticate set_state send
open-IsKept s = (ground arith, ground arith)

set_state-register :
    (r : Registration) (c : ConnectionState) (s : Service)
    → any (is_register r) (set_state c s).1 ≡ false
unfolding set_state
set_state-register r c s = ground arith

open-register : (r : Registration) (s : Service) → any (is_register r) (handle_open s).1 ≡ false
unfolding handle_open try_authenticate_next_agent authenticate set_state send
open-register r s = ground arith

auth_ok_lem :
    (r : Registration) (s : Service)
    → s.pending_registrations ≡ []
    → ((handle_auth_ok none s).0.registrations ≡ s.registrations)
      × (any (is_register r) (handle_auth_ok none s).1 ≡ false)
unfolding handle_auth_ok process_pending_registrations set_state
auth_ok_lem r s p = (ground (arith, append-nil s.registrations), ground arith)

any-none :
    {A : Type 0} (p : A → Bool) (a b : List A)
    → any p a ≡ false
    → any p b ≡ false
    → any p (a ++ b) ≡ false
any-none p [] b h k = k
any-none p (x ∷ a) b h k = ground (arith, any-none p a b)

-- The events of a connection that is made again, the last of them first.
abbrev pub again : List Event
again = receives (auth_ok none) ∷ socket_opens ∷ connects true ∷ disconnects ∷ []

-- It can always be made again.
pub again-Possible :
    (o : Options) (es : List Event)
    → Possible o es new_service
    → Apart o es new_service
    → Possible o (again ++ es) new_service × Apart o (again ++ es) new_service
unfolding run step disconnect cleanup set_state handle_open
again-Possible o es p a =
    let s = run o es new_service in
    let (k1, w) = disconnect-IsKept s in
    let s1 = (disconnect s).0 in
    let w2 = connect_made-ws o s1 w in
    let s2 = record (connect o true s1).0 {
      ws = some is_open;
      reconnect_attempts = 0;
      failed_auth_agents = [];
      heartbeat_timer = true;
      heartbeat_timeout_timer = false;
    } in
    let (w3, r3) = try-IsQuiet s2 in
    (
      (ap opened w3, (ap ready_to_open w2, (refl, (refl, p)))),
      (refl, (refl, (ground arith, (refl, a)))),
    )

-- Where an authenticated service is told to disconnect and to connect, and the linker accepts it
-- again, if no caller connected while a reconnect timer was set before, the service keeps its registrations as sent, but over the new socket it sends none.
pub again-forgets :
    (o : Options) (es : List Event) (r : Registration)
    → Possible o es new_service
    → Apart o es new_service
    → (run o es new_service).authenticated ≡ true
    → ((run o (again ++ es) new_service).registrations ≡ (run o es new_service).registrations)
      × (any (is_register r) (wire o (again ++ es)) ≡ false)
unfolding run step wire handle_message
again-forgets o es r p apart a =
    let s = run o es new_service in
    let h = run-IsSteady o es p apart in
    let ((r1, p1), w) = disconnect-IsKept s in
    let s1 = (disconnect s).0 in
    let (r2, p2) = connect-IsKept o s1 w in
    let s2 = record (connect o true s1).0 { ws = some is_open } in
    let (r3, p3) = open-IsKept s2 in
    let s3 = (handle_open s2).0 in
    let none_pending : s.pending_registrations ≡ [] = ground (arith, h.is_settled) in
    let (r4, silent) = auth_ok_lem r s3 (p3 ∙ p2 ∙ p1 ∙ none_pending) in
    (r4 ∙ r3 ∙ r2 ∙ r1, any-none (is_register r) (handle_open s2).1 _ (open-register r s2) silent)
