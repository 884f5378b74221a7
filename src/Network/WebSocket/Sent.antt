-- ===== src/Network/WebSocket/Sent.antt =====
-- Which registrations the linker was told of over the socket that is open.
use holo_web_conductor.Common.{
  ℕ, ◌≡◌, refl, subst, Bool, true, false, none, some, List, [], ◌∷◌, ◌++◌, Text, if◌then◌else◌,
  arith, any, Bool-cases, inl, inr, is_some,
}
use holo_web_conductor.Network.WebSocket.Messages.{
  RemoteSignal, auth_challenge_response, sign_response, Output, Options, closing, is_open, opening,
  disconnected,
}
use holo_web_conductor.Network.WebSocket.Service.{
  Service, new_service, is_connected, set_state, send, cleanup, schedule_reconnect,
  send_remote_signals, try_authenticate_next_agent, opened,
}
use holo_web_conductor.Network.WebSocket.Handlers.{
  handle_open, handle_close, reconnect_fires, heartbeat_fires, heartbeat_times_out,
  ping_for_peer_count, ping_times_out,
}
use holo_web_conductor.Network.WebSocket.Steps.{
  Event, connects, disconnects, registers, unregisters, signals, sets_callbacks, asks_peers,
  asks_peers_in_vain, socket_opens, socket_closes, receives, reconnects, heartbeat,
  heartbeat_timeout, challenge_signed, info_signed, step, run, possible, Possible, Apart,
}
use holo_web_conductor.Network.WebSocket.Steady.{IsSteady}
use holo_web_conductor.Network.WebSocket.Health.{run-IsSteady}
use holo_web_conductor.Network.WebSocket.Wire.{
  opens, wire, IsTold, more-IsTold, IsQuiet, quiet-IsTold,
}
use holo_web_conductor.Network.WebSocket.Connecting.{
  schedule-IsQuiet, told-IsQuiet, connect-IsTold, try-IsQuiet,
}
use holo_web_conductor.Network.WebSocket.Quiet.{if-IsQuiet}
use holo_web_conductor.Network.WebSocket.Telling.{
  message-IsTold, register-IsTold, unregister-IsTold,
}

-- What follows the loss of the socket.
lost-IsQuiet :
    (o : Options) (t : Service)
    → IsQuiet (if t.intentional_close then set_state disconnected t else schedule_reconnect o t) t
lost-IsQuiet o t =
    if-IsQuiet _ (set_state disconnected t) (schedule_reconnect o t) t (told-IsQuiet disconnected t)
      (schedule-IsQuiet o t)

close_lem :
    (o : Options) (s : Service)
    → ((handle_close o s).0.ws ≡ none) × ((handle_close o s).0.registrations ≡ [])
unfolding handle_close cleanup
close_lem o s =
    let t = (cleanup s).0 in
    lost-IsQuiet o (record t {
      pending_registrations = t.pending_registrations ++ t.registrations;
      registrations = [];
    })

close-IsTold :
    (o : Options) (outs : List Output) (s : Service)
    → IsTold
        (handle_close o s).0.ws
        (outs ++ (handle_close o s).1)
        (handle_close o s).0.registrations
close-IsTold o outs s = let (w, r) = close_lem o s in rw (w, r) refl

open-IsTold :
    (s : Service)
    → IsTold s.ws [] s.registrations
    → IsTold (handle_open s).0.ws (handle_open s).1 (handle_open s).0.registrations
unfolding handle_open
open-IsTold s h =
    let t = record s {
      reconnect_attempts = 0;
      failed_auth_agents = [];
      heartbeat_timer = true;
      heartbeat_timeout_timer = false;
    } in
    quiet-IsTold [] (try_authenticate_next_agent t) s (try-IsQuiet t) h

fires-IsTold :
    (o : Options) (made : Bool) (outs : List Output) (s : Service)
    → is_some s.ws ≡ false
    → IsTold s.ws outs s.registrations
    → IsTold
        (reconnect_fires o made s).0.ws
        (outs ++ (reconnect_fires o made s).1)
        (reconnect_fires o made s).0.registrations
unfolding reconnect_fires
fires-IsTold o made outs s n h =
    let w : s.ws ≡ none = ground arith in
    connect-IsTold o made outs (record s { reconnect_timer = false; ws = none })
      (subst (λ v. IsTold v outs s.registrations) w h)

signals-IsQuiet :
    (dna : Text) (xs : List RemoteSignal) (s : Service) → IsQuiet (send_remote_signals dna xs s) s
unfolding send_remote_signals send
signals-IsQuiet dna [] s = (refl, refl)
signals-IsQuiet dna (x ∷ xs) s = if-IsQuiet (is_connected s) _ _ s (refl, refl) (refl, refl)

ping-IsQuiet : (call : ℕ) (s : Service) → IsQuiet (ping_for_peer_count call s) s
unfolding ping_for_peer_count send
ping-IsQuiet call s = if-IsQuiet (is_connected s) _ _ s (refl, refl) (refl, refl)

heartbeat-IsQuiet : (s : Service) → IsQuiet (heartbeat_fires s) s
unfolding heartbeat_fires send
heartbeat-IsQuiet s = if-IsQuiet (opened s.ws) _ _ s (refl, refl) (refl, refl)

timeout-IsTold :
    (outs : List Output) (s : Service)
    → IsTold s.ws outs s.registrations
    → IsTold
        (heartbeat_times_out s).0.ws
        (outs ++ (heartbeat_times_out s).1)
        (heartbeat_times_out s).0.registrations
unfolding heartbeat_times_out
timeout-IsTold outs s h = elim (Bool-cases (is_some s.ws)) [
  | inl held ↦ rw held tt
  | inr free ↦ rw free (more-IsTold s.ws outs [] s.registrations h)
]

abbrev pub is_disconnect : Event → Bool
is_disconnect disconnects = true
is_disconnect _ = false

step-IsTold :
    (o : Options) (e : Event) (outs : List Output) (s : Service)
    → IsSteady o s
    → possible e s ≡ true
    → is_disconnect e ≡ false
    → IsTold s.ws outs s.registrations
    → IsTold
        (step o e s).0.ws
        ((if opens e then [] else outs) ++ (step o e s).1)
        (step o e s).0.registrations
unfolding step send ping_times_out
step-IsTold o (connects made) outs s g p n h = connect-IsTold o made outs s h
step-IsTold o disconnects outs s g p n h = cc
step-IsTold o (registers q) outs s g p n h = register-IsTold q outs s g.is_settled h
step-IsTold o (unregisters q) outs s g p n h = unregister-IsTold q outs s h
step-IsTold o socket_opens outs s g p n h =
    let w : s.ws ≡ some opening = ground arith in
    open-IsTold (record s { ws = some is_open })
      (rw (subst (λ v. IsTold v outs s.registrations) w h) tt)
step-IsTold o socket_closes outs s g p n h = close-IsTold o outs (record s { ws = some closing })
step-IsTold o (receives m) outs s g p n h = message-IsTold m outs s (ground arith) h
step-IsTold o (reconnects made) outs s g p n h =
    fires-IsTold o made outs s (ground (arith, g.is_lone)) h
step-IsTold o heartbeat_timeout outs s g p n h = timeout-IsTold outs s h
step-IsTold o (signals dna xs) outs s g p n h =
    quiet-IsTold outs (send_remote_signals dna xs s) s (signals-IsQuiet dna xs s) h
step-IsTold o (sets_callbacks signal sign) outs s g p n h =
    more-IsTold s.ws outs [] s.registrations h
step-IsTold o (asks_peers call) outs s g p n h =
    quiet-IsTold outs (ping_for_peer_count call s) s (ping-IsQuiet call s) h
step-IsTold o (asks_peers_in_vain call) outs s g p n h =
    quiet-IsTold outs (ping_times_out call s) s (refl, refl) h
step-IsTold o heartbeat outs s g p n h =
    quiet-IsTold outs (heartbeat_fires s) s (heartbeat-IsQuiet s) h
step-IsTold o (challenge_signed sig) outs s g p n h =
    quiet-IsTold outs (send (auth_challenge_response sig) s) s (refl, refl) h
step-IsTold o (info_signed id answer) outs s g p n h =
    quiet-IsTold outs (send (sign_response id answer) s) s (refl, refl) h

-- After any possible events, none of which is a call of `disconnect`, if no caller connects while
-- a reconnect timer is set: while the socket is open,
-- the linker was told over it of each registration that the service counts as sent, and while
-- there is no socket, or it has not opened, none counts as sent.
pub run-sent :
    (o : Options) (es : List Event)
    → Possible o es new_service
    → Apart o es new_service
    → any is_disconnect es ≡ false
    → IsTold (run o es new_service).ws (wire o es) (run o es new_service).registrations
unfolding run wire
run-sent o [] p a n = refl
run-sent o (e ∷ es) p a n =
    step-IsTold o e (wire o es) (run o es new_service) (run-IsSteady o es p.1 a.1) p.0
      (ground arith) (run-sent o es p.1 a.1 (ground arith))
