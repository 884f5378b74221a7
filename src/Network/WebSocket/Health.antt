-- ===== src/Network/WebSocket/Health.antt =====
-- The state of the connection after any events that are possible: what it says of the socket, and
-- that the service does not get stuck.
use holo_web_conductor.Common.{
  ◌≡◌, refl, ◌∙◌, ap, true, false, Option, none, some, List, [], ◌∷◌, ◌++◌, Text, arith, Bool-cases,
  inl, inr, is_some, Option-cases,
}
use holo_web_conductor.Network.WebSocket.Messages.{
  Registration, ServerMessage, auth_ok, auth_challenge, auth_error, registered, unregistered,
  remote_signal, pong, server_error, sign_agent_info, unreadable, Options, closing, is_open,
  opening, connecting, connected, reconnecting,
}
use holo_web_conductor.Network.WebSocket.Service.{
  Service, new_service, is_connected, set_state, send, cleanup, schedule_reconnect, connect,
  disconnect, authenticate, register_agent, unregister_agent, send_remote_signals,
  try_authenticate_next_agent, exhausted, opened,
}
use holo_web_conductor.Network.WebSocket.Handlers.{
  handle_open, process_pending_registrations, handle_auth_ok, handle_auth_error, handle_pong,
  handle_message, handle_close, reconnect_fires, heartbeat_fires, heartbeat_times_out,
  ping_for_peer_count, ping_times_out, pending_agent,
}
use holo_web_conductor.Network.WebSocket.Steps.{
  Event, connects, disconnects, registers, unregisters, signals, sets_callbacks, asks_peers,
  asks_peers_in_vain, socket_opens, socket_closes, receives, reconnects, heartbeat,
  heartbeat_timeout, challenge_signed, info_signed, step, run, possible, Possible, connects_apart,
  Apart, ready_to_open,
}
use holo_web_conductor.Network.WebSocket.Steady.{
  IsSteady, challenge_same, sign_same, schedule_reconnect-Good, if-Good, gone-Good, told-Good,
  connect_free, connect-Good, try-Good, try-socket, dropped, like, closing_socket,
}

module _ (o : Options) where
  disconnect-Good : (s : Service) → IsSteady o s → IsSteady o (disconnect s).0
  unfolding disconnect cleanup set_state
  disconnect-Good s h = record {
    is_settled = ground arith;
    is_alive = ground arith;
    is_lone = ground arith;
    is_wanted = ground arith;
    is_bounded = ground (arith, h.is_bounded);
  }

  close-Good : (s : Service) → IsSteady o s → IsSteady o (handle_close o s).0
  unfolding handle_close cleanup
  close-Good s h =
      let t = record (cleanup s).0 {
        pending_registrations = s.pending_registrations ++ s.registrations;
        registrations = [];
      } in
      elim (Bool-cases s.intentional_close) [
        | inl meant ↦
            rw meant
              (gone-Good o (record t { intentional_close = true }) refl refl refl h.is_bounded)
        | inr lost ↦ rw lost (
            schedule_reconnect-Good o (record t { intentional_close = false }) refl refl refl
              h.is_bounded)
      ]

  open-Good :
      (s : Service)
      → IsSteady o s
      → ready_to_open s.ws ≡ true
      → IsSteady o (handle_open (record s { ws = some is_open })).0
  unfolding handle_open
  open-Good s h w =
      try-Good o
        (record s {
          ws = some is_open;
          reconnect_attempts = 0;
          failed_auth_agents = [];
          heartbeat_timer = true;
          heartbeat_timeout_timer = false;
        })
        (record {
          is_settled = ground (arith, h.is_settled);
          is_alive = ground arith;
          is_lone = ground (arith, h.is_lone);
          is_wanted = ground (arith, h.is_wanted);
          is_bounded = ground arith;
        })
        (ground (arith, h.is_settled)) refl

  register-Good :
      (r : Registration) (s : Service) → IsSteady o s → IsSteady o (register_agent r s).0
  unfolding register_agent send authenticate set_state
  register-Good r s h = record {
    is_settled = ground (arith, h.is_settled);
    is_alive = ground (arith, h.is_alive);
    is_lone = ground (arith, h.is_lone);
    is_wanted = ground (arith, h.is_wanted);
    is_bounded = ground (arith, h.is_bounded);
  }

  unregister-Good :
      (r : Registration) (s : Service) → IsSteady o s → IsSteady o (unregister_agent r s).0
  unfolding unregister_agent send
  unregister-Good r s h = record {
    is_settled = ground (arith, h.is_settled);
    is_alive = ground (arith, h.is_alive);
    is_lone = ground (arith, h.is_lone);
    is_wanted = ground (arith, h.is_wanted);
    is_bounded = ground (arith, h.is_bounded);
  }

  auth_ok-Good :
      (token : Option Text) (s : Service)
      → IsSteady o s
      → opened s.ws ≡ true
      → IsSteady o (handle_auth_ok token s).0
  unfolding handle_auth_ok process_pending_registrations set_state
  auth_ok-Good token s h w = record {
    is_settled = ground arith;
    is_alive = ground (arith, h.is_alive);
    is_lone = ground (arith, h.is_lone);
    is_wanted = ground (arith, h.is_wanted);
    is_bounded = ground (arith, h.is_bounded);
  }

  auth_error-Good :
      (s : Service) → IsSteady o s → opened s.ws ≡ true → IsSteady o (handle_auth_error s).0
  unfolding handle_auth_error
  auth_error-Good s h w =
      let none_left = record s { authenticated = false } in
      let w' : is_some s.ws ≡ true = ground arith in
      elim (Option-cases (pending_agent s)) [
        | inl e ↦
            rw (e, handle_auth_error)
              (told-Good o connected none_left
                (dropped o s s.failed_auth_agents s.pending_auth_agent h w') refl w')
        | inr (a, e) ↦
            let t = record s {
              authenticated = false;
              failed_auth_agents = s.failed_auth_agents ++ a ∷ [];
              pending_auth_agent = none;
            } in
            let t' = (try_authenticate_next_agent t).0 in
            let g = try-Good o t (dropped o s (s.failed_auth_agents ++ a ∷ []) none h w') refl w' in
            let (same_ws, same_auth) = try-socket o t in
            rw (e, handle_auth_error)
              (elim (Bool-cases (is_some (pending_agent t'))) [
                | inl more ↦ rw more g
                | inr last ↦
                    rw last (told-Good o connected t' g same_auth (ap is_some same_ws ∙ w'))
              ])
      ]

  message-Good :
      (m : ServerMessage) (s : Service)
      → IsSteady o s
      → opened s.ws ≡ true
      → IsSteady o (handle_message m s).0
  unfolding handle_message handle_pong
  message-Good (auth_ok token) s h w = auth_ok-Good token s h w
  message-Good (auth_challenge challenge) s h w = rw (challenge_same challenge s) h
  message-Good (auth_error message) s h w = auth_error-Good s h w
  message-Good (registered q) s h w = h
  message-Good (unregistered q) s h w = h
  message-Good (remote_signal dna to from zome payload) s h w = h
  message-Good (pong n) s h w = like o s _ (refl, refl, refl, refl, refl, refl, refl) h
  message-Good (server_error message) s h w = h
  message-Good (sign_agent_info id agent invalid) s h w = rw (sign_same id agent invalid s) h
  message-Good unreadable s h w = h

  step-Good :
      (e : Event) (s : Service)
      → IsSteady o s
      → possible e s ≡ true
      → connects_apart e s ≡ true
      → IsSteady o (step o e s).0
  unfolding step send_remote_signals send reconnect_fires heartbeat_fires heartbeat_times_out
      ping_for_peer_count ping_times_out
  step-Good (connects made) s h p q = connect-Good o made s h (ground arith)
  step-Good disconnects s h p q = disconnect-Good s h
  step-Good (registers r) s h p q = register-Good r s h
  step-Good (unregisters r) s h p q = unregister-Good r s h
  step-Good (signals dna []) s h p q = h
  step-Good (signals dna (x ∷ xs)) s h p q = if-Good o (is_connected s) _ _ h h
  step-Good (sets_callbacks signal sign) s h p q =
      like o s _ (refl, refl, refl, refl, refl, refl, refl) h
  step-Good (asks_peers call) s h p q =
      if-Good o (is_connected s) _ _
        (like o s (record s { peer_count_resolve = some call })
          (refl, refl, refl, refl, refl, refl, refl) h)
        h
  step-Good (asks_peers_in_vain call) s h p q =
      like o s _ (refl, refl, refl, refl, refl, refl, refl) h
  step-Good socket_opens s h p q = open-Good s h p
  step-Good socket_closes s h p q =
      close-Good (record s { ws = some closing }) (closing_socket o s h p)
  step-Good (receives m) s h p q = message-Good m s h p
  step-Good (reconnects made) s h p q =
      connect_free o made (record s { reconnect_timer = false; ws = none })
        (ground (arith, h.is_settled, h.is_lone)) h.is_bounded refl refl
  step-Good heartbeat s h p q =
      if-Good o (opened s.ws) _ _
        (like o s (record s { heartbeat_timeout_timer = true })
          (refl, refl, refl, refl, refl, refl, refl) h)
        h
  step-Good heartbeat_timeout s h p q = elim (Bool-cases (is_some s.ws)) [
    | inl held ↦ rw held (closing_socket o s h held)
    | inr free ↦ rw free h
  ]
  step-Good (challenge_signed sig) s h p q = h
  step-Good (info_signed id answer) s h p q = h

new-IsSteady : (o : Options) → IsSteady o new_service
new-IsSteady o = record {
  is_settled = refl;
  is_alive = refl;
  is_lone = refl;
  is_wanted = refl;
  is_bounded = ground arith;
}

-- After any events on a new service, each possible where it comes, if no caller connects while a
-- reconnect timer is set: an authenticated service is
-- connected over a socket that has been open and has nothing left to register; a service that is
-- not disconnected has a socket or a timer for one, never both; neither is left after it was told
-- to disconnect; and no more attempts were made than are allowed.
pub run-IsSteady :
    (o : Options) (es : List Event)
    → Possible o es new_service
    → Apart o es new_service
    → IsSteady o (run o es new_service)
unfolding run
run-IsSteady o [] p a = new-IsSteady o
run-IsSteady o (e ∷ es) p a =
    step-Good o e (run o es new_service) (run-IsSteady o es p.1 a.1) p.0 a.0

-- A socket that is lost is made anew: after any possible events that left a socket, with an
-- attempt left, if no caller connected while a reconnect timer was set, its close sets the
-- reconnect timer, the registrations that were sent stand after those that wait to be sent, all to
-- be sent again, and the timer makes the next socket.
pub run-recovers :
    (o : Options) (es : List Event)
    → Possible o es new_service
    → Apart o es new_service
    → is_some (run o es new_service).ws ≡ true
    → exhausted o (run o es new_service).reconnect_attempts ≡ false
    → let t = (step o socket_closes (run o es new_service)).0 in
      (t.state ≡ reconnecting)
      × (t.registrations ≡ [])
      × (t.pending_registrations
          ≡ (run o es new_service).pending_registrations ++ (run o es new_service).registrations)
      × (possible (reconnects true) t ≡ true)
      × ((step o (reconnects true) t).0.ws ≡ some opening)
      × ((step o (reconnects true) t).0.state ≡ connecting)
unfolding step handle_close cleanup schedule_reconnect set_state reconnect_fires connect
run-recovers o es p a w left = let h = run-IsSteady o es p a in ground (arith, h.is_wanted)
