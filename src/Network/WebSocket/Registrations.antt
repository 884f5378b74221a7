-- ===== src/Network/WebSocket/Registrations.antt =====
-- Which registrations the service holds, pending or sent, after any events.
use holo_web_conductor.Common.{
  ℕ, suc, ◌+◌, ◌≤◌, ◌≡◌, refl, ◌∙◌, Bool, true, false, not, ◌&&◌, ◌||◌, Option, none, some, List,
  [], ◌∷◌, ◌++◌, Text, if◌then◌else◌, arith, any, seq_eq_iff, seq_eq_refl, inl, inr, ◌==◌, ◌↔◌,
  Option-cases,
}
use holo_web_conductor.Network.WebSocket.Messages.{
  ConnectionState, Registration, reg_eq, ServerMessage, auth_ok, auth_challenge, auth_error,
  registered, unregistered, remote_signal, pong, server_error, sign_agent_info, unreadable, Options,
  closing, is_open, connecting, authenticating, connected, disconnected, reconnecting,
}
use holo_web_conductor.Network.WebSocket.Service.{
  Service, new_service, Handler, ◌>>◌, set_state, send, cleanup, schedule_reconnect, connect,
  disconnect, authenticate, tracked, register_agent, without, unregister_agent, send_remote_signals,
  next_agent, try_authenticate_next_agent,
}
use holo_web_conductor.Network.WebSocket.Handlers.{
  handle_open, process_pending_registrations, take_token, handle_auth_ok, handle_auth_error,
  handle_auth_challenge, handle_pong, handle_sign_agent_info, handle_message, handle_close,
  reconnect_fires, heartbeat_fires, heartbeat_times_out, ping_for_peer_count, ping_times_out,
  pending_agent,
}
use holo_web_conductor.Network.WebSocket.Steps.{
  Event, connects, disconnects, registers, unregisters, signals, sets_callbacks, asks_peers,
  asks_peers_in_vain, socket_opens, socket_closes, receives, reconnects, heartbeat,
  heartbeat_timeout, challenge_signed, info_signed, step, run,
}

-- How many times the registration is in a list.
abbrev pub count : Registration → List Registration → ℕ
count r [] = 0
count r (q ∷ qs) = let n = count r qs in if reg_eq q r then suc n else n

-- How many times the service holds it.
abbrev pub held : Registration → Service → ℕ
held r s = count r s.registrations + count r s.pending_registrations

reg_eq_sound : (a b : Registration) → reg_eq a b ≡ true → a ≡ b
reg_eq_sound a b h =
    ground (arith, seq_eq_iff a.dna_hash b.dna_hash, seq_eq_iff a.agent_pubkey b.agent_pubkey)

pub reg_eq_refl : (a : Registration) → reg_eq a a ≡ true
reg_eq_refl a = ground (arith, seq_eq_refl a.dna_hash, seq_eq_refl a.agent_pubkey)

reg_eq_iff : (a b : Registration) → (reg_eq a b ≡ true) ↔ (a ≡ b)
reg_eq_iff a b = (reg_eq_sound a b, λ e. rw e (reg_eq_refl b))

count-append :
    (r : Registration) (a b : List Registration) → count r (a ++ b) ≡ count r a + count r b
count-append r [] b = omega arith
count-append r (q ∷ a) b = ground (arith, count-append r a b)

count-any :
    (r : Registration) (a : List Registration) → any (λ q. reg_eq q r) a ≡ false → count r a ≡ 0
count-any r [] h = refl
count-any r (q ∷ a) h = ground (arith, count-any r a)

any-count :
    (r : Registration) (a : List Registration) → any (λ q. reg_eq q r) a ≡ true → 1 ≤ count r a
any-count r [] h = cc
any-count r (q ∷ a) h = ground (arith, any-count r a)

count-without_self : (r : Registration) (a : List Registration) → count r (without r a) ≡ 0
count-without_self r [] = refl
count-without_self r (q ∷ a) = ground (arith, count-without_self r a)

tracked-held : (q : Registration) (s : Service) → tracked q s ≡ true → 1 ≤ held q s
tracked-held q s h =
    ground (arith, any-count q s.registrations, any-count q s.pending_registrations)

untracked-held : (q : Registration) (s : Service) → tracked q s ≡ false → held q s ≡ 0
untracked-held q s h =
    ground (arith, count-any q s.registrations, count-any q s.pending_registrations)

-- The count after an event, where it was `n`: a registered one is held from then on, an
-- unregistered one is not.
abbrev pub after : Registration → Event → ℕ → ℕ
after r (registers q) n = if reg_eq q r then (if n == 0 then 1 else n) else n
after r (unregisters q) n = if reg_eq q r then 0 else n
after r _ n = n

count-without :
    (q r : Registration) (a : List Registration)
    → count r (without q a) ≡ (if reg_eq q r then 0 else count r a)
count-without q r [] = ground arith
count-without q r (p ∷ a) =
    ground (arith, count-without q r a, reg_eq_iff q r, reg_eq_iff p q, reg_eq_iff p r)

module _ (r : Registration) where
  -- The handler holds the registration as often as before.
  Keeps : Handler → Type 0
  Keeps h = (s : Service) → held r (h s).0 ≡ held r s

  then-Keeps : (h k : Handler) → Keeps h → Keeps k → Keeps (h >> k)
  unfolding Keeps
  then-Keeps h k f g s = g (h s).0 ∙ f s

  set_state-Keeps : (c : ConnectionState) → Keeps (set_state c)
  unfolding Keeps set_state
  set_state-Keeps c s = ground arith

  schedule_reconnect-Keeps : (o : Options) → Keeps (schedule_reconnect o)
  unfolding Keeps schedule_reconnect
  schedule_reconnect-Keeps o s =
      ground (arith, set_state-Keeps disconnected s, set_state-Keeps reconnecting s)

  connect-Keeps : (o : Options) (made : Bool) → Keeps (connect o made)
  unfolding Keeps connect
  connect-Keeps o made s =
      let s' = record s { intentional_close = false } in
      ground (
        arith,
        set_state-Keeps connecting s',
        schedule_reconnect-Keeps o (set_state connecting s').0,
      )

  authenticate-Keeps : (a : Text) → Keeps (authenticate a)
  unfolding Keeps authenticate send
  authenticate-Keeps a s = set_state-Keeps authenticating (record s { pending_auth_agent = some a })

  try-Keeps : Keeps try_authenticate_next_agent
  unfolding Keeps try_authenticate_next_agent
  try-Keeps s = elim (Option-cases (next_agent s)) [
    | inl e ↦ rw (e, try_authenticate_next_agent) refl
    | inr (a, e) ↦ rw (e, try_authenticate_next_agent) (authenticate-Keeps a s)
  ]

  take_token-Keeps : (token : Option Text) → Keeps (take_token token)
  unfolding Keeps
  take_token-Keeps none s = refl
  take_token-Keeps (some []) s = refl
  take_token-Keeps (some (c ∷ cs)) s = refl

  process_pending-Keeps : Keeps process_pending_registrations
  unfolding Keeps process_pending_registrations
  process_pending-Keeps s = omega (arith, count-append r s.registrations s.pending_registrations)

  handle_auth_ok-Keeps : (token : Option Text) → Keeps (handle_auth_ok token)
  unfolding Keeps handle_auth_ok
  handle_auth_ok-Keeps token s =
      let s1 = record s { authenticated = true; pending_auth_agent = none } in
      let s2 = (take_token token s1).0 in
      process_pending-Keeps (set_state connected s2).0
      ∙ set_state-Keeps connected s2
      ∙ take_token-Keeps token s1

  handle_auth_error-Keeps : Keeps handle_auth_error
  unfolding Keeps handle_auth_error
  handle_auth_error-Keeps s = elim (Option-cases (pending_agent s)) [
    | inl e ↦
        rw (e, handle_auth_error) (set_state-Keeps connected (record s { authenticated = false }))
    | inr (a, e) ↦
        let t = record s {
          authenticated = false;
          failed_auth_agents = s.failed_auth_agents ++ a ∷ [];
          pending_auth_agent = none;
        } in
        let t' = (try_authenticate_next_agent t).0 in
        rw (e, handle_auth_error) (ground (arith, try-Keeps t, set_state-Keeps connected t'))
  ]

  handle_message-Keeps : (m : ServerMessage) → Keeps (handle_message m)
  unfolding Keeps handle_message handle_auth_challenge handle_pong handle_sign_agent_info send
  handle_message-Keeps (auth_ok token) s = handle_auth_ok-Keeps token s
  handle_message-Keeps (auth_challenge challenge) s = ground arith
  handle_message-Keeps (auth_error message) s = handle_auth_error-Keeps s
  handle_message-Keeps (registered q) s = refl
  handle_message-Keeps (unregistered q) s = refl
  handle_message-Keeps (remote_signal dna to from zome payload) s = refl
  handle_message-Keeps (pong n) s = refl
  handle_message-Keeps (server_error message) s = refl
  handle_message-Keeps (sign_agent_info id agent invalid) s = ground arith
  handle_message-Keeps unreadable s = refl

  handle_close-Keeps : (o : Options) → Keeps (handle_close o)
  unfolding Keeps handle_close cleanup
  handle_close-Keeps o s =
      let t = record (cleanup s).0 {
        pending_registrations = s.pending_registrations ++ s.registrations;
        registrations = [];
      } in
      ground (
        arith,
        count-append r s.pending_registrations s.registrations,
        set_state-Keeps disconnected t,
        schedule_reconnect-Keeps o t,
      )

  register-held :
      (q : Registration) (s : Service)
      → held r (register_agent q s).0 ≡ after r (registers q) (held r s)
  unfolding register_agent send Keeps
  register-held q s =
      let t = record s { pending_registrations = s.pending_registrations ++ q ∷ [] } in
      ground (
        arith,
        tracked-held q s,
        untracked-held q s,
        reg_eq_iff q r,
        count-append r s.registrations (q ∷ []),
        count-append r s.pending_registrations (q ∷ []),
        authenticate-Keeps q.agent_pubkey s,
        authenticate-Keeps q.agent_pubkey t,
      )

  unregister-held :
      (q : Registration) (s : Service)
      → held r (unregister_agent q s).0 ≡ after r (unregisters q) (held r s)
  unfolding unregister_agent send
  unregister-held q s =
      ground (arith, count-without q r s.registrations, count-without q r s.pending_registrations)

  step-held : (o : Options) (e : Event) (s : Service) → held r (step o e s).0 ≡ after r e (held r s)
  unfolding step disconnect send_remote_signals send handle_open reconnect_fires heartbeat_fires
      heartbeat_times_out ping_for_peer_count ping_times_out cleanup Keeps
  step-held o (connects made) s = connect-Keeps o made s
  step-held o disconnects s =
      set_state-Keeps disconnected (cleanup (record s { intentional_close = true })).0
  step-held o (registers q) s = register-held q s
  step-held o (unregisters q) s = unregister-held q s
  step-held o (signals dna []) s = refl
  step-held o (signals dna (x ∷ xs)) s = ground arith
  step-held o (sets_callbacks signal sign) s = refl
  step-held o (asks_peers call) s = ground arith
  step-held o (asks_peers_in_vain call) s = refl
  step-held o socket_opens s = try-Keeps (record s {
    ws = some is_open;
    reconnect_attempts = 0;
    failed_auth_agents = [];
    heartbeat_timer = true;
    heartbeat_timeout_timer = false;
  })
  step-held o socket_closes s = handle_close-Keeps o (record s { ws = some closing })
  step-held o (receives m) s = handle_message-Keeps m s
  step-held o (reconnects made) s =
      connect-Keeps o made (record s { reconnect_timer = false; ws = none })
  step-held o heartbeat s = ground arith
  step-held o heartbeat_timeout s = ground arith
  step-held o (challenge_signed sig) s = refl
  step-held o (info_signed id answer) s = refl

-- Whether the registration is asked for: whether the last call about it registers it.
unfoldable pub asked : Registration → List Event → Bool
asked r [] = false
asked r (registers q ∷ es) = reg_eq q r || asked r es
asked r (unregisters q ∷ es) = not (reg_eq q r) && asked r es
asked r (_ ∷ es) = asked r es

-- After any calls and events on a new service, whatever the linker sends and however often the
-- connection is lost, a registration is held once, pending or sent, if the last call about it
-- registers it, and is not held otherwise.
pub run-held :
    (o : Options) (r : Registration) (es : List Event)
    → held r (run o es new_service) ≡ (if asked r es then 1 else 0)
unfolding run asked
run-held o r [] = refl
run-held o r (e ∷ es) = ground (arith, step-held r o e (run o es new_service), run-held o r es)
