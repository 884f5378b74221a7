-- ===== src/Network/WebSocket/Telling.antt =====
-- What tells the linker of a registration: the handlers of its answers, and the methods that
-- register and unregister.
use holo_web_conductor.Common.{
  ◌≡◌, refl, ◌∙◌, subst, true, false, not, ◌&&◌, Option, none, some, List, [], ◌∷◌, ◌++◌, Text,
  if◌then◌else◌, arith, All-append, Bool-cases, inl, inr,
}
use holo_web_conductor.Network.WebSocket.Messages.{
  Registration, register, Output, sends, ServerMessage, auth_ok, Ready, closing, is_open, opening,
  authenticating, connected, state_eq,
}
use holo_web_conductor.Network.WebSocket.Service.{
  Service, Handler, ◌>>◌, change, is_connected, set_state, send, authenticate, tracked,
  register_agent, without, unregister_agent, opened,
}
use holo_web_conductor.Network.WebSocket.Handlers.{
  process_pending_registrations, take_token, handle_auth_ok, handle_message,
}
use holo_web_conductor.Network.WebSocket.Steps.{}
use holo_web_conductor.Network.WebSocket.Steady.{settled, was_open}
use holo_web_conductor.Network.WebSocket.Wire.{
  Told, Told-more, Told-later, sent-Told, IsTold, more-IsTold, IsQuiet, quiet-IsTold,
  without-IsTold,
}
use holo_web_conductor.Network.WebSocket.Connecting.{told-IsQuiet, authenticate-IsQuiet}
use holo_web_conductor.Network.WebSocket.Quiet.{if-IsQuiet, message-IsQuiet}

process-IsTold :
    (outs before : List Output) (s : Service)
    → s.ws ≡ some is_open
    → Told outs s.registrations
    → IsTold
        (process_pending_registrations s).0.ws
        (outs ++ (before ++ (process_pending_registrations s).1))
        (process_pending_registrations s).0.registrations
unfolding process_pending_registrations
process-IsTold outs before s w h = rw w (
    All-append _ s.registrations s.pending_registrations (Told-more outs _ s.registrations h) (
      Told-later outs _ s.pending_registrations
        (Told-later before _ s.pending_registrations (sent-Told s.pending_registrations))))

-- After a handler that leaves them alone, the pending registrations are told.
then_process-IsTold :
    (h : Handler) (outs : List Output) (s : Service)
    → IsQuiet (h s) s
    → s.ws ≡ some is_open
    → Told outs s.registrations
    → IsTold
        ((h >> process_pending_registrations) s).0.ws
        (outs ++ ((h >> process_pending_registrations) s).1)
        ((h >> process_pending_registrations) s).0.registrations
then_process-IsTold h outs s (w, r) live told =
    process-IsTold outs (h s).1 (h s).0 (w ∙ live) (rw r told)

then-IsQuiet :
    (h k : Handler) (s : Service)
    → IsQuiet (h s) s
    → IsQuiet (k (h s).0) (h s).0
    → IsQuiet ((h >> k) s) s
then-IsQuiet h k s (w, r) (w', r') = (w' ∙ w, r' ∙ r)

accept : Handler
accept = change (λ t. record t { authenticated = true; pending_auth_agent = none })

accept_token : Option Text → Handler
accept_token token = accept >> take_token token

accept_token-IsQuiet : (token : Option Text) (s : Service) → IsQuiet (accept_token token s) s
unfolding accept_token accept
accept_token-IsQuiet none s = (refl, refl)
accept_token-IsQuiet (some []) s = (refl, refl)
accept_token-IsQuiet (some (c ∷ cs)) s = (refl, refl)

handle_auth_ok_parts :
    (token : Option Text)
    → handle_auth_ok token
      ≡ (accept_token token >> set_state connected >> process_pending_registrations)
unfolding handle_auth_ok accept_token accept
handle_auth_ok_parts token = refl

auth_ok-IsTold :
    (token : Option Text) (outs : List Output) (s : Service)
    → s.ws ≡ some is_open
    → Told outs s.registrations
    → IsTold
        (handle_auth_ok token s).0.ws
        (outs ++ (handle_auth_ok token s).1)
        (handle_auth_ok token s).0.registrations
auth_ok-IsTold token outs s w h = rw (handle_auth_ok_parts token) (
    then_process-IsTold (accept_token token >> set_state connected) outs s
      (then-IsQuiet (accept_token token) (set_state connected) s (accept_token-IsQuiet token s)
        (told-IsQuiet connected (accept_token token s).0))
      w h)

pub message-IsTold :
    (m : ServerMessage) (outs : List Output) (s : Service)
    → s.ws ≡ some is_open
    → IsTold s.ws outs s.registrations
    → IsTold
        (handle_message m s).0.ws
        (outs ++ (handle_message m s).1)
        (handle_message m s).0.registrations
unfolding handle_message
message-IsTold (auth_ok token) outs s w h =
    auth_ok-IsTold token outs s w (subst (λ v. IsTold v outs s.registrations) w h)
message-IsTold m outs s w h = quiet-IsTold outs (handle_message m s) s (message-IsQuiet m s refl) h

-- A registration that is sent over a socket that has been open.
added-IsTold :
    (r : Registration) (w : Option Ready) (outs : List Output) (rs : List Registration)
    → was_open w ≡ true
    → IsTold w outs rs
    → IsTold w (outs ++ ((if opened w then sends (register r) ∷ [] else []) ++ [])) (rs ++ r ∷ [])
added-IsTold r none outs rs o h = cc
added-IsTold r (some opening) outs rs o h = cc
added-IsTold r (some is_open) outs rs o h =
    All-append _ rs (r ∷ []) (Told-more outs _ rs h)
      (Told-later outs _ (r ∷ []) (sent-Told (r ∷ [])))
added-IsTold r (some closing) outs rs o h = tt

ask-IsQuiet :
    (r : Registration) (s : Service)
    → IsQuiet
        (if opened s.ws && not s.authenticated && not (state_eq s.state authenticating)
          then authenticate r.agent_pubkey s
          else (s, []))
        s
ask-IsQuiet r s =
    if-IsQuiet _ (authenticate r.agent_pubkey s) (s, []) s (authenticate-IsQuiet r.agent_pubkey s)
      (refl, refl)

-- A registration that has to wait.
wait-IsQuiet :
    (r : Registration) (s : Service) → is_connected s ≡ false → IsQuiet (register_agent r s) s
unfolding register_agent
wait-IsQuiet r s off = elim (Bool-cases (tracked r s)) [
  | inl old ↦ rw (off, register_agent, old) (ask-IsQuiet r s)
  | inr new ↦
      rw (off, register_agent, new)
        (ask-IsQuiet r (record s { pending_registrations = s.pending_registrations ++ r ∷ [] }))
]

-- A registration over a socket that has been open is told at once.
pub register-IsTold :
    (r : Registration) (outs : List Output) (s : Service)
    → settled s ≡ true
    → IsTold s.ws outs s.registrations
    → IsTold
        (register_agent r s).0.ws
        (outs ++ (register_agent r s).1)
        (register_agent r s).0.registrations
unfolding register_agent
register-IsTold r outs s g h = elim (Bool-cases (is_connected s)) [
  | inl on ↦ elim (Bool-cases (tracked r s)) [
    | inl old ↦ rw (on, register_agent, old) (more-IsTold s.ws outs _ s.registrations h)
    | inr new ↦
        rw (on, register_agent, new) (added-IsTold r s.ws outs s.registrations (ground arith) h)
  ]
  | inr off ↦ quiet-IsTold outs (register_agent r s) s (wait-IsQuiet r s off) h
]

pub unregister-IsTold :
    (q : Registration) (outs : List Output) (s : Service)
    → IsTold s.ws outs s.registrations
    → IsTold
        (unregister_agent q s).0.ws
        (outs ++ (unregister_agent q s).1)
        (unregister_agent q s).0.registrations
unfolding unregister_agent send
unregister-IsTold q outs s h = elim (Bool-cases (is_connected s)) [
  | inl on ↦
      rw (on, unregister_agent)
        (more-IsTold s.ws outs _ (without q s.registrations)
          (without-IsTold s.ws outs q s.registrations h))
  | inr off ↦
      rw (off, unregister_agent)
        (more-IsTold s.ws outs [] (without q s.registrations)
          (without-IsTold s.ws outs q s.registrations h))
]
