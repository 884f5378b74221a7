-- ===== src/Network/WebSocket/Quiet.antt =====
-- The messages that leave the socket and the sent registrations alone.
use holo_web_conductor.Common.{
  ◌≡◌, refl, ◌∙◌, ap, Bool, true, false, Option, none, some, List, [], ◌∷◌, ◌++◌, Text,
  if◌then◌else◌, inl, inr, is_some, Option-cases,
}
use holo_web_conductor.Network.WebSocket.Messages.{
  Output, ServerMessage, auth_ok, auth_challenge, auth_error, registered, unregistered,
  remote_signal, pong, server_error, sign_agent_info, unreadable, connected,
}
use holo_web_conductor.Network.WebSocket.Service.{Service, set_state, try_authenticate_next_agent}
use holo_web_conductor.Network.WebSocket.Handlers.{
  take_token, handle_auth_error, handle_auth_challenge, handle_pong, handle_sign_agent_info,
  handle_message, pending_agent,
}
use holo_web_conductor.Network.WebSocket.Steps.{}
use holo_web_conductor.Network.WebSocket.Steady.{challenge_same, sign_same}
use holo_web_conductor.Network.WebSocket.Wire.{is_auth_ok, IsQuiet, IsQuiet, is_auth_ok}
use holo_web_conductor.Network.WebSocket.Connecting.{told-IsQuiet, try-IsQuiet}

same-IsQuiet : (x : Service × List Output) (s : Service) → x.0 ≡ s → IsQuiet x s
same-IsQuiet x s e = (ap (λ t. t.ws) e, ap (λ t. t.registrations) e)

pub if-IsQuiet :
    (test : Bool) (x y : Service × List Output) (s : Service)
    → IsQuiet x s
    → IsQuiet y s
    → IsQuiet (if test then x else y) s
if-IsQuiet true x y s h k = h
if-IsQuiet false x y s h k = k

auth_error-IsQuiet : (s : Service) → IsQuiet (handle_auth_error s) s
unfolding handle_auth_error
auth_error-IsQuiet s = elim (Option-cases (pending_agent s)) [
  | inl e ↦ rw (e, handle_auth_error) (told-IsQuiet connected (record s { authenticated = false }))
  | inr (a, e) ↦
      let t = record s {
        authenticated = false;
        failed_auth_agents = s.failed_auth_agents ++ a ∷ [];
        pending_auth_agent = none;
      } in
      let t' = (try_authenticate_next_agent t).0 in
      let (w, r) = try-IsQuiet t in
      let (w', r') = told-IsQuiet connected t' in
      let b = is_some (pending_agent t') in
      let (w2, r2) : IsQuiet (if b then (t', []) else set_state connected t') s =
        if-IsQuiet b _ _ s (w, r) (w' ∙ w, r' ∙ r) in
      rw (e, handle_auth_error) (w2, r2)
]

pub message-IsQuiet :
    (m : ServerMessage) (s : Service) → is_auth_ok m ≡ false → IsQuiet (handle_message m s) s
unfolding handle_message handle_pong
message-IsQuiet (auth_ok token) s n = cc
message-IsQuiet (auth_challenge challenge) s n =
    same-IsQuiet (handle_auth_challenge challenge s) s (challenge_same challenge s)
message-IsQuiet (auth_error message) s n = auth_error-IsQuiet s
message-IsQuiet (registered q) s n = (refl, refl)
message-IsQuiet (unregistered q) s n = (refl, refl)
message-IsQuiet (remote_signal dna to from zome payload) s n = (refl, refl)
message-IsQuiet (pong c) s n = (refl, refl)
message-IsQuiet (server_error message) s n = (refl, refl)
message-IsQuiet (sign_agent_info id agent invalid) s n =
    same-IsQuiet (handle_sign_agent_info id agent invalid s) s (sign_same id agent invalid s)
message-IsQuiet unreadable s n = (refl, refl)

take_token-IsQuiet : (token : Option Text) (s : Service) → IsQuiet (take_token token s) s
take_token-IsQuiet none s = (refl, refl)
take_token-IsQuiet (some []) s = (refl, refl)
take_token-IsQuiet (some (c ∷ cs)) s = (refl, refl)
