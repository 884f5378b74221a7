-- ===== src/Network/WebSocket/Steady.antt =====
-- What can be said of the connection at any time, and that its parts keep it.
use holo_web_conductor.Common.{
  ◌≡◌, refl, Bool, true, false, not, ◌&&◌, ◌||◌, Option, none, some, List, [], ◌∷◌, Text,
  if◌then◌else◌, arith, leb, Bool-cases, inl, inr, is_some, Option-cases,
}
use holo_web_conductor.Network.WebSocket.Messages.{
  Output, ConnectionState, Options, Ready, closing, is_open, connecting, connected, disconnected,
  state_eq,
}
use holo_web_conductor.Network.WebSocket.Service.{
  Service, set_state, send, schedule_reconnect, connect, authenticate, next_agent,
  try_authenticate_next_agent,
}
use holo_web_conductor.Network.WebSocket.Handlers.{handle_auth_challenge, handle_sign_agent_info}
use holo_web_conductor.Network.WebSocket.Steps.{}

abbrev pub is_empty {ℓ} : {A : Type ℓ} → List A → Bool
is_empty [] = true
is_empty (x ∷ xs) = false

-- The socket has been open.
abbrev pub was_open : Option Ready → Bool
was_open (some is_open) = true
was_open (some closing) = true
was_open _ = false

-- An authenticated service is connected over a socket that has been open, and has no registration
-- left to send.
abbrev pub settled : Service → Bool
settled s =
    not s.authenticated
    || (state_eq s.state connected && was_open s.ws && is_empty s.pending_registrations)

-- A service that does not call itself disconnected has a socket, or a timer that will make one.
abbrev pub alive : Service → Bool
alive s = state_eq s.state disconnected || is_some s.ws || s.reconnect_timer

-- The timer is set only while there is no socket.
abbrev pub lone : Service → Bool
lone s = not s.reconnect_timer || not (is_some s.ws)

-- A service with a socket or with the timer set was not told to disconnect.
abbrev pub wanted : Service → Bool
wanted s = not (is_some s.ws || s.reconnect_timer) || not s.intentional_close

-- No more attempts were made than are allowed.
abbrev pub bounded : Options → Service → Bool
bounded o s = elim o.max_reconnect_attempts [ none ↦ true | some n ↦ leb s.reconnect_attempts n ]

pub record IsSteady (o : Options) (s : Service) : Type 0 where
  pub is_settled : settled s ≡ true
  pub is_alive : alive s ≡ true
  pub is_lone : lone s ≡ true
  pub is_wanted : wanted s ≡ true
  pub is_bounded : bounded o s ≡ true

pub challenge_same : (challenge : Text) (s : Service) → (handle_auth_challenge challenge s).0 ≡ s
unfolding handle_auth_challenge send
challenge_same challenge s = ground arith

pub sign_same :
    (id agent : Text) (invalid : Option Text) (s : Service)
    → (handle_sign_agent_info id agent invalid s).0 ≡ s
unfolding handle_sign_agent_info send
sign_same id agent invalid s = ground arith

module _ (o : Options) where
  pub schedule_reconnect-Good :
      (s : Service)
      → s.authenticated ≡ false
      → is_some s.ws ≡ false
      → s.intentional_close ≡ false
      → bounded o s ≡ true
      → IsSteady o (schedule_reconnect o s).0
  unfolding schedule_reconnect set_state
  schedule_reconnect-Good s a w i b = record {
    is_settled = ground arith;
    is_alive = ground arith;
    is_lone = ground arith;
    is_wanted = ground arith;
    is_bounded = ground arith;
  }

  pub if-Good :
      (test : Bool) (x y : Service × List Output)
      → IsSteady o x.0
      → IsSteady o y.0
      → IsSteady o (if test then x else y).0
  if-Good true x y h k = h
  if-Good false x y h k = k

  pub gone-Good :
      (s : Service)
      → s.authenticated ≡ false
      → s.reconnect_timer ≡ false
      → is_some s.ws ≡ false
      → bounded o s ≡ true
      → IsSteady o (set_state disconnected s).0
  unfolding set_state
  gone-Good s a t w b = record {
    is_settled = ground arith;
    is_alive = ground arith;
    is_lone = ground arith;
    is_wanted = ground arith;
    is_bounded = ground arith;
  }

  -- Any state but disconnected may be told of a socket that is not authenticated.
  pub told-Good :
      (c : ConnectionState) (s : Service)
      → IsSteady o s
      → s.authenticated ≡ false
      → is_some s.ws ≡ true
      → IsSteady o (set_state c s).0
  unfolding set_state
  told-Good c s h a w = record {
    is_settled = ground arith;
    is_alive = ground arith;
    is_lone = ground (arith, h.is_lone);
    is_wanted = ground (arith, h.is_wanted);
    is_bounded = ground (arith, h.is_bounded);
  }

  pub connect_free :
      (made : Bool) (s : Service)
      → settled s ≡ true
      → bounded o s ≡ true
      → s.reconnect_timer ≡ false
      → is_some s.ws ≡ false
      → IsSteady o (connect o made s).0
  unfolding connect set_state
  connect_free true s h b t w =
      rw (w, connect)
        (record {
          is_settled = ground arith;
          is_alive = ground arith;
          is_lone = ground arith;
          is_wanted = ground arith;
          is_bounded = ground arith;
        })
  connect_free false s h b t w =
      let s' = (set_state connecting (record s { intentional_close = false })).0 in
      rw (w, connect)
        (schedule_reconnect-Good s' (ground arith) (ground arith) (ground arith) (ground arith))

  pub connect-Good :
      (made : Bool) (s : Service)
      → IsSteady o s
      → s.reconnect_timer ≡ false
      → IsSteady o (connect o made s).0
  unfolding connect
  connect-Good made s h t = elim (Bool-cases (is_some s.ws)) [
    | inl held ↦ rw (held, connect) h
    | inr free ↦ connect_free made s h.is_settled h.is_bounded t free
  ]

  authenticate-Good :
      (a : Text) (s : Service)
      → IsSteady o s
      → s.authenticated ≡ false
      → is_some s.ws ≡ true
      → IsSteady o (authenticate a s).0
  unfolding authenticate set_state send
  authenticate-Good a s h n w = record {
    is_settled = ground arith;
    is_alive = ground arith;
    is_lone = ground (arith, h.is_lone);
    is_wanted = ground (arith, h.is_wanted);
    is_bounded = ground (arith, h.is_bounded);
  }

  pub try-Good :
      (s : Service)
      → IsSteady o s
      → s.authenticated ≡ false
      → is_some s.ws ≡ true
      → IsSteady o (try_authenticate_next_agent s).0
  unfolding try_authenticate_next_agent
  try-Good s h n w = elim (Option-cases (next_agent s)) [
    | inl e ↦ rw (e, try_authenticate_next_agent) h
    | inr (a, e) ↦ rw (e, try_authenticate_next_agent) (authenticate-Good a s h n w)
  ]

  pub try-socket :
      (s : Service)
      → ((try_authenticate_next_agent s).0.ws ≡ s.ws)
        × ((try_authenticate_next_agent s).0.authenticated ≡ s.authenticated)
  unfolding try_authenticate_next_agent authenticate set_state send
  try-socket s = (ground arith, ground arith)

  pub dropped :
      (s : Service) (f : List Text) (p : Option Text)
      → IsSteady o s
      → is_some s.ws ≡ true
      → IsSteady o
          (record s { authenticated = false; failed_auth_agents = f; pending_auth_agent = p })
  dropped s f p h w = record {
    is_settled = refl;
    is_alive = h.is_alive;
    is_lone = h.is_lone;
    is_wanted = h.is_wanted;
    is_bounded = h.is_bounded;
  }

  -- Only some fields of the service matter.
  abbrev pub IsLike : Service → Service → Type 0
  IsLike s t =
      (s.authenticated ≡ t.authenticated)
      × (s.state ≡ t.state)
      × (s.ws ≡ t.ws)
      × (s.pending_registrations ≡ t.pending_registrations)
      × (s.reconnect_timer ≡ t.reconnect_timer)
      × (s.reconnect_attempts ≡ t.reconnect_attempts)
      × (s.intentional_close ≡ t.intentional_close)

  pub like : (s t : Service) → IsLike s t → IsSteady o s → IsSteady o t
  like s t (a, c, w, p, r, n, i) h = record {
    is_settled = rw (← a, ← c, ← w, ← p) h.is_settled;
    is_alive = rw (← c, ← w, ← r) h.is_alive;
    is_lone = rw (← r, ← w) h.is_lone;
    is_wanted = rw (← w, ← r, ← i) h.is_wanted;
    is_bounded = rw (← n) h.is_bounded;
  }

  pub closing_socket :
      (s : Service)
      → IsSteady o s
      → is_some s.ws ≡ true
      → IsSteady o (record s { ws = some closing })
  closing_socket s h w = record {
    is_settled = ground (arith, h.is_settled);
    is_alive = ground arith;
    is_lone = ground (arith, h.is_lone);
    is_wanted = ground (arith, h.is_wanted);
    is_bounded = h.is_bounded;
  }
