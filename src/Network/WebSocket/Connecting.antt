-- ===== src/Network/WebSocket/Connecting.antt =====
-- What a connection and an authentication leave of the socket and of the sent registrations.
use holo_web_conductor.Common.{
  ◌≡◌, refl, ◌∙◌, ap, subst, Bool, true, false, none, some, List, [], ◌++◌, Text, if◌then◌else◌,
  arith, inl, inr, is_some, Option-cases,
}
use holo_web_conductor.Network.WebSocket.Messages.{
  ConnectionState, Registration, Output, Options, opening, connecting,
}
use holo_web_conductor.Network.WebSocket.Service.{
  Service, set_state, send, schedule_reconnect, connect, authenticate, try_authenticate_next_agent,
}
use holo_web_conductor.Network.WebSocket.Handlers.{}
use holo_web_conductor.Network.WebSocket.Steps.{}
use holo_web_conductor.Network.WebSocket.Wire.{IsTold, IsQuiet, quiet-IsTold, IsTold, IsQuiet}

pub schedule-IsQuiet : (o : Options) (s : Service) → IsQuiet (schedule_reconnect o s) s
unfolding schedule_reconnect set_state
schedule-IsQuiet o s = (ground arith, ground arith)

pub told-IsQuiet : (c : ConnectionState) (s : Service) → IsQuiet (set_state c s) s
unfolding set_state
told-IsQuiet c s = (ground arith, ground arith)

-- A socket that was just made.
empty-IsTold :
    (made : Bool) (outs : List Output) (rs : List Registration)
    → rs ≡ []
    → IsTold (if made then some opening else none) outs rs
empty-IsTold true outs rs h = h
empty-IsTold false outs rs h = h

connect_unmade :
    (o : Options) (s : Service)
    → s.ws ≡ none
    → (connect o false s).0
      ≡ (schedule_reconnect o (set_state connecting (record s { intentional_close = false })).0).0
unfolding connect
connect_unmade o s w = rw (w, connect) refl

connect_made :
    (o : Options) (s : Service)
    → s.ws ≡ none
    → (connect o true s).0.registrations
      ≡ (set_state connecting (record s { intentional_close = false })).0.registrations
unfolding connect
connect_made o s w = rw (w, connect) refl

pub connect_made-ws :
    (o : Options) (s : Service) → s.ws ≡ none → (connect o true s).0.ws ≡ some opening
unfolding connect
connect_made-ws o s w = rw (w, connect) refl

connect-socket :
    (o : Options) (made : Bool) (s : Service)
    → s.ws ≡ none
    → ((connect o made s).0.ws ≡ (if made then some opening else none))
      × ((connect o made s).0.registrations ≡ s.registrations)
connect-socket o true s w =
    let t = record s { intentional_close = false } in
    (connect_made-ws o s w, connect_made o s w ∙ (told-IsQuiet connecting t).1)
connect-socket o false s w =
    let t = record s { intentional_close = false } in
    let t' = (set_state connecting t).0 in
    let (w1, r1) = told-IsQuiet connecting t in
    let (w2, r2) = schedule-IsQuiet o t' in
    let same = connect_unmade o s w in
    (ap (λ u. u.ws) same ∙ w2 ∙ w1 ∙ w, ap (λ u. u.registrations) same ∙ r2 ∙ r1)

connect_same :
    (o : Options) (made : Bool) (s : Service) → is_some s.ws ≡ true → connect o made s ≡ (s, [])
unfolding connect
connect_same o made s h = rw (h, connect) refl

pub connect-IsTold :
    (o : Options) (made : Bool) (outs : List Output) (s : Service)
    → IsTold s.ws outs s.registrations
    → IsTold
        (connect o made s).0.ws
        (outs ++ (connect o made s).1)
        (connect o made s).0.registrations
connect-IsTold o made outs s h = elim (Option-cases s.ws) [
  | inl e ↦
      let (w, r) = connect-socket o made s e in
      rw (w, r) (empty-IsTold made _ _ (subst (λ v. IsTold v outs s.registrations) e h))
  | inr (a, e) ↦
      let same = connect_same o made s (ap is_some e) in
      quiet-IsTold outs (connect o made s) s
        (ap (λ x. x.0.ws) same, ap (λ x. x.0.registrations) same) h
]

pub authenticate-IsQuiet : (agent : Text) (s : Service) → IsQuiet (authenticate agent s) s
unfolding authenticate set_state send
authenticate-IsQuiet agent s = (ground arith, ground arith)

pub try-IsQuiet : (s : Service) → IsQuiet (try_authenticate_next_agent s) s
unfolding try_authenticate_next_agent authenticate set_state send
try-IsQuiet s = (ground arith, ground arith)
