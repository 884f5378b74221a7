-- ===== src/Network/WebSocket/Wire.antt =====
-- What went out to the linker over a socket, and the registrations that it was told of.
use holo_web_conductor.Common.{
  ◌≡◌, refl, Bool, true, false, Option, none, some, List, [], ◌∷◌, ◌++◌, if◌then◌else◌, arith, any,
  All, All-keep, map,
}
use holo_web_conductor.Network.WebSocket.Messages.{
  Registration, reg_eq, register, Output, sends, ServerMessage, auth_ok, Options, Ready, closing,
  is_open, opening,
}
use holo_web_conductor.Network.WebSocket.Service.{Service, new_service, without}
use holo_web_conductor.Network.WebSocket.Handlers.{}
use holo_web_conductor.Network.WebSocket.Steps.{Event, socket_opens, step, run}
use holo_web_conductor.Network.WebSocket.Registrations.{reg_eq_refl}

abbrev pub is_register : Registration → Output → Bool
is_register r (sends (register q)) = reg_eq q r
is_register r _ = false

abbrev pub is_auth_ok : ServerMessage → Bool
is_auth_ok (auth_ok token) = true
is_auth_ok _ = false

abbrev pub opens : Event → Bool
opens socket_opens = true
opens _ = false

-- What went out since the last socket was opened; the last event comes first.
unfoldable pub wire : Options → List Event → List Output
wire o [] = []
wire o (e ∷ es) =
    let before = wire o es in
    (if opens e then [] else before) ++ (step o e (run o es new_service)).1

-- The linker was told of each registration of the list.
abbrev pub Told : List Output → List Registration → Type 0
Told outs = All (λ r. any (is_register r) outs ≡ true)

any-append_left :
    {A : Type 0} (p : A → Bool) (a b : List A) → any p a ≡ true → any p (a ++ b) ≡ true
any-append_left p [] b h = cc
any-append_left p (x ∷ a) b h = ground (arith, any-append_left p a b)

any-append_right :
    {A : Type 0} (p : A → Bool) (a b : List A) → any p b ≡ true → any p (a ++ b) ≡ true
any-append_right p [] b h = h
any-append_right p (x ∷ a) b h = ground (arith, any-append_right p a b h)

pub Told-more : (a b : List Output) (rs : List Registration) → Told a rs → Told (a ++ b) rs
Told-more a b [] h = tt
Told-more a b (r ∷ rs) h = (any-append_left (is_register r) a b h.0, Told-more a b rs h.1)

pub Told-later : (a b : List Output) (rs : List Registration) → Told b rs → Told (a ++ b) rs
Told-later a b [] h = tt
Told-later a b (r ∷ rs) h = (any-append_right (is_register r) a b h.0, Told-later a b rs h.1)

-- Sending registrations tells of them.
pub sent-Told : (rs : List Registration) → Told (map (λ r. sends (register r)) rs) rs
sent-Told [] = tt
sent-Told (r ∷ rs) = (
  ground (arith, reg_eq_refl r),
  Told-later (sends (register r) ∷ []) (map (λ q. sends (register q)) rs) rs (sent-Told rs),
)

-- While the socket is open the linker was told of each registration that counts as sent; without a
-- socket, or before it opens, none counts as sent.
abbrev pub IsTold : Option Ready → List Output → List Registration → Type 0
IsTold none outs rs = rs ≡ []
IsTold (some opening) outs rs = rs ≡ []
IsTold (some is_open) outs rs = Told outs rs
IsTold (some closing) outs rs = Unit

pub more-IsTold :
    (w : Option Ready) (a b : List Output) (rs : List Registration)
    → IsTold w a rs
    → IsTold w (a ++ b) rs
more-IsTold none a b rs h = h
more-IsTold (some opening) a b rs h = h
more-IsTold (some is_open) a b rs h = Told-more a b rs h
more-IsTold (some closing) a b rs h = tt

-- The event leaves the socket and the sent registrations alone.
abbrev pub IsQuiet : Service × List Output → Service → Type 0
IsQuiet x s = (x.0.ws ≡ s.ws) × (x.0.registrations ≡ s.registrations)

pub quiet-IsTold :
    (outs : List Output) (x : Service × List Output) (s : Service)
    → IsQuiet x s
    → IsTold s.ws outs s.registrations
    → IsTold x.0.ws (outs ++ x.1) x.0.registrations
quiet-IsTold outs x s (w, r) h = rw (w, r) (more-IsTold s.ws outs x.1 s.registrations h)

pub without-IsTold :
    (w : Option Ready) (outs : List Output) (q : Registration) (rs : List Registration)
    → IsTold w outs rs
    → IsTold w outs (without q rs)
without-IsTold none outs q rs h = rw h refl
without-IsTold (some opening) outs q rs h = rw h refl
without-IsTold (some is_open) outs q rs h = All-keep _ _ rs h
without-IsTold (some closing) outs q rs h = tt
