-- ===== src/Client/Connection/Monitor/Following.antt =====
-- What a listener to `connection:change` knows of the monitor.
use holo_web_conductor.Common.{
  ℕ, ◌≡◌, refl, sym, ◌∙◌, ap, Bool, true, false, ◌&&◌, not, Option, none, some, List, [], ◌∷◌, ◌++◌,
  Text, if◌then◌else◌, arith, seq_eq_iff, Bool-cases, inl, inr, leb, ltb, ◌+◌, suc,
}
use holo_web_conductor.Client.Connection.Types.{
  ConnectionStatus, connected, reconnecting, LinkerUrl, ConnectionState, ExtensionStatus, Event,
  change, failure, attempting, reconnected, status_eq, bool_eq, url_eq, text_eq, nat_eq,
  same_fields,
}
use holo_web_conductor.Client.Connection.Monitor.{
  Monitor, Result, then_emit, update_state, start, stop, report_call_success, report_call_failure,
  set_reconnecting, set_connected, set_disconnected, set_joining_service_error,
  apply_extension_status, check_health, is_network_error, max_failures_before_unhealthy,
  error_or_lost, push_staleness_ms,
}
use holo_web_conductor.Client.Connection.Monitor.Runs.{
  Call, started, stopped, succeeded, failed, tries, connects, disconnects, refused, pushed, checked,
  step, run,
}

status_eq_sound : (a b : ConnectionStatus) → status_eq a b ≡ true → a ≡ b
status_eq_sound a b h = ground arith

bool_eq_sound : (a b : Bool) → bool_eq a b ≡ true → a ≡ b
bool_eq_sound a b h = ground arith

url_eq_sound : (a b : LinkerUrl) → url_eq a b ≡ true → a ≡ b
url_eq_sound a b h = grind (arith, seq_eq_iff)

text_eq_sound : (a b : Option Text) → text_eq a b ≡ true → a ≡ b
text_eq_sound none none h = refl
text_eq_sound (some a) none h = cc
text_eq_sound none (some b) h = cc
text_eq_sound (some a) (some b) h = ground (arith, seq_eq_iff a b)

nat_eq_sound : (a b : Option ℕ) → nat_eq a b ≡ true → a ≡ b
nat_eq_sound a b h = ground arith

-- The state without the time until the next attempt, whose change alone is not told.
abbrev pub view : ConnectionState → ConnectionState
view s = record s { next_reconnect_ms = none }

both : (a b : Bool) → a && b ≡ true → (a ≡ true) × (b ≡ true)
both a b h = ground arith

same_fields_sound : (a b : ConnectionState) → same_fields a b ≡ true → view a ≡ view b
unfolding same_fields
same_fields_sound a b h =
    let (r8, h9) = both _ _ h in
    let (r7, h8) = both _ _ r8 in
    let (r6, h7) = both _ _ r7 in
    let (r5, h6) = both _ _ r6 in
    let (r4, h5) = both _ _ r5 in
    let (r3, h4) = both _ _ r4 in
    let (r2, h3) = both _ _ r3 in
    let (h1, h2) = both _ _ r2 in
    rw
      (
        status_eq_sound a.status b.status h1,
        bool_eq_sound a.http_healthy b.http_healthy h2,
        bool_eq_sound a.ws_healthy b.ws_healthy h3,
        bool_eq_sound a.authenticated b.authenticated h4,
        url_eq_sound a.linker_url b.linker_url h5,
        text_eq_sound a.last_error b.last_error h6,
        nat_eq_sound a.reconnect_attempt b.reconnect_attempt h7,
        text_eq_sound a.joining_service_error b.joining_service_error h8,
        nat_eq_sound a.peer_count b.peer_count h9,
      )
      refl

-- What a listener to `connection:change` knows after some events.
pub follow : ConnectionState → List Event → ConnectionState
follow known [] = known
follow known (change s ∷ events) = follow s events
follow known (failure message recoverable ∷ events) = follow known events
follow known (attempting attempt delay_ms ∷ events) = follow known events
follow known (reconnected ∷ events) = follow known events

follow-append :
    (known : ConnectionState) (a b : List Event) → follow known (a ++ b) ≡ follow (follow known a) b
unfolding follow
follow-append known [] b = refl
follow-append known (change s ∷ a) b = follow-append s a b
follow-append known (failure message recoverable ∷ a) b = follow-append known a b
follow-append known (attempting attempt delay_ms ∷ a) b = follow-append known a b
follow-append known (reconnected ∷ a) b = follow-append known a b

-- The listener knows the state of the monitor that a method leaves.
IsKnown : ConnectionState → Result → Type 0
IsKnown known (m, events) = view (follow known events) ≡ view m.state

update_state-IsKnown :
    (next : ConnectionState) (known : ConnectionState) (m : Monitor)
    → view known ≡ view m.state
    → IsKnown known (update_state next m)
unfolding update_state follow IsKnown
update_state-IsKnown next known m h = elim (Bool-cases (same_fields m.state next)) [
  | inl e ↦ rw e (h ∙ same_fields_sound m.state next e)
  | inr e ↦ rw e refl
]

unchanged-IsKnown :
    (known : ConnectionState) (m : Monitor) → view known ≡ view m.state → IsKnown known (m, [])
unfolding IsKnown follow
unchanged-IsKnown known m h = h

abbrev is_change : Event → Bool
is_change (change s) = true
is_change _ = false

then_emit-IsKnown :
    (e : Event) (known : ConnectionState) (r : Result)
    → is_change e ≡ false
    → IsKnown known r
    → IsKnown known (then_emit e r)
unfolding follow IsKnown
then_emit-IsKnown (change s) known (m, events) n h = cc
then_emit-IsKnown (failure a b) known (m, events) n h = rw follow-append h
then_emit-IsKnown (attempting a b) known (m, events) n h = rw follow-append h
then_emit-IsKnown reconnected known (m, events) n h = rw follow-append h

if-IsKnown :
    (known : ConnectionState) (test : Bool) (a b : Result)
    → IsKnown known a
    → IsKnown known b
    → IsKnown known (if test then a else b)
if-IsKnown known true a b h k = h
if-IsKnown known false a b h k = k

success-IsKnown :
    (known : ConnectionState) (m : Monitor)
    → view known ≡ view m.state
    → IsKnown known (report_call_success m)
unfolding report_call_success
success-IsKnown known m h =
    if-IsKnown known (status_eq m.state.status reconnecting) _ _
      (then_emit-IsKnown reconnected known _ refl (update_state-IsKnown _ known _ h))
      (if-IsKnown known (status_eq m.state.status connected) _ _ (unchanged-IsKnown known _ h)
        (update_state-IsKnown _ known _ h))

failure-IsKnown :
    (message : Text) (known : ConnectionState) (m : Monitor)
    → view known ≡ view m.state
    → IsKnown known (report_call_failure message m)
unfolding report_call_failure
failure-IsKnown message known m h =
    if-IsKnown known
      (is_network_error message && leb max_failures_before_unhealthy (suc m.consecutive_failures)) _
      _ (then_emit-IsKnown (failure message true) known _ refl (update_state-IsKnown _ known _ h))
      (unchanged-IsKnown known _ h)

apply-IsKnown :
    (now : ℕ) (s : ExtensionStatus) (known : ConnectionState) (m : Monitor)
    → view known ≡ view m.state
    → IsKnown known (apply_extension_status now s m)
unfolding apply_extension_status
apply-IsKnown now s known m h =
    if-IsKnown known (m.state.http_healthy && not s.http_healthy) _ _
      (then_emit-IsKnown (failure (error_or_lost s.last_error) true) known _ refl
        (update_state-IsKnown _ known _ h))
      (if-IsKnown known (not m.state.http_healthy && s.http_healthy) _ _
        (if-IsKnown known (status_eq m.state.status reconnecting) _ _
          (then_emit-IsKnown reconnected known _ refl (update_state-IsKnown _ known _ h))
          (update_state-IsKnown _ known _ h))
        (update_state-IsKnown _ known _ h))

check-IsKnown :
    (now : ℕ) (answer : Option ExtensionStatus) (later : ℕ) (known : ConnectionState) (m : Monitor)
    → view known ≡ view m.state
    → IsKnown known (check_health now answer later m)
unfolding check_health
check-IsKnown now none later known m h = unchanged-IsKnown known m h
check-IsKnown now (some s) later known m h =
    if-IsKnown known (ltb now (m.last_push_at + push_staleness_ms)) _ _
      (unchanged-IsKnown known m h) (apply-IsKnown later s known m h)

start-state : (has_api : Bool) (m : Monitor) → (start has_api m).state ≡ m.state
unfolding start
start-state has_api m = ground arith

step-IsKnown :
    (call : Call) (known : ConnectionState) (m : Monitor)
    → view known ≡ view m.state
    → IsKnown known (step call m)
unfolding step stop set_reconnecting set_connected set_disconnected set_joining_service_error
step-IsKnown (started has_api) known m h =
    unchanged-IsKnown known _ (h ∙ ap view (sym (start-state has_api m)))
step-IsKnown stopped known m h = unchanged-IsKnown known _ h
step-IsKnown succeeded known m h = success-IsKnown known m h
step-IsKnown (failed message) known m h = failure-IsKnown message known m h
step-IsKnown (tries attempt delay_ms) known m h =
    then_emit-IsKnown (attempting attempt delay_ms) known _ refl (update_state-IsKnown _ known m h)
step-IsKnown connects known m h = update_state-IsKnown _ known _ h
step-IsKnown (disconnects message) known m h = update_state-IsKnown _ known m h
step-IsKnown (refused message) known m h = update_state-IsKnown _ known m h
step-IsKnown (pushed now s) known m h = apply-IsKnown now s known m h
step-IsKnown (checked now answer later) known m h = check-IsKnown now answer later known m h

-- Over any calls, a listener to `connection:change` that knew the state before knows it after,
-- all but the time until the next attempt: no other change is left untold.
pub run-follow :
    (calls : List Call) (known : ConnectionState) (m : Monitor)
    → view known ≡ view m.state
    → let (m', events) = run calls m in view (follow known events) ≡ view m'.state
unfolding run follow IsKnown
run-follow [] known m h = h
run-follow (call ∷ calls) known m h =
    let (m', events) = step call m in
    rw (follow-append known events (run calls m').1)
      (run-follow calls (follow known events) m' (step-IsKnown call known m h))
