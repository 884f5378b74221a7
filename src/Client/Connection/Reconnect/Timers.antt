-- ===== src/Client/Connection/Reconnect/Timers.antt =====
-- How many attempts at reconnecting are under way at once, and what `cancel` stops.
use holo_web_conductor.Common.{
  ℕ, suc, ◌-◌, ◌<◌, ◌≡◌, ◌⊎◌, inl, inr, refl, Bool, true, false, ◌||◌, some, [], ◌∷◌, arith, ◌==◌,
  any, Bool-cases, ap, subst,
}
use holo_web_conductor.Client.Connection.Reconnect.{
  Config, Manager, reconnect, disarm, cancel, reset, fire, succeed, fail, Step, asked, cancels,
  resets, fires, succeeds, fails, Reach, here, next, is_off, fresh_manager,
}

-- No attempt waits or calls.
abbrev pub IsIdle : Manager → Type 0
IsIdle m = (m.armed ≡ []) × (m.calling ≡ 0)

-- One attempt waits on the last timer, and no call is in flight.
abbrev pub IsWaiting : Manager → Type 0
IsWaiting m =
    (id : ℕ) × (m.armed ≡ id ∷ [])
    × (m.timer ≡ some id)
    × (m.calling ≡ 0)
    × (m.is_reconnecting ≡ true)
    × (m.cancelled ≡ false)

-- One call is in flight, no timer is armed, and no other attempt can begin.
abbrev pub IsCalling : Manager → Type 0
IsCalling m = (m.armed ≡ []) × (m.calling ≡ 1) × (m.is_reconnecting || m.cancelled ≡ true)

abbrev pub IsOne : Manager → Type 0
IsOne m = IsIdle m ⊎ (IsWaiting m ⊎ IsCalling m)

-- A reset from outside finds no call in flight.
abbrev pub no_call : Manager → Bool
no_call m = m.calling == 0

start-IsOne :
    (c : Config) (jitter : ℕ → ℕ) (m : Manager) → IsIdle m → IsOne (reconnect c jitter m).0
unfolding reconnect
start-IsOne c jitter m h = elim (Bool-cases (m.is_reconnecting || m.cancelled)) [
  | inl busy ↦ rw busy (inl h)
  | inr free ↦ rw free (elim (Bool-cases (is_off c)) [
    | inl off ↦ rw off (inl h)
    | inr on ↦ rw on (inr (inl (m.made, ap (λ l. m.made ∷ l) h.0, refl, h.1, refl, refl)))
  ])
]

-- The manager that an attempt leaves which is not refused.
abbrev pub begun : Manager → Manager
begun m = record {
  attempt = suc m.attempt;
  timer = some m.made;
  is_reconnecting = true;
  cancelled = false;
  armed = m.made ∷ m.armed;
  made = suc m.made;
  calling = m.calling;
}

pub free-reconnect :
    (c : Config) (jitter : ℕ → ℕ) (m : Manager)
    → is_off c ≡ false
    → m.is_reconnecting || m.cancelled ≡ false
    → (reconnect c jitter m).0 ≡ begun m
unfolding reconnect
free-reconnect c jitter m on free = rw free (rw on refl)

busy-reconnect :
    (c : Config) (jitter : ℕ → ℕ) (m : Manager)
    → m.is_reconnecting || m.cancelled ≡ true
    → (reconnect c jitter m).0 ≡ m
unfolding reconnect
busy-reconnect c jitter m h = rw h refl

reconnect-IsOne :
    (c : Config) (jitter : ℕ → ℕ) (m : Manager) → IsOne m → IsOne (reconnect c jitter m).0
reconnect-IsOne c jitter m (inl h) = start-IsOne c jitter m h
reconnect-IsOne c jitter m (inr (inl (id, a, t, n, r, k))) =
    rw (busy-reconnect c jitter m (ground arith)) (inr (inl (id, a, t, n, r, k)))
reconnect-IsOne c jitter m (inr (inr (a, n, b))) =
    rw (busy-reconnect c jitter m b) (inr (inr (a, n, b)))

cancel-IsOne : (m : Manager) → IsOne m → IsOne (cancel m)
unfolding cancel disarm
cancel-IsOne m (inl (a, n)) = inl (rw a (ground arith), n)
cancel-IsOne m (inr (inl (id, a, t, n, r, k))) = inl (rw (t, a) (ground arith), n)
cancel-IsOne m (inr (inr (a, n, r))) = inr (inr (rw a (ground arith), n, ground arith))

reset-IsIdle : (m : Manager) → IsOne m → m.calling ≡ 0 → IsIdle (reset m)
unfolding reset disarm
reset-IsIdle m (inl (a, n)) e = (rw a (ground arith), e)
reset-IsIdle m (inr (inl (id, a, t, n, r, k))) e = (rw (t, a) (ground arith), e)
reset-IsIdle m (inr (inr (a, n, r))) e = (rw a (ground arith), e)

fire-IsOne :
    (id : ℕ) (m : Manager) → any (λ j. j == id) m.armed ≡ true → IsOne m → IsOne (fire id m)
unfolding fire disarm
fire-IsOne id m f (inl (a, n)) = absurd (ground (arith, a))
fire-IsOne id m f (inr (inl (j, a, t, n, r, k))) =
    inr (inr (rw (a, k) (ground arith), ground arith, ground arith))
fire-IsOne id m f (inr (inr (a, n, r))) = absurd (ground (arith, a))

-- The state that a call of `reconnectFn` ends in, before what follows.
ended-IsIdle : (m : Manager) → IsOne m → 0 < m.calling → (m.armed ≡ []) × (m.calling - 1 ≡ 0)
ended-IsIdle m (inl (a, n)) h = (a, omega arith)
ended-IsIdle m (inr (inl (j, a, t, n, r, k))) h = absurd (omega arith)
ended-IsIdle m (inr (inr (a, n, r))) h = (a, omega arith)

succeed-IsOne : (m : Manager) → IsOne m → 0 < m.calling → IsOne (succeed m)
unfolding succeed
succeed-IsOne m h f =
    let (a, n) = ended-IsIdle m h f in
    inl (reset-IsIdle (record m { calling = m.calling - 1 }) (inl (a, n)) n)

fail-IsOne :
    (c : Config) (jitter : ℕ → ℕ) (m : Manager)
    → IsOne m
    → 0 < m.calling
    → IsOne (fail c jitter m).0
unfolding fail
fail-IsOne c jitter m h f =
    start-IsOne c jitter (record m { calling = m.calling - 1; is_reconnecting = false })
      (ended-IsIdle m h f)

Step-IsOne : {c : Config} {t u : Manager} → Step c no_call t u → IsOne t → IsOne u
Step-IsOne {c} (asked jitter m) h = reconnect-IsOne c jitter m h
Step-IsOne (cancels m) h = cancel-IsOne m h
Step-IsOne (resets m e) h = inl (reset-IsIdle m h (ground arith))
Step-IsOne (fires id m f) h = fire-IsOne id m f h
Step-IsOne (succeeds m f) h = succeed-IsOne m h f
Step-IsOne {c} (fails jitter m f) h = fail-IsOne c jitter m h f

-- If `reset` is called from outside only while no call is in flight, then of a manager that starts
-- with none at most one attempt is under way at any time: no timer is armed and no call is in
-- flight, or one timer is armed, the one that `cancel` clears, or one call is in flight and no
-- other attempt can begin. `WebConductorAppClient` does not keep to that condition.
pub Reach-IsOne : (c : Config) (m u : Manager) → IsIdle m → Reach c no_call m u → IsOne u
Reach-IsOne c m u h here = inl h
Reach-IsOne c m u h (next {t} r s) = Step-IsOne s (Reach-IsOne c m t h r)

-- Nothing is under way, and nothing begins.
abbrev pub IsStopped : Manager → Type 0
IsStopped m = (m.armed ≡ []) × (m.calling ≡ 0) × (m.cancelled ≡ true) × (m.is_reconnecting ≡ false)

abbrev pub never : Manager → Bool
never m = false

Step-IsStopped : {c : Config} {t u : Manager} → Step c never t u → IsStopped t → IsStopped u
unfolding cancel disarm
Step-IsStopped {c} (asked jitter m) (a, n, k, r) =
    rw (busy-reconnect c jitter m (ground arith)) (a, n, k, r)
Step-IsStopped (cancels m) (a, n, k, r) = (rw a (ground arith), n, refl, refl)
Step-IsStopped (resets m e) h = cc
Step-IsStopped (fires id m f) (a, n, k, r) = absurd (ground (arith, a))
Step-IsStopped (succeeds m f) (a, n, k, r) = absurd (omega arith)
Step-IsStopped (fails jitter m f) (a, n, k, r) = absurd (omega arith)

cancel-IsStopped : (m : Manager) → IsOne m → m.calling ≡ 0 → IsStopped (cancel m)
unfolding cancel disarm
cancel-IsStopped m (inl (a, n)) e = (rw a (ground arith), e, refl, refl)
cancel-IsStopped m (inr (inl (id, a, t, n, r, k))) e = (rw (t, a) (ground arith), e, refl, refl)
cancel-IsStopped m (inr (inr (a, n, r))) e = (rw a (ground arith), e, refl, refl)

-- Where at most one attempt is under way and none is in its call, `cancel` stops it for good:
-- whatever happens after, but for a `reset`, no timer is armed and no call is made.
pub cancel-stops :
    (c : Config) (m u : Manager)
    → IsOne m
    → m.calling ≡ 0
    → Reach c never (cancel m) u
    → IsStopped u
cancel-stops c m u h e here = cancel-IsStopped m h e
cancel-stops c m u h e (next {t} r s) = Step-IsStopped s (cancel-stops c m t h e r)

abbrev pub always : Manager → Bool
always m = true

-- Where `reset` may be called while a call is in flight, a manager that is not switched off can
-- come to wait on two timers at once, and a `cancel` then leaves the first of them armed.
pub two_timers :
    (c : Config) (jitter : ℕ → ℕ)
    → is_off c ≡ false
    → (m : Manager) × Reach c always fresh_manager m
      × (m.armed ≡ 2 ∷ 1 ∷ [])
      × ((cancel m).armed ≡ 1 ∷ [])
unfolding fire reset fail cancel disarm
two_timers c jitter on =
    let m1 = begun fresh_manager in
    let m3 = reset (fire 0 m1) in
    let m4 = begun m3 in
    let m5 = begun (record m4 { calling = 0; is_reconnecting = false }) in
    let r1 : Reach c always fresh_manager m1 =
      subst (Reach c always fresh_manager) (free-reconnect c jitter fresh_manager on refl)
        (next here (asked jitter fresh_manager)) in
    let r3 : Reach c always fresh_manager m3 =
      next (next r1 (fires 0 m1 refl)) (resets (fire 0 m1) refl) in
    let r4 : Reach c always fresh_manager m4 =
      subst (Reach c always fresh_manager) (free-reconnect c jitter m3 on refl)
        (next r3 (asked jitter m3)) in
    let r5 : Reach c always fresh_manager m5 =
      subst (Reach c always fresh_manager)
        (free-reconnect c jitter (record m4 { calling = 0; is_reconnecting = false }) on refl)
        (next r4 (fails jitter m4 (omega arith))) in
    (m5, r5, refl, refl)
