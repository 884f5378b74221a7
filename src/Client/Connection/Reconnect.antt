-- ===== src/Client/Connection/Reconnect.antt =====
-- packages/client/src/connection/reconnect.ts: `ReconnectionManager`. A call of `reconnect` is
-- cut at its awaits: it waits on a timer, then on `reconnectFn`. The timers that are armed and the
-- calls of `reconnectFn` in flight are part of the state; a timer that is cleared never wakes its
-- call. The jitter is an argument.
pub mod Timers
pub mod Backoff
use holo_web_conductor.Common.{
  ℕ, zero, suc, ◌+◌, ◌-◌, ◌*◌, ◌^◌, ◌<◌, ◌≡◌, min, Bool, true, false, ◌||◌, not, Option, none, some,
  List, [], ◌∷◌, if◌then◌else◌, ◌==◌, or_else, keep, any,
}

-- `ConnectionConfig`, as far as the manager reads it.
pub record Config : Type 0 where
  pub auto_reconnect : Option Bool
  pub reconnect_delay_ms : Option ℕ
  pub max_reconnect_delay_ms : Option ℕ

-- `timer` is the last timer that was set; `armed` are those that are still to fire, and `made`
-- counts the timers made.
pub record Manager : Type 0 where
  pub attempt : ℕ
  pub timer : Option ℕ
  pub is_reconnecting : Bool
  pub cancelled : Bool
  pub armed : List ℕ
  pub made : ℕ
  pub calling : ℕ

-- The constructor
abbrev pub fresh_manager : Manager
fresh_manager = record {
  attempt = 0;
  timer = none;
  is_reconnecting = false;
  cancelled = false;
  armed = [];
  made = 0;
  calling = 0;
}

-- What `onStateChange` is told.
pub record Announcement : Type 0 where
  pub reconnect_attempt : ℕ
  pub next_reconnect_ms : ℕ

-- `getDelay`; `jitter` gives the whole part of what is added to a delay.
unfoldable pub get_delay : Config → (jitter : ℕ → ℕ) → (attempt : ℕ) → ℕ
get_delay c jitter attempt =
    let delay =
      min (or_else c.reconnect_delay_ms 1000 * 2 ^ (attempt - 1))
        (or_else c.max_reconnect_delay_ms 30000) in
    delay + jitter delay

-- `autoReconnect === false`
abbrev pub is_off : Config → Bool
is_off c = not (or_else c.auto_reconnect true)

-- `reconnect` up to the end of `wait`'s first part, which sets a timer.
unfoldable pub reconnect : Config → (jitter : ℕ → ℕ) → Manager → Manager × Option Announcement
reconnect c jitter m =
    if m.is_reconnecting || m.cancelled then (m, none) else if is_off c then (m, none) else (
      record {
        attempt = suc m.attempt;
        timer = some m.made;
        is_reconnecting = true;
        cancelled = false;
        armed = m.made ∷ m.armed;
        made = suc m.made;
        calling = m.calling;
      },
      some (record {
        reconnect_attempt = suc m.attempt;
        next_reconnect_ms = get_delay c jitter (suc m.attempt);
      }),
    )

-- `clearTimeout`; a timer that has fired is not there any more.
unfoldable pub disarm : Option ℕ → List ℕ → List ℕ
disarm none armed = armed
disarm (some id) armed = keep (λ j. not (j == id)) armed

-- `cancel`
unfoldable pub cancel : Manager → Manager
unfolding disarm
cancel m = record m {
  cancelled = true;
  armed = disarm m.timer m.armed;
  timer = none;
  is_reconnecting = false;
}

-- `reset`
unfoldable pub reset : Manager → Manager
unfolding disarm
reset m = record m {
  attempt = 0;
  is_reconnecting = false;
  cancelled = false;
  armed = disarm m.timer m.armed;
  timer = none;
}

-- A timer fires: the call that waits on it goes on, and calls `reconnectFn` unless it is cancelled.
unfoldable pub fire : ℕ → Manager → Manager
unfolding disarm
fire id m =
    let m' = record m { armed = disarm (some id) m.armed } in
    if m.cancelled
    then record m' { is_reconnecting = false }
    else record m' { calling = suc m.calling }

-- `reconnectFn` succeeds.
unfoldable pub succeed : Manager → Manager
unfolding reset
succeed m = reset (record m { calling = m.calling - 1 })

-- `reconnectFn` throws, and another attempt is scheduled.
unfoldable pub fail : Config → (jitter : ℕ → ℕ) → Manager → Manager × Option Announcement
unfolding reconnect
fail c jitter m = reconnect c jitter (record m { calling = m.calling - 1; is_reconnecting = false })

-- What happens to a manager: calls from outside, and the ends of its waits. `may_reset` says
-- where a call of `reset` from outside is considered; the one that `doReconnect` makes just before
-- it returns leaves what `succeed` leaves again.
pub data Step (c : Config) (may_reset : Manager → Bool) : Manager → Manager → Type 0 where
  asked : (jitter : ℕ → ℕ) (m : Manager) → Step c may_reset m (reconnect c jitter m).0
  cancels : (m : Manager) → Step c may_reset m (cancel m)
  resets : (m : Manager) → may_reset m ≡ true → Step c may_reset m (reset m)
  fires :
      (id : ℕ) (m : Manager) → any (λ j. j == id) m.armed ≡ true → Step c may_reset m (fire id m)
  succeeds : (m : Manager) → 0 < m.calling → Step c may_reset m (succeed m)
  fails : (jitter : ℕ → ℕ) (m : Manager) → 0 < m.calling → Step c may_reset m (fail c jitter m).0

pub data Reach (c : Config) (may_reset : Manager → Bool) (s : Manager) : Manager → Type 0 where
  here : Reach c may_reset s s
  next : {t u : Manager} → Reach c may_reset s t → Step c may_reset t u → Reach c may_reset s u
