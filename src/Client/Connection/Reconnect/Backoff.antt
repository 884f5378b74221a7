-- ===== src/Client/Connection/Reconnect/Backoff.antt =====
-- The delays between attempts.
use native.Mathlib.Nat.{pow-suc}
use holo_web_conductor.Common.{
  ℕ, zero, suc, ◌-◌, ◌*◌, ◌^◌, ◌≤◌, ◌≡◌, min, true, false, some, arith, or_else, refl, ap, ◌∙◌, [],
  ◌∷◌,
}
use holo_web_conductor.Client.Connection.Reconnect.{
  Config, Manager, get_delay, reconnect, fire, fail, succeed, disarm, reset, is_off, fresh_manager,
}
use holo_web_conductor.Client.Connection.Reconnect.Timers.{free-reconnect}

-- The jitter adds at most a fifth.
abbrev pub IsJitter : (ℕ → ℕ) → Type 0
IsJitter jitter = (d : ℕ) → 5 * jitter d ≤ d

abbrev pub base_of : Config → ℕ
base_of c = or_else c.reconnect_delay_ms 1000

abbrev pub max_of : Config → ℕ
max_of c = or_else c.max_reconnect_delay_ms 30000

pow_pos : (n : ℕ) → 1 ≤ 2 ^ n
pow_pos zero = omega arith
pow_pos (suc n) = rw pow-suc (omega (arith, pow_pos n))

delay-ge : (base max n : ℕ) → min base max ≤ min (base * 2 ^ n) max
delay-ge base max n = grind (arith, pow_pos n)

-- Where the jitter adds at most a fifth, a delay is never below the smaller of the base and the
-- largest delay, and above the largest by at most a fifth.
pub get_delay-bounds :
    (c : Config) (jitter : ℕ → ℕ) (attempt : ℕ)
    → IsJitter jitter
    → (min (base_of c) (max_of c) ≤ get_delay c jitter attempt)
      × (5 * get_delay c jitter attempt ≤ 6 * max_of c)
unfolding get_delay
get_delay-bounds c jitter attempt h = (
  omega (arith, delay-ge (base_of c) (max_of c) (attempt - 1)),
  omega (arith, h (min (base_of c * 2 ^ (attempt - 1)) (max_of c))),
)

-- A manager after its first attempt has failed `n` times in a row: each time the last timer fires
-- and the call throws.
pub after_failures : Config → (ℕ → ℕ) → ℕ → Manager
unfolding reconnect fire fail
after_failures c jitter zero = (reconnect c jitter fresh_manager).0
after_failures c jitter (suc n) = (fail c jitter (fire n (after_failures c jitter n))).0

-- The manager that waits for the attempt `n + 1`.
abbrev pub waiting_for : ℕ → Manager
waiting_for n = record {
  attempt = suc n;
  timer = some n;
  is_reconnecting = true;
  cancelled = false;
  armed = n ∷ [];
  made = suc n;
  calling = 0;
}

fire_waiting : (n : ℕ) → (fire n (waiting_for n)).armed ≡ []
unfolding fire disarm
fire_waiting n = ground arith

fails_again :
    (c : Config) (jitter : ℕ → ℕ) (n : ℕ)
    → is_off c ≡ false
    → (fail c jitter (fire n (waiting_for n))).0 ≡ waiting_for (suc n)
unfolding fire fail
fails_again c jitter n on =
    free-reconnect c jitter
      (record (fire n (waiting_for n)) { calling = 0; is_reconnecting = false }) on refl
    ∙ rw (fire_waiting n) refl

succeeds_at : (n : ℕ) → succeed (fire n (waiting_for n)) ≡ record fresh_manager { made = suc n }
unfolding fire succeed reset
succeeds_at n = rw (fire_waiting n) refl

after_failures-waits :
    (c : Config) (jitter : ℕ → ℕ) (n : ℕ)
    → is_off c ≡ false
    → after_failures c jitter n ≡ waiting_for n
unfolding after_failures
after_failures-waits c jitter zero on = free-reconnect c jitter fresh_manager on refl
after_failures-waits c jitter (suc n) on =
    ap (λ m. (fail c jitter (fire n m)).0) (after_failures-waits c jitter n on)
    ∙ fails_again c jitter n on

-- After n failures in a row the manager waits for the attempt n + 1, on the one timer that is
-- armed; and where that attempt succeeds, it is as a new one, but for the timers that it made.
pub after_failures_lem :
    (c : Config) (jitter : ℕ → ℕ) (n : ℕ)
    → is_off c ≡ false
    → (after_failures c jitter n ≡ waiting_for n)
      × (succeed (fire n (after_failures c jitter n)) ≡ record fresh_manager { made = suc n })
after_failures_lem c jitter n on =
    let e = after_failures-waits c jitter n on in (e, rw e (succeeds_at n))
