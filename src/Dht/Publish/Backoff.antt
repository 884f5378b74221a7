-- ===== src/Dht/Publish/Backoff.antt =====
-- When a failed operation is tried again.
use native.Mathlib.Nat.{pow-suc}
use holo_web_conductor.Common.{
  ℕ, zero, suc, ◌+◌, ◌*◌, ◌^◌, ◌≤◌, ◌<◌, ◌≡◌, true, min, arith, not, ◌||◌, leb, ltb,
}
use holo_web_conductor.Dht.Publish.{Options, is_ready_for_retry}

abbrev pub delay_of : Options → ℕ → ℕ
delay_of o n = min (o.base_delay_ms * 2 ^ n) o.max_delay_ms

delay_mono : (o : Options) (n : ℕ) → delay_of o n ≤ delay_of o (suc n)
delay_mono o n = rw pow-suc (omega arith)

pow_pos : (n : ℕ) → 1 ≤ 2 ^ n
pow_pos zero = omega arith
pow_pos (suc n) = rw pow-suc (omega (arith, pow_pos n))

delay-ge : (o : Options) (n : ℕ) → min o.base_delay_ms o.max_delay_ms ≤ delay_of o n
delay-ge o n = grind (arith, pow_pos n)

-- An operation that has been tried is never ready before the smaller of the base and the largest
-- delay has passed, is always ready once the largest delay has passed, stays ready as time goes
-- on, and with one failure more is not ready any sooner.
pub ready-window :
    (o : Options) (now last n wait : ℕ)
    → 0 < last
    → let ready = is_ready_for_retry o now last n in
      (not ready || leb (last + min o.base_delay_ms o.max_delay_ms) now ≡ true)
      × (ready || ltb now (last + o.max_delay_ms) ≡ true)
      × (not ready || is_ready_for_retry o (now + wait) last n ≡ true)
      × (not (is_ready_for_retry o now last (suc n)) || ready ≡ true)
unfolding is_ready_for_retry
ready-window o now last n wait h =
    (ground (arith, delay-ge o n), ground arith, ground arith, ground (arith, delay_mono o n))
