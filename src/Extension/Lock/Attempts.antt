-- ===== src/Extension/Lock/Attempts.antt =====
-- How often the passphrase can be guessed by calls of `unlock`, each of which ends before the next
-- begins.
use holo_web_conductor.Common.{
  ℕ, suc, ◌≡◌, refl, ◌⊎◌, inl, inr, ◌<◌, ◌≤◌, ◌-◌, ◌+◌, All, ltb→lt, ltb→ge, ltb, false, Bool-cases,
  some, List, [], ◌∷◌, Bytes, Text, arith, ge→ltb, lt→ltb,
}
use holo_web_conductor.Extension.Lock.{
  LairLock, LockOutcome, throws, answers, constant_time_equal, secret, window, try_passphrase,
  unlock,
}

module _ (derive : Text → Bytes → Bytes × Bytes) (min_length : ℕ) where
  counted : LockOutcome → ℕ → ℕ
  counted (answers false) n = suc n
  counted _ n = n

  -- How many of some attempts are tested and found wrong.
  unfoldable pub failures : List (Text × ℕ) → LairLock → ℕ
  unfolding counted
  failures [] s = 0
  failures ((passphrase, now) ∷ guesses) s =
      let (outcome, v) = unlock derive min_length passphrase now s in
      let rest = failures guesses v in counted outcome rest

  module _ (hash salt : Bytes) (start : ℕ) where
    -- A wrong guess within the window that begins at the start.
    abbrev pub WrongGuess : Text × ℕ → Type 0
    WrongGuess (passphrase, now) =
        (start ≤ now)
        × (now < start + window)
        × (constant_time_equal (derive passphrase salt).1 hash ≡ false)

    -- No attempt was counted yet, or the last one was in the window.
    abbrev InWindow : LairLock → Type 0
    InWindow s = (s.unlock_attempts ≡ 0) ⊎ (start ≤ s.last_unlock_attempt)

    wrong_lem :
        (passphrase : Text) (now : ℕ) (s : LairLock)
        → secret s.current_state ≡ some (hash, salt)
        → constant_time_equal (derive passphrase salt).1 hash ≡ false
        → s.unlock_attempts < 5
        → unlock derive min_length passphrase now s ≡ (
          answers false,
          record s { unlock_attempts = suc s.unlock_attempts; last_unlock_attempt = now },
        )
    unfolding unlock try_passphrase
    wrong_lem passphrase now s k w l = rw (lt→ltb s.unlock_attempts 5 l, k, w) refl

    refused_lem :
        (passphrase : Text) (now : ℕ) (s : LairLock)
        → 5 ≤ s.unlock_attempts
        → now - s.last_unlock_attempt < window
        → unlock derive min_length passphrase now s ≡ (throws, s)
    unfolding unlock
    refused_lem passphrase now s l e =
        rw (ge→ltb s.unlock_attempts 5 l, lt→ltb (now - s.last_unlock_attempt) window e) refl

    late :
        (now : ℕ) (s : LairLock)
        → InWindow s
        → start ≤ now
        → now < start + window
        → 5 ≤ s.unlock_attempts
        → now - s.last_unlock_attempt < window
    late now s (inl z) b e l = omega (arith, z, l)
    late now s (inr w) b e l = omega (arith, w, b, e)

    bounded :
        (guesses : List (Text × ℕ)) (s : LairLock)
        → secret s.current_state ≡ some (hash, salt)
        → All WrongGuess guesses
        → InWindow s
        → s.unlock_attempts ≤ 5
        → failures guesses s + s.unlock_attempts ≤ 5
    unfolding failures counted
    bounded [] s k a w l = omega (arith, l)
    bounded ((passphrase, now) ∷ guesses) s k ((b, e, x), a) w l =
        elim (Bool-cases (ltb s.unlock_attempts 5)) [
          | inl m ↦ rw (wrong_lem passphrase now s k x (ltb→lt s.unlock_attempts 5 m)) (
              omega (
                arith,
                bounded guesses
                    (record s {
                      unlock_attempts = suc s.unlock_attempts;
                      last_unlock_attempt = now;
                    })
                    k a (inr b) (ltb→lt s.unlock_attempts 5 m),
              ))
          | inr m ↦
              rw
                (refused_lem passphrase now s (ltb→ge s.unlock_attempts 5 m)
                  (late now s w b e (ltb→ge s.unlock_attempts 5 m)))
                (bounded guesses s k a w l)
        ]

  -- Of any number of wrong passphrases that are given to `unlock` within thirty seconds, one call
  -- after the end of another, at most five are tested, if no failed attempt was counted before
  -- them; the others are refused.
  pub failures-bound :
      (hash salt : Bytes) (start : ℕ) (guesses : List (Text × ℕ)) (s : LairLock)
      → secret s.current_state ≡ some (hash, salt)
      → All (WrongGuess hash salt start) guesses
      → s.unlock_attempts ≡ 0
      → failures guesses s ≤ 5
  failures-bound hash salt start guesses s k a z =
      omega (arith, bounded hash salt start guesses s k a (inl z) (omega (arith, z)), z)
