-- ===== src/Extension/Lock/Calls.antt =====
-- What each call of the lock does to the key, the state and what is saved.
use holo_web_conductor.Common.{
  ℕ, ◌≡◌, refl, inl, inr, ◌-◌, ltb, false, Bool-cases, Bool, true, not, Option, none, some, Bytes,
  Text, length,
}
use holo_web_conductor.Extension.Lock.{
  LairLock, LockOutcome, throws, answers, changed, done, constant_time_equal, load, save_state,
  secret, non_empty_text, window, install, change_passphrase, set_passphrase, try_passphrase,
  unlock, lock, lock_by, reset, LockCall, sets, unlocks, locks, resets, restarts, call_lock,
}

-- What throws, or answers that the passphrase is wrong.
abbrev pub is_refusal : LockOutcome → Bool
is_refusal throws = true
is_refusal (answers right) = not right
is_refusal _ = false

-- A passphrase is taken: a key is held, and the state says unlocked and is saved. Or it is
-- refused: the key, the state and what is saved stay.
abbrev pub Taken : (refused : Bool) → (s v : LairLock) → Type 0
Taken true s v =
    (v.master_key ≡ s.master_key) × (v.current_state ≡ s.current_state) × (v.stored ≡ s.stored)
Taken false s v =
    ((key : Bytes) × (v.master_key ≡ some key))
    × (v.current_state.is_locked ≡ false)
    × (v.stored ≡ some v.current_state)

-- Locked: no key is held, and the state says locked and is saved. Without a passphrase there is
-- nothing to lock.
abbrev pub Locked : (refused : Bool) → (s v : LairLock) → Type 0
Locked true s v = (v ≡ s) × (s.current_state.passphrase_hash ≡ none)
Locked false s v =
    (v.master_key ≡ none) × (v.current_state.is_locked ≡ true) × (v.stored ≡ some v.current_state)

-- What one call does.
abbrev pub Does : LockCall → LairLock → LockOutcome × LairLock → Type 0
Does (sets passphrase old salt now) s (o, v) = Taken (is_refusal o) s v
Does (unlocks passphrase now) s (o, v) = Taken (is_refusal o) s v
Does locks s (o, v) = Locked (is_refusal o) s v
Does resets s (o, v) = (v.master_key ≡ none) × (v.stored ≡ none)
Does restarts s (o, v) = (v.master_key ≡ none) × (v.stored ≡ s.stored)

module _ (derive : Text → Bytes → Bytes × Bytes) (min_length : ℕ) where
  -- The end of a call in which a passphrase was tried.
  abbrev Tries : LairLock → LockOutcome × LairLock → Type 0
  Tries s (o, v) = Taken (is_refusal o) s v

  try-Tries :
      (secret : Option (Bytes × Bytes)) (passphrase : Text) (now : ℕ) (s : LairLock)
      → Tries s (try_passphrase derive min_length secret passphrase now s)
  unfolding try_passphrase save_state
  try-Tries none passphrase now s = (refl, refl, refl)
  try-Tries (some (hash, salt)) passphrase now s =
      elim (Bool-cases (constant_time_equal (derive passphrase salt).1 hash)) [
        | inl e ↦ rw e (((derive passphrase salt).0, refl), refl, refl)
        | inr e ↦ rw e (refl, refl, refl)
      ]

  -- The count of the attempts makes no difference.
  again :
      (s : LairLock) (end : LockOutcome × LairLock)
      → Tries (record s { unlock_attempts = 0 }) end
      → Tries s end
  again s (throws, v) h = h
  again s (answers true, v) h = h
  again s (answers false, v) h = h
  again s (changed old key, v) h = h
  again s (done, v) h = h

  unlock-Tries :
      (passphrase : Text) (now : ℕ) (s : LairLock)
      → Tries s (unlock derive min_length passphrase now s)
  unfolding unlock
  unlock-Tries passphrase now s = elim (Bool-cases (ltb s.unlock_attempts 5)) [
    | inl e ↦ rw e (try-Tries (secret s.current_state) passphrase now s)
    | inr e ↦ elim (Bool-cases (ltb (now - s.last_unlock_attempt) window)) [
      | inl k ↦ rw (e, k) (refl, refl, refl)
      | inr k ↦
          rw (e, k)
            (again s
              (try_passphrase derive min_length (secret s.current_state) passphrase now
                (record s { unlock_attempts = 0 }))
              (try-Tries (secret s.current_state) passphrase now
                (record s { unlock_attempts = 0 })))
    ]
  ]

  change-Tries :
      (secret : Option (Bytes × Bytes)) (old : Option Text) (passphrase : Text) (salt : Bytes)
      (now : ℕ) (s : LairLock)
      → Tries s (change_passphrase derive min_length secret old passphrase salt now s)
  unfolding change_passphrase install save_state
  change-Tries none old passphrase salt now s = (((derive passphrase salt).0, refl), refl, refl)
  change-Tries (some (hash, k)) none passphrase salt now s = (refl, refl, refl)
  change-Tries (some (hash, k)) (some old) passphrase salt now s =
      elim (Bool-cases (constant_time_equal (derive old k).1 hash)) [
        | inl e ↦ rw e (((derive passphrase salt).0, refl), refl, refl)
        | inr e ↦ rw e (refl, refl, refl)
      ]

  set-Tries :
      (passphrase : Text) (old : Option Text) (salt : Bytes) (now : ℕ) (s : LairLock)
      → Tries s (set_passphrase derive min_length passphrase old salt now s)
  unfolding set_passphrase
  set-Tries passphrase old salt now s = elim (Bool-cases (ltb (length passphrase) min_length)) [
    | inl e ↦ rw e (refl, refl, refl)
    | inr e ↦
        rw e (change-Tries (secret s.current_state) (non_empty_text old) passphrase salt now s)
  ]

  lock-Does :
      (s : LairLock) (hash : Option Bytes)
      → s.current_state.passphrase_hash ≡ hash
      → Does locks s (lock_by hash s)
  unfolding lock_by save_state
  lock-Does s none e = (refl, e)
  lock-Does s (some hash) e = (refl, refl, refl)

  pub call-Does :
      (call : LockCall) (s : LairLock) → Does call s (call_lock derive min_length call s)
  unfolding call_lock lock reset load
  call-Does (sets passphrase old salt now) s = set-Tries passphrase old salt now s
  call-Does (unlocks passphrase now) s = unlock-Tries passphrase now s
  call-Does locks s = lock-Does s s.current_state.passphrase_hash refl
  call-Does resets s = (refl, refl)
  call-Does restarts s = (refl, refl)
