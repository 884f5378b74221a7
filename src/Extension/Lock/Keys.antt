-- ===== src/Extension/Lock/Keys.antt =====
-- When the master key is held.
use holo_web_conductor.Common.{
  ℕ, ◌≡◌, refl, ◌⊎◌, inl, inr, ◌-◌, ltb, false, Bool-cases, Option, none, some, List, [], ◌∷◌,
  Bytes, Text, length,
}
use holo_web_conductor.Extension.Lock.{
  LockState, LairLock, constant_time_equal, load, save_state, secret, non_empty_text, window,
  install, change_passphrase, set_passphrase, try_passphrase, unlock, lock, lock_by, reset,
  LockCall, sets, unlocks, locks, resets, restarts, call_lock, after_calls,
}
use holo_web_conductor.Extension.Lock.Calls.{Does, call-Does}

-- A key is held only while the state says unlocked and is saved.
unfoldable pub IsWiped : LairLock → Type 0
IsWiped s =
    (s.master_key ≡ none)
    ⊎ ((s.current_state.is_locked ≡ false) × (s.stored ≡ some s.current_state))

module _ (derive : Text → Bytes → Bytes × Bytes) (min_length : ℕ) where
  try-IsWiped :
      (secret : Option (Bytes × Bytes)) (passphrase : Text) (now : ℕ) (s : LairLock)
      → IsWiped s
      → IsWiped (try_passphrase derive min_length secret passphrase now s).1
  unfolding IsWiped try_passphrase save_state
  try-IsWiped none passphrase now s h = h
  try-IsWiped (some (hash, salt)) passphrase now s h =
      elim (Bool-cases (constant_time_equal (derive passphrase salt).1 hash)) [
        | inl e ↦ rw e (inr (refl, refl))
        | inr e ↦ rw e h
      ]

  change-IsWiped :
      (secret : Option (Bytes × Bytes)) (old : Option Text) (passphrase : Text) (salt : Bytes)
      (now : ℕ) (s : LairLock)
      → IsWiped s
      → IsWiped (change_passphrase derive min_length secret old passphrase salt now s).1
  unfolding IsWiped change_passphrase install save_state
  change-IsWiped none old passphrase salt now s h = inr (refl, refl)
  change-IsWiped (some (hash, k)) none passphrase salt now s h = h
  change-IsWiped (some (hash, k)) (some old) passphrase salt now s h =
      elim (Bool-cases (constant_time_equal (derive old k).1 hash)) [
        | inl e ↦ rw e (inr (refl, refl))
        | inr e ↦ rw e h
      ]

  forgotten : (s : LairLock) → IsWiped s → IsWiped (record s { unlock_attempts = 0 })
  unfolding IsWiped
  forgotten s h = h

  unlock-IsWiped :
      (passphrase : Text) (now : ℕ) (s : LairLock)
      → IsWiped s
      → IsWiped (unlock derive min_length passphrase now s).1
  unfolding unlock
  unlock-IsWiped passphrase now s h = elim (Bool-cases (ltb s.unlock_attempts 5)) [
    | inl e ↦ rw e (try-IsWiped (secret s.current_state) passphrase now s h)
    | inr e ↦ elim (Bool-cases (ltb (now - s.last_unlock_attempt) window)) [
      | inl k ↦ rw (e, k) h
      | inr k ↦
          rw (e, k)
            (try-IsWiped (secret s.current_state) passphrase now (record s { unlock_attempts = 0 })
              (forgotten s h))
    ]
  ]

  set-IsWiped :
      (passphrase : Text) (old : Option Text) (salt : Bytes) (now : ℕ) (s : LairLock)
      → IsWiped s
      → IsWiped (set_passphrase derive min_length passphrase old salt now s).1
  unfolding set_passphrase
  set-IsWiped passphrase old salt now s h = elim (Bool-cases (ltb (length passphrase) min_length)) [
    | inl e ↦ rw e h
    | inr e ↦
        rw e (change-IsWiped (secret s.current_state) (non_empty_text old) passphrase salt now s h)
  ]

  lock-IsWiped : (hash : Option Bytes) (s : LairLock) → IsWiped s → IsWiped (lock_by hash s).1
  unfolding lock_by save_state IsWiped
  lock-IsWiped none s h = h
  lock-IsWiped (some hash) s h = inl refl

  reset-IsWiped : (s : LairLock) → IsWiped (reset s).1
  unfolding reset IsWiped
  reset-IsWiped s = inl refl

  load-IsWiped : (stored : Option LockState) → IsWiped (load stored)
  unfolding load IsWiped
  load-IsWiped stored = inl refl

  call-IsWiped :
      (call : LockCall) (s : LairLock) → IsWiped s → IsWiped (call_lock derive min_length call s).1
  unfolding call_lock lock
  call-IsWiped (sets passphrase old salt now) s h = set-IsWiped passphrase old salt now s h
  call-IsWiped (unlocks passphrase now) s h = unlock-IsWiped passphrase now s h
  call-IsWiped locks s h = lock-IsWiped s.current_state.passphrase_hash s h
  call-IsWiped resets s h = reset-IsWiped s
  call-IsWiped restarts s h = load-IsWiped s.stored

  all_calls-IsWiped :
      (calls : List LockCall) (s : LairLock)
      → IsWiped s
      → IsWiped (after_calls derive min_length calls s)
  unfolding after_calls
  all_calls-IsWiped [] s h = h
  all_calls-IsWiped (call ∷ calls) s h =
      all_calls-IsWiped calls (call_lock derive min_length call s).1 (call-IsWiped call s h)

  -- After any calls, one at a time, and restarts of the browser a master key is held only while
  -- the state is unlocked, and is saved as such, if that held before them. And after them each
  -- further call does what it says: `lock` wipes the key and saves that the store is locked, or
  -- throws and changes nothing where there is no passphrase; `reset` and a restart wipe the key; a
  -- passphrase that is refused, by `setPassphrase` or by `unlock`, leaves the key, the state and
  -- what is saved as they were, and one that is taken leaves a key and the state unlocked and
  -- saved.
  pub after_calls-IsWiped :
      (calls : List LockCall) (call : LockCall) (s : LairLock)
      → IsWiped s
      → let v = after_calls derive min_length calls s in
        IsWiped v × Does call v (call_lock derive min_length call v)
  after_calls-IsWiped calls call s h = (
    all_calls-IsWiped calls s h,
    call-Does derive min_length call (after_calls derive min_length calls s),
  )
