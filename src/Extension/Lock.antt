-- ===== src/Extension/Lock.antt =====
-- packages/extension/src/lib/lair-lock.ts, `LairLock`: the passphrase of the key store. Hash and
-- salt are kept as bytes, without their base64; the clock, the salt and PBKDF2 are arguments. The
-- object is made anew when the browser starts, and what it has saved stays. The calls come one after
-- the other: `unlock` waits for PBKDF2 between its look at the attempts and their count, and calls
-- that come in between, which the program allows, are not modelled.
pub mod Calls
pub mod Keys
pub mod Attempts
use holo_web_conductor.Common.{
  ℕ, suc, ◌-◌, ltb, leb, ◌==◌, ◌||◌, Bool, true, false, not, Option, none, some, List, [], ◌∷◌,
  Bytes, Text, length, if◌then◌else◌, or_else,
}

-- `LockState`, and `StoredLockState` with the same fields.
pub record LockState : Type 0 where
  pub is_locked : Bool
  pub passphrase_hash : Option Bytes
  pub salt : Option Bytes
  pub last_unlocked : Option ℕ

pub record LairLock : Type 0 where
  pub current_state : LockState
  pub master_key : Option Bytes
  pub unlock_attempts : ℕ
  pub last_unlock_attempt : ℕ
  pub stored : Option LockState

-- What a call gives: an error, a Boolean, the old and the new key, or nothing.
pub data LockOutcome : Type 0 where
  throws : LockOutcome
  answers : Bool → LockOutcome
  changed : (old_master_key : Option Bytes) (new_master_key : Bytes) → LockOutcome
  done : LockOutcome

any_bit : Bytes → Bytes → Bool
any_bit [] b = false
any_bit (x ∷ a) [] = false
any_bit (x ∷ a) (y ∷ b) = not (x == y) || any_bit a b

-- `constantTimeEqual`
unfoldable pub constant_time_equal : Bytes → Bytes → Bool
unfolding any_bit
constant_time_equal a b = if length a == length b then not (any_bit a b) else false

-- The state before a passphrase is set.
abbrev pub no_passphrase : LockState
no_passphrase = record {
  is_locked = false;
  passphrase_hash = none;
  salt = none;
  last_unlocked = none;
}

-- The constructor with `loadState`, over what was stored.
unfoldable pub load : Option LockState → LairLock
load stored = record {
  current_state = or_else stored no_passphrase;
  master_key = none;
  unlock_attempts = 0;
  last_unlock_attempt = 0;
  stored = stored;
}

-- `saveState`
unfoldable pub save_state : LockState → LairLock → LairLock
save_state state s = record s { current_state = state; stored = some state }

-- `!passphrase`
abbrev pub non_empty_text : Option Text → Option Text
non_empty_text none = none
non_empty_text (some []) = none
non_empty_text (some (c ∷ text)) = some (c ∷ text)

-- Hash and salt, if both are there.
abbrev pub secret : LockState → Option (Bytes × Bytes)
secret state = elim state.passphrase_hash [
  | none ↦ none
  | some hash ↦ elim state.salt [ none ↦ none | some salt ↦ some (hash, salt) ]
]

-- The waiting time after five failed attempts.
abbrev pub window : ℕ
window = 30000

-- PBKDF2, of a passphrase and a salt: the master key and the hash that verifies it.
module _ (derive : Text → Bytes → Bytes × Bytes) (min_length : ℕ) where
  -- A new passphrase is taken.
  unfoldable pub install :
      Text → (new_salt : Bytes) → (now : ℕ) → Option Bytes → LairLock → LockOutcome × LairLock
  install passphrase new_salt now old_key s =
      let (key, hash) = derive passphrase new_salt in
      (
        changed old_key key,
        save_state
            (record {
              is_locked = false;
              passphrase_hash = some hash;
              salt = some new_salt;
              last_unlocked = some now;
            })
            (record s { master_key = some key }),
      )

  -- The old passphrase is asked for if there is one.
  unfoldable pub change_passphrase :
      Option (Bytes × Bytes)
      → Option Text
      → Text
      → (new_salt : Bytes) → (now : ℕ) → LairLock
      → LockOutcome × LairLock
  change_passphrase none old passphrase new_salt now s = install passphrase new_salt now none s
  change_passphrase (some (hash, salt)) none passphrase new_salt now s = (throws, s)
  change_passphrase (some (hash, salt)) (some old) passphrase new_salt now s =
      let (key, found) = derive old salt in
      if constant_time_equal found hash
      then install passphrase new_salt now (some key) s
      else (throws, s)

  -- `setPassphrase`
  unfoldable pub set_passphrase :
      Text → Option Text → (new_salt : Bytes) → (now : ℕ) → LairLock → LockOutcome × LairLock
  set_passphrase passphrase old new_salt now s =
      if ltb (length passphrase) min_length
      then (throws, s)
      else change_passphrase (secret s.current_state) (non_empty_text old) passphrase new_salt now s

  -- The attempt itself.
  unfoldable pub try_passphrase :
      Option (Bytes × Bytes) → Text → (now : ℕ) → LairLock → LockOutcome × LairLock
  try_passphrase none passphrase now s = (throws, s)
  try_passphrase (some (hash, salt)) passphrase now s =
      let (key, found) = derive passphrase salt in
      if constant_time_equal found hash
      then (
        answers true,
        save_state (record s.current_state { is_locked = false; last_unlocked = some now })
            (record s { master_key = some key; unlock_attempts = 0 }),
      )
      else (
        answers false,
        record s { unlock_attempts = suc s.unlock_attempts; last_unlock_attempt = now },
      )

  -- `unlock`
  unfoldable pub unlock : Text → (now : ℕ) → LairLock → LockOutcome × LairLock
  unlock passphrase now s =
      if ltb s.unlock_attempts 5
      then try_passphrase (secret s.current_state) passphrase now s
      else if ltb (now - s.last_unlock_attempt) window
      then (throws, s)
      else try_passphrase (secret s.current_state) passphrase now (record s { unlock_attempts = 0 })

-- The lock, which wants a passphrase.
unfoldable pub lock_by : Option Bytes → LairLock → LockOutcome × LairLock
lock_by none s = (throws, s)
lock_by (some hash) s = (
  done,
  save_state (record s.current_state { is_locked = true }) (record s { master_key = none }),
)

-- `lock`
unfoldable pub lock : LairLock → LockOutcome × LairLock
lock s = lock_by s.current_state.passphrase_hash s

-- `isLocked`
unfoldable pub is_lair_locked : LairLock → Bool
is_lair_locked s = elim s.current_state.passphrase_hash [
  | none ↦ false
  | some hash ↦ s.current_state.is_locked
]

-- `reset`
unfoldable pub reset : LairLock → LockOutcome × LairLock
reset s = (
  done,
  record {
    current_state = no_passphrase;
    master_key = none;
    unlock_attempts = 0;
    last_unlock_attempt = 0;
    stored = none;
  },
)

-- A call, or a start of the browser.
pub data LockCall : Type 0 where
  sets : Text → Option Text → (new_salt : Bytes) (now : ℕ) → LockCall
  unlocks : Text → (now : ℕ) → LockCall
  locks resets restarts : LockCall

unfoldable pub call_lock :
    (Text → Bytes → Bytes × Bytes) → ℕ → LockCall → LairLock → LockOutcome × LairLock
call_lock derive min_length (sets passphrase old new_salt now) s =
    set_passphrase derive min_length passphrase old new_salt now s
call_lock derive min_length (unlocks passphrase now) s = unlock derive min_length passphrase now s
call_lock derive min_length locks s = lock s
call_lock derive min_length resets s = reset s
call_lock derive min_length restarts s = (done, load s.stored)

-- The calls one after the other.
unfoldable pub after_calls :
    (Text → Bytes → Bytes × Bytes) → ℕ → List LockCall → LairLock → LairLock
after_calls derive min_length [] s = s
after_calls derive min_length (call ∷ calls) s =
    after_calls derive min_length calls (call_lock derive min_length call s).1
