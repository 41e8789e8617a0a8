-- ===== src/Sync/Lock.antt =====
-- lock.go. `locks` holds whether the mutex of a key is locked; a key with no entry has an unlocked
-- one, for the mutex is made when it is asked for.

use agent_sets.Prelude.{Bool, List, Option, false, if◌then◌else◌, none, some, true}
use agent_sets.Maps.{lookup, put}
use agent_sets.Text.{Bytes, equal}

pub record KeyLock : Type 0 where
  pub locks : List (Bytes × Bool)

unfoldable pub or_false : Option Bool → Bool
or_false none = false
or_false (some b) = b

unfoldable pub is_locked : KeyLock → Bytes → Bool
unfolding or_false lookup
is_locked l key = or_false (lookup equal key l.locks)

-- `none` where the caller waits until the mutex is unlocked
unfoldable pub lock : KeyLock → Bytes → Option KeyLock
unfolding is_locked put
lock l key = if is_locked l key then none else some (record { locks = put equal key true l.locks })

-- A key with no entry is left alone. `none` is Go's fatal error for a mutex that is not locked.
unfoldable pub unlock : KeyLock → Bytes → Option KeyLock
unfolding lookup put
unlock l key = elim (lookup equal key l.locks) [
  | none ↦ some l
  | some held ↦ if held then some (record { locks = put equal key false l.locks }) else none
]

unfoldable pub try_lock : KeyLock → Bytes → Bool × KeyLock
unfolding is_locked put
try_lock l key =
    if is_locked l key then (false, l) else (true, record { locks = put equal key true l.locks })
