-- ===== src/Spinlock.antt =====
-- utils/spinlock.hpp: the lock of the tickers watcher, and any number of threads that use it. A
-- step is one atomic access of one thread; the two orders of memory that the code asks for make
-- them sequential.
pub mod Exclusion
mod Tests
use crypto_bot.Prelude.{ℕ, Bool, true, false, ◌==◌, if◌then◌else◌}

-- Where a thread stands: outside, before the exchange of `lock`, in its inner loop, in `try_lock`
-- between its load and its exchange, or past the lock.
pub data Place : Type 0 where
  outside entering waiting trying inside : Place

-- `lock_`, and the place of every thread.
pub record Threads : Type 0 where
  pub locked : Bool
  pub place : ℕ → Place

abbrev pub move_to : ℕ → Place → (ℕ → Place) → ℕ → Place
move_to i p place j = if i == j then p else place j

-- What an access of a thread makes of the lock and of the thread's place. The thread that unlocks
-- is the one that has locked.
pub data Access : Bool → Place → Bool → Place → Type 0 where
  call_lock : {l : Bool} → Access l outside l entering
  exchange_free : Access false entering true inside
  exchange_taken : Access true entering true waiting
  load_taken : Access true waiting true waiting
  load_free : Access false waiting false entering
  try_taken : Access true outside true outside
  try_free : Access false outside false trying
  try_exchange_free : Access false trying true inside
  try_exchange_taken : Access true trying true outside
  unlock : {l : Bool} → Access l inside false outside

-- A step of the thread `i`.
pub data Step (i : ℕ) (s : Threads) : Threads → Type 0 where
  access :
      {l : Bool} {p : Place}
      → Access s.locked (s.place i) l p
      → Step i s (record { locked = l; place = move_to i p s.place })

abbrev pub unlocked : Threads
unlocked = record { locked = false; place = λ _. outside }

-- Steps of any threads, in any order.
pub data Run (s : Threads) : Threads → Type 0 where
  here : Run s s
  next : {t u : Threads} {i : ℕ} → Run s t → Step i t u → Run s u
