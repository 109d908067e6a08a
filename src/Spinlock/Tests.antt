-- ===== src/Spinlock/Tests.antt =====
-- Witnesses for utils/spinlock.hpp.
use crypto_bot.Prelude.{ℕ, ◌≡◌, refl, true, ◌⊎◌}
use crypto_bot.Spinlock.{
  Threads, entering, waiting, inside, move_to, call_lock, exchange_free, exchange_taken, access,
  unlocked, Step, Run, here, next,
}
use crypto_bot.Spinlock.Exclusion.{is_inside, mutual_exclusion, waiting_progress}

-- Thread 0 has the lock and thread 1 waits for it.
abbrev contended : Threads
contended = record {
  locked = true;
  place =
      move_to 1 waiting (move_to 1 entering (move_to 0 inside (move_to 0 entering unlocked.place)));
}

contended-Run : Run unlocked contended
contended-Run =
    next {i = 1}
      (next {i = 1} (next {i = 0} (next {i = 0} here (access call_lock)) (access exchange_free))
        (access call_lock))
      (access exchange_taken)

mutual_exclusion_example : ◌≡◌ {A = ℕ} 0 0
mutual_exclusion_example = mutual_exclusion contended-Run 0 0 refl refl

waiting_progress_example :
    ((j : ℕ) × (is_inside (contended.place j) ≡ true))
    ⊎ ((t : Threads) × (u : Threads) × Step 1 contended t
        × Step 1 t u
        × (is_inside (u.place 1) ≡ true))
waiting_progress_example = waiting_progress contended-Run 1 refl
