-- ===== src/Spinlock/Exclusion.antt =====
-- That the lock of utils/spinlock.hpp keeps its threads apart, and lets one in.
use crypto_bot.Prelude.{
  ℕ, ◌≡◌, refl, ap, Bool, true, false, arith, Bool-cases, ==_iff, inl, inr, ◌⊎◌,
}
use crypto_bot.Spinlock.{
  Place, outside, entering, waiting, trying, inside, Threads, move_to, Access, call_lock,
  exchange_free, exchange_taken, load_taken, load_free, try_taken, try_free, try_exchange_free,
  try_exchange_taken, unlock, Step, access, unlocked, Run, here, next,
}

abbrev pub is_inside : Place → Bool
is_inside inside = true
is_inside _ = false

-- The lock is taken exactly while one thread is past it.
pub record IsExclusive (locked : Bool) (place : ℕ → Place) : Type 0 where
  pub unique : (i j : ℕ) → is_inside (place i) ≡ true → is_inside (place j) ≡ true → i ≡ j
  pub free : locked ≡ false → (i : ℕ) → is_inside (place i) ≡ false
  pub owner : locked ≡ true → (i : ℕ) × (is_inside (place i) ≡ true)

-- A thread that stays outside of the lock, with the lock as it was.
stay-IsExclusive :
    (l : Bool) (place : ℕ → Place) (i : ℕ) (p : Place)
    → is_inside (place i) ≡ false
    → is_inside p ≡ false
    → IsExclusive l place
    → IsExclusive l (move_to i p place)
stay-IsExclusive l place i p out out' inv = record {
  unique = λ j k. grind (arith, inv.unique j k);
  free = λ h j. grind (arith, inv.free h j);
  owner = λ h. let (j, held) = inv.owner h in (j, grind (arith, ==_iff i j));
}

enter-IsExclusive :
    (place : ℕ → Place) (i : ℕ)
    → IsExclusive false place
    → IsExclusive true (move_to i inside place)
enter-IsExclusive place i inv = record {
  unique = λ j k. grind (arith, inv.free refl j, inv.free refl k, ==_iff i j, ==_iff i k);
  free = λ h. absurd cc;
  owner = λ h. (i, grind (arith, ==_iff i i));
}

leave-IsExclusive :
    (l : Bool) (place : ℕ → Place) (i : ℕ)
    → is_inside (place i) ≡ true
    → IsExclusive l place
    → IsExclusive false (move_to i outside place)
leave-IsExclusive l place i held inv = record {
  unique = λ j k. grind (arith, inv.unique j k);
  free = λ h j. grind (arith, inv.unique i j, ==_iff i j);
  owner = λ h. absurd cc;
}

Access-IsExclusive :
    {l l' : Bool} {q p : Place} (place : ℕ → Place) (i : ℕ)
    → place i ≡ q
    → Access l q l' p
    → IsExclusive l place
    → IsExclusive l' (move_to i p place)
Access-IsExclusive {l} place i e call_lock inv =
    stay-IsExclusive l place i entering (ap is_inside e) refl inv
Access-IsExclusive place i e exchange_free inv = enter-IsExclusive place i inv
Access-IsExclusive place i e exchange_taken inv =
    stay-IsExclusive true place i waiting (ap is_inside e) refl inv
Access-IsExclusive place i e load_taken inv =
    stay-IsExclusive true place i waiting (ap is_inside e) refl inv
Access-IsExclusive place i e load_free inv =
    stay-IsExclusive false place i entering (ap is_inside e) refl inv
Access-IsExclusive place i e try_taken inv =
    stay-IsExclusive true place i outside (ap is_inside e) refl inv
Access-IsExclusive place i e try_free inv =
    stay-IsExclusive false place i trying (ap is_inside e) refl inv
Access-IsExclusive place i e try_exchange_free inv = enter-IsExclusive place i inv
Access-IsExclusive place i e try_exchange_taken inv =
    stay-IsExclusive true place i outside (ap is_inside e) refl inv
Access-IsExclusive {l} place i e unlock inv = leave-IsExclusive l place i (ap is_inside e) inv

Step-IsExclusive :
    {i : ℕ} {s t : Threads}
    → Step i s t
    → IsExclusive s.locked s.place
    → IsExclusive t.locked t.place
Step-IsExclusive {i} {s} (access a) inv = Access-IsExclusive s.place i refl a inv

pub Run-IsExclusive : {s : Threads} → Run unlocked s → IsExclusive s.locked s.place
Run-IsExclusive here = record {
  unique = λ i j h. absurd cc;
  free = λ h i. refl;
  owner = λ h. absurd cc;
}
Run-IsExclusive (next r st) = Step-IsExclusive st (Run-IsExclusive r)

-- However the accesses of the threads interleave, two of them are never past the lock together.
pub mutual_exclusion :
    {s : Threads}
    → Run unlocked s
    → (i j : ℕ) → is_inside (s.place i) ≡ true
    → is_inside (s.place j) ≡ true
    → i ≡ j
mutual_exclusion r = (Run-IsExclusive r).unique

access_at :
    {l l' : Bool} {q p : Place} (s : Threads) (i : ℕ)
    → s.locked ≡ l
    → s.place i ≡ q
    → Access l q l' p
    → Step i s (record { locked = l'; place = move_to i p s.place })
access_at s i h e a = access (rw (h, e) a)

move_to_same : (i : ℕ) (p : Place) (place : ℕ → Place) → move_to i p place i ≡ p
move_to_same i p place = rw ((==_iff i i).1 refl) refl

-- No deadlock: in any state that the threads can reach, while a thread waits, either some
-- thread is past the lock, or its own next two accesses get it past the lock.
pub waiting_progress :
    {s : Threads}
    → Run unlocked s
    → (i : ℕ) → s.place i ≡ waiting
    → ((j : ℕ) × (is_inside (s.place j) ≡ true))
      ⊎ ((t : Threads) × (u : Threads) × Step i s t × Step i t u × (is_inside (u.place i) ≡ true))
waiting_progress {s} r i w = elim (Bool-cases s.locked) [
  | inl taken ↦ inl ((Run-IsExclusive r).owner taken)
  | inr open_ ↦
      let seen : Threads = record { locked = false; place = move_to i entering s.place } in
      inr (
        seen,
        record { locked = true; place = move_to i inside seen.place },
        access_at s i open_ w load_free,
        access_at seen i refl (move_to_same i entering s.place) exchange_free,
        ap is_inside (move_to_same i inside seen.place),
      )
]
