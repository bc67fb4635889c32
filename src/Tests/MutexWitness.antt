-- ===== src/Tests/MutexWitness.antt =====
-- The theorems on the mutex at concrete inputs, with a mutex in memory.
use zephyr_stm32h.Common.{
  ℕ, suc, ◌-◌, ◌≤◌, ◌≡◌, refl, List, [], ◌∷◌, arith, ◌==◌, if◌then◌else◌, ==_iff, ==_refl, length,
  ℤ, pos, negsuc,
}
use zephyr_stm32h.Mutex.{
  MutexApi, MutexLaws, outside, inside, Contest, move_to, locks, refused, unlocks, resting, waiting,
  copied, Resource, writer_locks, writer_counts, writer_prints, writer_unlocks, reader_locks,
  reader_reads, reader_copies,
}
use zephyr_stm32h.Mutex.Exclusion.{Play, mutual_exclusion}
use zephyr_stm32h.Mutex.Views.{Trace, Matches}
use zephyr_stm32h.Mutex.Snapshot.{IsFresh, snapshot_consistent}
use zephyr_stm32h.Mutex.Progress.{reader_can_copy}
use zephyr_stm32h.Mutex.Exclusion as Exclusion
use zephyr_stm32h.Mutex.Views as Views

record Lock : Type 0 where
  holder : ℕ
  count : ℕ

abbrev toy_lock : Lock → ℕ → ℤ × Lock
toy_lock m t =
    if m.count == 0
    then (pos 0, record { holder = t; count = 1 })
    else if m.holder == t
    then (pos 0, record { holder = t; count = suc m.count })
    else (negsuc 10, m)

abbrev toy_unlock : Lock → ℕ → ℤ × Lock
toy_unlock m t =
    if m.holder == t
    then (pos 0, record { holder = m.holder; count = m.count - 1 })
    else (negsuc 0, m)

abbrev toy_mutex : MutexApi Lock
toy_mutex = record { k_mutex_lock = toy_lock; k_mutex_unlock = toy_unlock }

abbrev toy_depth : Lock → ℕ → ℕ
toy_depth m t = if m.holder == t then m.count else 0

toy_laws : MutexLaws toy_mutex toy_depth
toy_laws = record {
  lock_free = λ m t u e d. ground (arith, ==_iff m.count 0, ==_iff m.holder t, ==_iff m.holder u);
  lock_takes = λ m t e. ground (arith, ==_iff m.count 0, ==_iff m.holder t, ==_refl t);
  lock_others =
      λ m t u d. ground (arith, ==_iff m.count 0, ==_iff m.holder t, ==_iff m.holder u, ==_iff t u);
  lock_fails = λ m t e. ground (arith, ==_iff m.count 0, ==_iff m.holder t, ==_refl t);
  lock_gets = λ m t free. ground (arith, ==_iff m.count 0, ==_refl m.holder, free m.holder);
  lock_again = λ m t h. ground (arith, ==_iff m.count 0, ==_iff m.holder t);
  unlock_gives = λ m t h. ground (arith, ==_iff m.holder t);
  unlock_others = λ m t u d. ground (arith, ==_iff m.holder t, ==_iff m.holder u);
}

abbrev unlocked : Lock
unlocked = record { holder = 0; count = 0 }

abbrev contest : Contest Lock
contest = record { mutex = unlocked; place = λ t. outside }

abbrev contest_end : Contest Lock
contest_end = record {
  mutex = record { holder = 2; count = 1 };
  place = move_to (move_to (move_to (λ t. outside) 1 inside) 1 outside) 2 inside;
}

-- The thread 1 locks, the thread 2 is refused, 1 unlocks, and 2 locks.
both_turn : Play toy_mutex contest contest_end
both_turn =
    Exclusion.next
      (Exclusion.next
        (Exclusion.next (Exclusion.next Exclusion.here (locks 1 refl refl)) (refused 2 refl refl))
        (unlocks 1 refl))
      (locks 2 refl refl)

unlocked_depth : (u : ℕ) → toy_depth unlocked u ≡ 0
unlocked_depth u = ground (arith, ==_iff 0 u)

abbrev second : ℕ
second = 2

mutual_exclusion_example : (second ≡ second) × (toy_depth contest_end.mutex 2 ≡ 1)
mutual_exclusion_example =
    mutual_exclusion toy_laws contest contest_end 2 2 (λ v. (refl, unlocked_depth v)) both_turn refl
      refl

abbrev fresh : Resource Lock
fresh = record {
  mutex = unlocked;
  shared_counter = 0;
  shared_buffer = [];
  write_count = 0;
  writer = resting;
  reader = waiting;
}

-- The number and the time, in place of the text.
abbrev toy_text : ℕ → ℕ → List ℕ
toy_text n now = n ∷ now ∷ []

fresh-IsFresh : IsFresh toy_depth fresh
fresh-IsFresh = record {
  free = unlocked_depth;
  counter = refl;
  buffer = refl;
  count = refl;
  writer_rests = refl;
  reader_waits = refl;
}

abbrev update_end : Resource Lock
update_end = record {
  mutex = record { holder = 0; count = 0 };
  shared_counter = 1;
  shared_buffer = 0 ∷ 7 ∷ [];
  write_count = 1;
  writer = resting;
  reader = waiting;
}

one_update : Trace toy_mutex toy_text fresh update_end
one_update =
    Views.next
      (Views.next (Views.next (Views.next Views.here (writer_locks refl refl)) (writer_counts refl))
        (writer_prints 7 refl))
      (writer_unlocks refl)

abbrev copy_end : Resource Lock
copy_end = record {
  mutex = record { holder = 1; count = 1 };
  shared_counter = 1;
  shared_buffer = 0 ∷ 7 ∷ [];
  write_count = 1;
  writer = resting;
  reader = copied 1 (0 ∷ 7 ∷ []);
}

one_copy : Trace toy_mutex toy_text fresh copy_end
one_copy =
    Views.next (Views.next (Views.next one_update (reader_locks refl refl)) (reader_reads refl))
      (reader_copies 1 refl)

toy_text-length : (k now : ℕ) → length (toy_text k now) ≤ 63
toy_text-length k now = omega arith

snapshot_consistent_example :
    Matches toy_text 1 (0 ∷ 7 ∷ [])
    × (copy_end.shared_counter ≡ 1)
    × (copy_end.shared_buffer ≡ 0 ∷ 7 ∷ [])
snapshot_consistent_example =
    snapshot_consistent toy_laws toy_text-length fresh copy_end 1 (0 ∷ 7 ∷ []) fresh-IsFresh
      one_copy refl

reader_can_copy_example :
    (t' : Resource Lock) × (c : ℕ) × (b : List ℕ) × Trace toy_mutex toy_text update_end t'
    × (t'.reader ≡ copied c b)
reader_can_copy_example =
    reader_can_copy toy_laws toy_text-length fresh update_end fresh-IsFresh one_update
