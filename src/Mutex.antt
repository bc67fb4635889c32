-- ===== src/Mutex.antt =====
-- The threads of app32_mutex/src/main.c, over Zephyr's mutex as a parameter.
pub mod Main
pub mod Views
pub mod Snapshot
pub mod Progress
pub mod Exclusion
pub mod Nesting
use zephyr_stm32h.Common.{
  ℕ, zero, suc, ◌+◌, ◌-◌, ◌*◌, ◌/◌, ◌%◌, ◌^◌, ◌≤◌, ◌<◌, ◌≡◌, refl, sym, ap, subst, ◌∙◌, ◌≢◌, ◌↔◌,
  ◌⊎◌, inl, inr, Bool, true, false, true≢false, not, ◌&&◌, ◌||◌, Option, none, some, List, [], ◌∷◌,
  ◌++◌, append-nil, append_assoc, arith, ltb, leb, ◌==◌, if◌then◌else◌, lt→ltb, le→ltb, le→leb,
  lt→leb, ==_iff, ==_refl, Bool-cases, if_rule, length, get_or, set, take, drop, replicate, All,
  length-append, length-take, length-drop, length-replicate, length-set, take-append-drop,
  take-append_left, take-append_right, drop-append_right, take_all, get_or-append_left,
  get_or-append_right, get_or-take, get_or-drop, u8, u16, u32, is_negative, is_err, le16, le32,
  bytes16, bytes32, ℤ, pos,
}
use mathlib.Core.Option

-- `k_mutex_lock` and `k_mutex_unlock` by a thread, with what they return. A call with K_FOREVER that
-- has to wait does not return.
pub record MutexApi (M : Type 0) : Type 0 where
  pub k_mutex_lock : M → ℕ → ℤ × M
  pub k_mutex_unlock : M → ℕ → ℤ × M

-- `depth m t` says how often the thread `t` has locked `m`. A lock succeeds only if no other thread
-- holds the mutex, and for a thread that holds it; one that fails changes no depth.
pub record MutexLaws {M : Type 0} (api : MutexApi M) (depth : M → ℕ → ℕ) : Type 0 where
  pub lock_free : (m : M) (t u : ℕ) → (api.k_mutex_lock m t).0 ≡ pos 0 → t ≢ u → depth m u ≡ 0
  pub lock_takes :
      (m : M) (t : ℕ)
      → (api.k_mutex_lock m t).0 ≡ pos 0
      → depth (api.k_mutex_lock m t).1 t ≡ suc (depth m t)
  pub lock_others : (m : M) (t u : ℕ) → t ≢ u → depth (api.k_mutex_lock m t).1 u ≡ depth m u
  pub lock_fails :
      (m : M) (t : ℕ)
      → is_err (api.k_mutex_lock m t).0 ≡ true
      → depth (api.k_mutex_lock m t).1 t ≡ depth m t
  pub lock_gets : (m : M) (t : ℕ) → ((u : ℕ) → depth m u ≡ 0) → (api.k_mutex_lock m t).0 ≡ pos 0
  pub lock_again : (m : M) (t : ℕ) → 0 < depth m t → (api.k_mutex_lock m t).0 ≡ pos 0
  pub unlock_gives :
      (m : M) (t : ℕ) → 0 < depth m t → depth (api.k_mutex_unlock m t).1 t ≡ depth m t - 1
  pub unlock_others : (m : M) (t u : ℕ) → t ≢ u → depth (api.k_mutex_unlock m t).1 u ≡ depth m u

-- Where a thread of example 1 or 3 stands: in front of `k_mutex_lock`, or behind it.
pub data Place : Type 0 where
  outside inside : Place

-- The mutex and the places of the threads that use it.
pub record Contest (M : Type 0) : Type 0 where
  pub mutex : M
  pub place : ℕ → Place

abbrev pub move_to : (ℕ → Place) → ℕ → Place → ℕ → Place
move_to places t p u = if u == t then p else places u

-- `thread1_func`, `thread2_func` and `timeout_holder_func` lock for ever; `timeout_waiter_func` may be
-- refused, and then unlocks nothing.
pub data Turn {M : Type 0} (api : MutexApi M) (s : Contest M) : Contest M → Type 0 where
  locks :
      (t : ℕ)
      → s.place t ≡ outside
      → (api.k_mutex_lock s.mutex t).0 ≡ pos 0
      → Turn api s
          (record { mutex = (api.k_mutex_lock s.mutex t).1; place = move_to s.place t inside })
  refused :
      (t : ℕ)
      → s.place t ≡ outside
      → is_err (api.k_mutex_lock s.mutex t).0 ≡ true
      → Turn api s (record s { mutex = (api.k_mutex_lock s.mutex t).1 })
  unlocks :
      (t : ℕ)
      → s.place t ≡ inside
      → Turn api s
          (record { mutex = (api.k_mutex_unlock s.mutex t).1; place = move_to s.place t outside })

-- Where the writer stands in `writer_thread_func`.
pub data WriterPc : Type 0 where
  resting locked counted written : WriterPc

-- Where the reader stands in `reader_thread_func`, with its locals.
pub data ReaderPc : Type 0 where
  waiting entered : ReaderPc
  counter_read : ℕ → ReaderPc
  copied : ℕ → List ℕ → ReaderPc

-- The threads are 0, the writer, and 1, the reader. `shared_buffer` is the text in front of its
-- terminator; `write_count` is the writer's local.
pub record Resource (M : Type 0) : Type 0 where
  pub mutex : M
  pub shared_counter : ℕ
  pub shared_buffer : List ℕ
  pub write_count : ℕ
  pub writer : WriterPc
  pub reader : ReaderPc

-- One access to shared memory, or one call. `text n now` is what `snprintf` makes of the number of the
-- update and the time.
pub data Access {M : Type 0} (api : MutexApi M) (text : ℕ → ℕ → List ℕ) (s : Resource M)
    : Resource M → Type 0 where
  writer_locks :
      s.writer ≡ resting
      → (api.k_mutex_lock s.mutex 0).0 ≡ pos 0
      → Access api text s (record s { mutex = (api.k_mutex_lock s.mutex 0).1; writer = locked })
  writer_counts :
      s.writer ≡ locked
      → Access api text s
          (record s { shared_counter = u32 (s.shared_counter + 1); writer = counted })
  writer_prints :
      (now : ℕ)
      → s.writer ≡ counted
      → Access api text s (record s {
        shared_buffer = text s.write_count now;
        write_count = u32 (s.write_count + 1);
        writer = written;
      })
  writer_unlocks :
      s.writer ≡ written
      → Access api text s (record s { mutex = (api.k_mutex_unlock s.mutex 0).1; writer = resting })
  reader_locks :
      s.reader ≡ waiting
      → (api.k_mutex_lock s.mutex 1).0 ≡ pos 0
      → Access api text s (record s { mutex = (api.k_mutex_lock s.mutex 1).1; reader = entered })
  reader_reads :
      s.reader ≡ entered → Access api text s (record s { reader = counter_read s.shared_counter })
  -- `strncpy` of 63 bytes, and the terminator.
  reader_copies :
      (c : ℕ)
      → s.reader ≡ counter_read c
      → Access api text s (record s { reader = copied c (take 63 s.shared_buffer) })
  reader_unlocks :
      (c : ℕ) (b : List ℕ)
      → s.reader ≡ copied c b
      → Access api text s (record s { mutex = (api.k_mutex_unlock s.mutex 1).1; reader = waiting })

-- `recursive_function` by the thread `t`; a lock that does not succeed does not return.
unfoldable pub recursive_function : {M : Type 0} → MutexApi M → ℕ → ℕ → ℕ → M → Option M
recursive_function api t zero depth m = none
recursive_function api t (suc fuel) depth m =
    let (ret, m1) = api.k_mutex_lock m t in
    let deeper = recursive_function api t fuel (depth + 1) m1 in
    let nested = if ltb depth 3 then deeper else some m1 in
    let unlocked = Option.map (λ m2. (api.k_mutex_unlock m2 t).1) nested in
    if is_err ret then none else unlocked
