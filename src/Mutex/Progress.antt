-- ===== src/Mutex/Progress.antt =====
-- The reader is never shut out for good.
use zephyr_stm32h.Common.{ℕ, ◌≤◌, ◌≡◌, refl, ap, List, arith, length, take}
use zephyr_stm32h.Mutex.{
  MutexApi, MutexLaws, WriterPc, resting, locked, counted, written, ReaderPc, waiting, entered,
  counter_read, copied, Resource, Access, writer_counts, writer_prints, writer_unlocks,
  reader_locks, reader_reads, reader_copies,
}
use zephyr_stm32h.Mutex.Views.{
  Trace, here, next, writer_holds, reader_holds, SnapshotOk, Access-SnapshotOk, Trace-SnapshotOk,
}
use zephyr_stm32h.Mutex.Snapshot.{IsFresh, IsFresh-SnapshotOk}

prepend :
    {M : Type 0} {api : MutexApi M} {text : ℕ → ℕ → List ℕ} {s t u : Resource M}
    → Access api text s t
    → Trace api text t u
    → Trace api text s u
prepend st here = next here st
prepend st (next r st') = next (prepend st r) st'

-- Accesses lead from the state to one where the reader has copied.
abbrev CanCopy : {M : Type 0} → MutexApi M → (ℕ → ℕ → List ℕ) → Resource M → Type 0
CanCopy {M} api text s =
    (t : Resource M) × (c : ℕ) × (b : List ℕ) × Trace api text s t × (t.reader ≡ copied c b)

module _ {M : Type 0} {api : MutexApi M} {depth : M → ℕ → ℕ} {text : ℕ → ℕ → List ℕ}
    (laws : MutexLaws api depth) (short : (k now : ℕ) → length (text k now) ≤ 63) where
  first : {s t : Resource M} → Access api text s t → CanCopy api text t → CanCopy api text s
  first st (u, c, b, r, e) = (u, c, b, prepend st r, e)

  when_read : (s : Resource M) (c : ℕ) → s.reader ≡ counter_read c → CanCopy api text s
  when_read s c e = first (reader_copies c e) (_, c, take 63 s.shared_buffer, here, refl)

  when_entered : (s : Resource M) → s.reader ≡ entered → CanCopy api text s
  when_entered s e = first (reader_reads e) (when_read _ s.shared_counter refl)

  when_free :
      (s : Resource M)
      → SnapshotOk depth text s
      → s.reader ≡ waiting
      → s.writer ≡ resting
      → CanCopy api text s
  when_free s ok e w =
      let none_holds : (u : ℕ) → depth s.mutex u ≡ 0 = λ u. ground (
        arith,
        ok.writer_depth,
        ok.reader_depth,
        ok.others u,
        ap reader_holds e,
        ap writer_holds w,
      ) in
      first (reader_locks e (laws.lock_gets s.mutex 1 none_holds)) (when_entered _ refl)

  when_written :
      (s : Resource M)
      → SnapshotOk depth text s
      → s.reader ≡ waiting
      → s.writer ≡ written
      → CanCopy api text s
  when_written s ok e w =
      let st = writer_unlocks w in
      first st (when_free _ (Access-SnapshotOk laws short st ok) e refl)

  when_counted :
      (s : Resource M)
      → SnapshotOk depth text s
      → s.reader ≡ waiting
      → s.writer ≡ counted
      → CanCopy api text s
  when_counted s ok e w =
      let st = writer_prints 0 w in
      first st (when_written _ (Access-SnapshotOk laws short st ok) e refl)

  when_locked :
      (s : Resource M)
      → SnapshotOk depth text s
      → s.reader ≡ waiting
      → s.writer ≡ locked
      → CanCopy api text s
  when_locked s ok e w =
      let st = writer_counts w in
      first st (when_counted _ (Access-SnapshotOk laws short st ok) e refl)

  when_waiting :
      (s : Resource M) (w : WriterPc)
      → SnapshotOk depth text s
      → s.reader ≡ waiting
      → s.writer ≡ w
      → CanCopy api text s
  when_waiting s resting = when_free s
  when_waiting s locked = when_locked s
  when_waiting s counted = when_counted s
  when_waiting s written = when_written s

  from_place :
      (s : Resource M) (r : ReaderPc) → SnapshotOk depth text s → s.reader ≡ r → CanCopy api text s
  from_place s waiting ok e = when_waiting s s.writer ok e refl
  from_place s entered ok e = when_entered s e
  from_place s (counter_read c) ok e = when_read s c e
  from_place s (copied c b) ok e = (s, c, b, here, e)

  -- From a mutex that no thread holds, a counter of 0 and an empty buffer, wherever the interleaving of
  -- the accesses has led, further accesses lead to a state where the reader has copied: no order of locks
  -- shuts the reader out for good.
  pub reader_can_copy :
      (s t : Resource M)
      → IsFresh depth s
      → Trace api text s t
      → (t' : Resource M) × (c : ℕ) × (b : List ℕ) × Trace api text t t' × (t'.reader ≡ copied c b)
  reader_can_copy s t fresh r =
      from_place t t.reader (Trace-SnapshotOk laws short (IsFresh-SnapshotOk laws short fresh) r)
        refl
