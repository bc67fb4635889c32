-- ===== src/Mutex/Snapshot.antt =====
-- What the reader takes out of the shared counter and the shared buffer belongs together.
use zephyr_stm32h.Common.{ℕ, ◌≤◌, ◌≡◌, sym, ap, subst, ◌∙◌, inl, List, [], arith, length}
use zephyr_stm32h.Mutex.{MutexApi, MutexLaws, resting, waiting, copied, Resource}
use zephyr_stm32h.Mutex.Views.{
  Trace, Matches, writer_holds, reader_holds, WriterView, ReaderView, SnapshotOk, Trace-SnapshotOk,
  reader_out, writer_out,
}

-- No thread holds the mutex, and nothing has been written.
pub record IsFresh {M : Type 0} (depth : M → ℕ → ℕ) (s : Resource M) : Type 0 where
  pub free : (u : ℕ) → depth s.mutex u ≡ 0
  pub counter : s.shared_counter ≡ 0
  pub buffer : s.shared_buffer ≡ []
  pub count : s.write_count ≡ 0
  pub writer_rests : s.writer ≡ resting
  pub reader_waits : s.reader ≡ waiting

module _ {M : Type 0} {api : MutexApi M} {depth : M → ℕ → ℕ} {text : ℕ → ℕ → List ℕ}
    (laws : MutexLaws api depth) (short : (k now : ℕ) → length (text k now) ≤ 63) where
  pub IsFresh-SnapshotOk : {s : Resource M} → IsFresh depth s → SnapshotOk depth text s
  IsFresh-SnapshotOk {s} f = record {
    writer_depth = f.free 0 ∙ sym (ap writer_holds f.writer_rests);
    reader_depth = f.free 1 ∙ sym (ap reader_holds f.reader_waits);
    others = λ u hu. f.free u;
    exclusive = omega (arith, ap writer_holds f.writer_rests, ap reader_holds f.reader_waits);
    small = omega (arith, ap length f.buffer);
    writer_view =
        subst (λ w. WriterView text w s.shared_counter s.shared_buffer s.write_count)
          (sym f.writer_rests) (inl (f.counter, f.buffer), f.counter ∙ sym f.count);
    reader_view =
        reader_out s.reader s.shared_counter s.shared_buffer (ap reader_holds f.reader_waits);
  }

  -- From a mutex that no thread holds, a counter of 0 and an empty buffer, whatever the interleaving of
  -- the accesses, what the reader has copied is one update's: the text is that of update number k, and
  -- the counter is k + 1, as a number of 32 bits; or there has been no update, and both are as at the
  -- start. It is also what the counter and the buffer hold at that moment.
  pub snapshot_consistent :
      (s t : Resource M) (c : ℕ) (b : List ℕ)
      → IsFresh depth s
      → Trace api text s t
      → t.reader ≡ copied c b
      → Matches text c b × (t.shared_counter ≡ c) × (t.shared_buffer ≡ b)
  snapshot_consistent s t c b fresh r e =
      let ok = Trace-SnapshotOk laws short (IsFresh-SnapshotOk fresh) r in
      let mine = ap reader_holds e in
      let rest = writer_out t.writer (omega (arith, mine, ok.exclusive)) in
      let view = subst (λ r'. ReaderView r' t.shared_counter t.shared_buffer) e ok.reader_view in
      let shared =
        subst (λ w. WriterView text w t.shared_counter t.shared_buffer t.write_count) rest
          ok.writer_view in
      (
        subst (λ b'. Matches text c b') (sym view.1)
            (subst (λ c'. Matches text c' t.shared_buffer) (sym view.0) shared.0),
        sym view.0,
        sym view.1,
      )
