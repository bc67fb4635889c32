-- ===== src/Mutex/Views.antt =====
-- What the places of the writer and the reader say of the shared data.
use zephyr_stm32h.Common.{
  ℕ, suc, ◌+◌, ◌≤◌, ◌≡◌, refl, ap, subst, ◌∙◌, ◌⊎◌, inr, List, [], arith, length, take_all, u32,
}
use zephyr_stm32h.Mutex.{
  MutexApi, MutexLaws, WriterPc, resting, locked, counted, written, ReaderPc, waiting, entered,
  counter_read, copied, Resource, Access, writer_locks, writer_counts, writer_prints,
  writer_unlocks, reader_locks, reader_reads, reader_copies, reader_unlocks,
}

pub data Trace {M : Type 0} (api : MutexApi M) (text : ℕ → ℕ → List ℕ) (s : Resource M)
    : Resource M → Type 0 where
  here : Trace api text s s
  next : {t u : Resource M} → Trace api text s t → Access api text t u → Trace api text s u

-- A counter and a text that one update has left: no update yet, or that of number `k` at a time.
abbrev pub Matches : (ℕ → ℕ → List ℕ) → ℕ → List ℕ → Type 0
Matches text c b =
    ((c ≡ 0) × (b ≡ [])) ⊎ ((k : ℕ) × (now : ℕ) × (b ≡ text k now) × (c ≡ u32 (k + 1)))

abbrev pub writer_holds : WriterPc → ℕ
writer_holds resting = 0
writer_holds _ = 1

abbrev pub reader_holds : ReaderPc → ℕ
reader_holds waiting = 0
reader_holds _ = 1

-- What the writer's place says of the shared data.
abbrev pub WriterView : (ℕ → ℕ → List ℕ) → WriterPc → ℕ → List ℕ → ℕ → Type 0
WriterView text counted c b k = c ≡ u32 (k + 1)
WriterView text _ c b k = Matches text c b × (c ≡ k)

-- What the reader's locals say of the shared data.
abbrev pub ReaderView : ReaderPc → ℕ → List ℕ → Type 0
ReaderView (counter_read d) c b = d ≡ c
ReaderView (copied d e) c b = (d ≡ c) × (e ≡ b)
ReaderView _ c b = Unit {0}

pub record SnapshotOk {M : Type 0} (depth : M → ℕ → ℕ) (text : ℕ → ℕ → List ℕ) (s : Resource M)
    : Type 0 where
  pub writer_depth : depth s.mutex 0 ≡ writer_holds s.writer
  pub reader_depth : depth s.mutex 1 ≡ reader_holds s.reader
  pub others : (u : ℕ) → 2 ≤ u → depth s.mutex u ≡ 0
  pub exclusive : writer_holds s.writer + reader_holds s.reader ≤ 1
  pub small : length s.shared_buffer ≤ 63
  pub writer_view : WriterView text s.writer s.shared_counter s.shared_buffer s.write_count
  pub reader_view : ReaderView s.reader s.shared_counter s.shared_buffer

-- A reader that does not hold the mutex has no view that a write could change.
pub reader_out : (r : ReaderPc) (c : ℕ) (b : List ℕ) → reader_holds r ≡ 0 → ReaderView r c b
reader_out waiting c b h = tt
reader_out entered c b h = absurd (omega arith)
reader_out (counter_read d) c b h = absurd (omega arith)
reader_out (copied d e) c b h = absurd (omega arith)

-- While the reader holds the mutex the writer rests.
pub writer_out : (w : WriterPc) → writer_holds w ≡ 0 → w ≡ resting
writer_out resting h = refl
writer_out locked h = absurd (omega arith)
writer_out counted h = absurd (omega arith)
writer_out written h = absurd (omega arith)

module _ {M : Type 0} {api : MutexApi M} {depth : M → ℕ → ℕ} {text : ℕ → ℕ → List ℕ}
    (laws : MutexLaws api depth) (short : (k now : ℕ) → length (text k now) ≤ 63) where
  pub Access-SnapshotOk :
      {s t : Resource M} → Access api text s t → SnapshotOk depth text s → SnapshotOk depth text t
  Access-SnapshotOk {s} (writer_locks p ok) h =
      let view =
        subst (λ w. WriterView text w s.shared_counter s.shared_buffer s.write_count) p
          h.writer_view in
      let d0 = laws.lock_takes s.mutex 0 ok in
      let d1 = laws.lock_others s.mutex 0 1 (λ e. absurd (omega arith)) in
      let free = laws.lock_free s.mutex 0 1 ok (λ e. absurd (omega arith)) in
      record {
        writer_depth = d0 ∙ ap suc (h.writer_depth ∙ ap writer_holds p);
        reader_depth = d1 ∙ h.reader_depth;
        others =
            λ u hu. laws.lock_others s.mutex 0 u (λ e. absurd (omega (arith, e))) ∙ h.others u hu;
        exclusive = omega (arith, h.reader_depth, free);
        small = h.small;
        writer_view = view;
        reader_view = h.reader_view;
      }
  Access-SnapshotOk {s} (writer_counts p) h =
      let view =
        subst (λ w. WriterView text w s.shared_counter s.shared_buffer s.write_count) p
          h.writer_view in
      let mine = ap writer_holds p in
      let idle : reader_holds s.reader ≡ 0 = omega (arith, mine, h.exclusive) in
      record {
        writer_depth = h.writer_depth ∙ mine;
        reader_depth = h.reader_depth;
        others = h.others;
        exclusive = omega (arith, idle);
        small = h.small;
        writer_view = ap (λ (c : ℕ). u32 (c + 1)) view.1;
        reader_view = reader_out s.reader _ s.shared_buffer idle;
      }
  Access-SnapshotOk {s} (writer_prints now p) h =
      let view =
        subst (λ w. WriterView text w s.shared_counter s.shared_buffer s.write_count) p
          h.writer_view in
      let mine = ap writer_holds p in
      let idle : reader_holds s.reader ≡ 0 = omega (arith, mine, h.exclusive) in
      record {
        writer_depth = h.writer_depth ∙ mine;
        reader_depth = h.reader_depth;
        others = h.others;
        exclusive = omega (arith, idle);
        small = short s.write_count now;
        writer_view = (inr (s.write_count, now, refl, view), view);
        reader_view = reader_out s.reader s.shared_counter _ idle;
      }
  Access-SnapshotOk {s} (writer_unlocks p) h =
      let view =
        subst (λ w. WriterView text w s.shared_counter s.shared_buffer s.write_count) p
          h.writer_view in
      let mine = h.writer_depth ∙ ap writer_holds p in
      let d0 = laws.unlock_gives s.mutex 0 (omega (arith, mine)) in
      let d1 = laws.unlock_others s.mutex 0 1 (λ e. absurd (omega arith)) in
      record {
        writer_depth = omega (arith, d0, mine);
        reader_depth = d1 ∙ h.reader_depth;
        others =
            λ u hu. laws.unlock_others s.mutex 0 u (λ e. absurd (omega (arith, e))) ∙ h.others u hu;
        exclusive = omega (arith, h.exclusive);
        small = h.small;
        writer_view = view;
        reader_view = h.reader_view;
      }
  Access-SnapshotOk {s} (reader_locks p ok) h =
      let d1 = laws.lock_takes s.mutex 1 ok in
      let d0 = laws.lock_others s.mutex 1 0 (λ e. absurd (omega arith)) in
      let free = laws.lock_free s.mutex 1 0 ok (λ e. absurd (omega arith)) in
      record {
        writer_depth = d0 ∙ h.writer_depth;
        reader_depth = d1 ∙ ap suc (h.reader_depth ∙ ap reader_holds p);
        others =
            λ u hu. laws.lock_others s.mutex 1 u (λ e. absurd (omega (arith, e))) ∙ h.others u hu;
        exclusive = omega (arith, h.writer_depth, free);
        small = h.small;
        writer_view = h.writer_view;
        reader_view = tt;
      }
  Access-SnapshotOk {s} (reader_reads p) h =
      let mine = ap reader_holds p in
      record {
        writer_depth = h.writer_depth;
        reader_depth = h.reader_depth ∙ mine;
        others = h.others;
        exclusive = omega (arith, mine, h.exclusive);
        small = h.small;
        writer_view = h.writer_view;
        reader_view = refl;
      }
  Access-SnapshotOk {s} (reader_copies c p) h =
      let mine = ap reader_holds p in
      let view = subst (λ r. ReaderView r s.shared_counter s.shared_buffer) p h.reader_view in
      record {
        writer_depth = h.writer_depth;
        reader_depth = h.reader_depth ∙ mine;
        others = h.others;
        exclusive = omega (arith, mine, h.exclusive);
        small = h.small;
        writer_view = h.writer_view;
        reader_view = (view, take_all 63 s.shared_buffer h.small);
      }
  Access-SnapshotOk {s} (reader_unlocks c b p) h =
      let mine = h.reader_depth ∙ ap reader_holds p in
      let d1 = laws.unlock_gives s.mutex 1 (omega (arith, mine)) in
      let d0 = laws.unlock_others s.mutex 1 0 (λ e. absurd (omega arith)) in
      record {
        writer_depth = d0 ∙ h.writer_depth;
        reader_depth = omega (arith, d1, mine);
        others =
            λ u hu. laws.unlock_others s.mutex 1 u (λ e. absurd (omega (arith, e))) ∙ h.others u hu;
        exclusive = omega (arith, h.exclusive);
        small = h.small;
        writer_view = h.writer_view;
        reader_view = tt;
      }

  pub Trace-SnapshotOk :
      {s t : Resource M} → SnapshotOk depth text s → Trace api text s t → SnapshotOk depth text t
  Trace-SnapshotOk h here = h
  Trace-SnapshotOk h (next r st) = Access-SnapshotOk st (Trace-SnapshotOk h r)
