-- ===== src/Fifo/Owners.antt =====
-- Example 1: who has which block.
use zephyr_stm32h.Common.{
  ℕ, ◌+◌, ◌*◌, ◌≤◌, ◌<◌, ◌≡◌, sym, ap, subst, ◌∙◌, List, [], ◌∷◌, ◌++◌, arith, ==_iff, All, u32,
}
use zephyr_stm32h.Fifo.{
  FifoApi, occurrences, occurrences-append, occurrences_one, FifoLaws, HeapApi, HeapLaws,
  SensorData, SensorPc, sleeping, filled, reporting, sensor_reports, ProcessorPc, getting, got,
  printed, Allocated, AllocStep, sensor_fills, sensor_without_memory, sensor_puts, sensor_put_fails,
  processor_gets, processor_prints, processor_frees,
}

pub data AllocRun {Q H : Type 0} (fifo : FifoApi Q) (heap : HeapApi H) (s : Allocated Q H)
    : Allocated Q H → Type 0 where
  here : AllocRun fifo heap s s
  next :
      {t u : Allocated Q H}
      → AllocRun fifo heap s t
      → AllocStep fifo heap t u
      → AllocRun fifo heap s u

abbrev pub sensor_has : SensorPc → List ℕ
sensor_has sleeping = []
sensor_has (filled p) = p ∷ []
sensor_has (reporting p) = []

abbrev pub processor_has : ProcessorPc → List ℕ
processor_has getting = []
processor_has (got p) = p ∷ []
processor_has (printed p) = p ∷ []

-- The blocks in the hands of the threads and in the FIFO.
abbrev pub owners : {Q H : Type 0} → (Q → List ℕ) → Allocated Q H → List ℕ
owners contents s = processor_has s.processor ++ (contents s.sensor_fifo ++ sensor_has s.sensor)

abbrev pub IsSound : SensorData → Type 0
IsSound d = d.value ≡ u32 (d.id * 100)

pub record OwnersOk {Q H : Type 0} (contents : Q → List ℕ) (blocks : H → ℕ → ℕ) (s : Allocated Q H)
    : Type 0 where
  pub one_owner :
      (p : ℕ)
      → blocks s.heap p
        ≡ occurrences p (processor_has s.processor)
          + occurrences p (contents s.sensor_fifo)
          + occurrences p (sensor_has s.sensor)
  pub single : (p : ℕ) → blocks s.heap p ≤ 1
  pub sound : (p : ℕ) → blocks s.heap p ≡ 1 → IsSound (s.memory p)
  pub log_sound : All IsSound s.log

-- Nothing is allocated, in the FIFO or printed, and both threads are at their start.
pub record AllocStart {Q H : Type 0} (contents : Q → List ℕ) (blocks : H → ℕ → ℕ)
    (s : Allocated Q H) : Type 0 where
  pub no_blocks : (p : ℕ) → blocks s.heap p ≡ 0
  pub empty : contents s.sensor_fifo ≡ []
  pub no_log : s.log ≡ []
  pub sensor_starts : s.sensor ≡ sleeping
  pub processor_starts : s.processor ≡ getting

All-snoc :
    (xs : List SensorData) (d : SensorData)
    → All IsSound xs
    → IsSound d
    → All IsSound (xs ++ d ∷ [])
All-snoc [] d h hd = (hd, tt)
All-snoc (x ∷ xs) d h hd = (h.0, All-snoc xs d h.1 hd)

AllocStart-OwnersOk :
    {Q H : Type 0} {contents : Q → List ℕ} {blocks : H → ℕ → ℕ} {s : Allocated Q H}
    → AllocStart contents blocks s
    → OwnersOk contents blocks s
AllocStart-OwnersOk {s} start = record {
  one_owner = λ p. omega (
    arith,
    start.no_blocks p,
    ap (occurrences p) start.empty,
    ap (λ c. occurrences p (sensor_has c)) start.sensor_starts,
    ap (λ c. occurrences p (processor_has c)) start.processor_starts,
  );
  single = λ p. omega (arith, start.no_blocks p);
  sound = λ p one. absurd (omega (arith, start.no_blocks p, one));
  log_sound = subst (All IsSound) (sym start.no_log) tt;
}

-- A block in the hands of a thread is allocated.
owned :
    {Q H : Type 0} {contents : Q → List ℕ} {blocks : H → ℕ → ℕ} (s : Allocated Q H) (p : ℕ)
    → OwnersOk contents blocks s
    → 0 < occurrences p (processor_has s.processor) + occurrences p (sensor_has s.sensor)
    → blocks s.heap p ≡ 1
owned s p ok h = omega (arith, ok.one_owner p, ok.single p)

module _ {Q H : Type 0} {fifo : FifoApi Q} {heap : HeapApi H} {contents : Q → List ℕ}
    {blocks : H → ℕ → ℕ} (fifo_laws : FifoLaws fifo contents)
    (heap_laws : HeapLaws heap blocks) where
  AllocStep-OwnersOk :
      {s t : Allocated Q H}
      → AllocStep fifo heap s t
      → OwnersOk contents blocks s
      → OwnersOk contents blocks t
  AllocStep-OwnersOk {s} (sensor_fills p h e m) ok = record {
    one_owner = λ q. ground (
      arith,
      ok.one_owner q,
      heap_laws.malloc_takes s.heap h p q m,
      ap (λ c. occurrences q (sensor_has c)) e,
    );
    single = λ q. ground (
      arith,
      ok.single q,
      heap_laws.malloc_takes s.heap h p q m,
      heap_laws.malloc_new s.heap h p m,
      ==_iff q p,
    );
    sound = λ q one. ground (
      arith,
      ok.sound q,
      ok.single q,
      heap_laws.malloc_takes s.heap h p q m,
      heap_laws.malloc_new s.heap h p m,
      ==_iff q p,
    );
    log_sound = ok.log_sound;
  }
  AllocStep-OwnersOk {s} (sensor_without_memory e m) ok = ok
  AllocStep-OwnersOk {s} (sensor_puts p e z) ok = record {
    one_owner = λ q. omega (
      arith,
      ok.one_owner q,
      ap (occurrences q) (fifo_laws.alloc_put_adds s.sensor_fifo p z),
      occurrences-append q (contents s.sensor_fifo) (p ∷ []),
      ap (λ c. occurrences q (sensor_has c)) e,
    );
    single = ok.single;
    sound = ok.sound;
    log_sound = ok.log_sound;
  }
  AllocStep-OwnersOk {s} (sensor_reports p e) ok = record {
    one_owner = λ q. omega (arith, ok.one_owner q, ap (λ c. occurrences q (sensor_has c)) e);
    single = ok.single;
    sound = ok.sound;
    log_sound = ok.log_sound;
  }
  AllocStep-OwnersOk {s} (sensor_put_fails p e z) ok =
      let mine =
        owned s p ok (omega (arith, ap (λ c. occurrences p (sensor_has c)) e, occurrences_one p)) in
      record {
        one_owner = λ q. omega (
          arith,
          ok.one_owner q,
          ap (occurrences q) (fifo_laws.alloc_put_fails s.sensor_fifo p z),
          heap_laws.free_gives s.heap p q mine,
          ap (λ c. occurrences q (sensor_has c)) e,
        );
        single = λ q. omega (arith, ok.single q, heap_laws.free_gives s.heap p q mine);
        sound = λ q one.
            ok.sound q (omega (arith, ok.single q, heap_laws.free_gives s.heap p q mine, one));
        log_sound = ok.log_sound;
      }
  AllocStep-OwnersOk {s} (processor_gets p q e g) ok = record {
    one_owner = λ r. omega (
      arith,
      ok.one_owner r,
      ap (occurrences r) (fifo_laws.get_first s.sensor_fifo q p g),
      ap (λ c. occurrences r (processor_has c)) e,
    );
    single = ok.single;
    sound = ok.sound;
    log_sound = ok.log_sound;
  }
  AllocStep-OwnersOk {s} (processor_prints p e) ok =
      let mine =
        owned s p ok
          (omega (arith, ap (λ c. occurrences p (processor_has c)) e, occurrences_one p)) in
      record {
        one_owner = λ q. omega (arith, ok.one_owner q, ap (λ c. occurrences q (processor_has c)) e);
        single = ok.single;
        sound = ok.sound;
        log_sound = All-snoc s.log (s.memory p) ok.log_sound (ok.sound p mine);
      }
  AllocStep-OwnersOk {s} (processor_frees p e) ok =
      let mine =
        owned s p ok
          (omega (arith, ap (λ c. occurrences p (processor_has c)) e, occurrences_one p)) in
      record {
        one_owner = λ q. omega (
          arith,
          ok.one_owner q,
          heap_laws.free_gives s.heap p q mine,
          ap (λ c. occurrences q (processor_has c)) e,
        );
        single = λ q. omega (arith, ok.single q, heap_laws.free_gives s.heap p q mine);
        sound = λ q one.
            ok.sound q (omega (arith, ok.single q, heap_laws.free_gives s.heap p q mine, one));
        log_sound = ok.log_sound;
      }

  AllocRun-OwnersOk :
      {s t : Allocated Q H}
      → OwnersOk contents blocks s
      → AllocRun fifo heap s t
      → OwnersOk contents blocks t
  AllocRun-OwnersOk ok here = ok
  AllocRun-OwnersOk ok (next r st) = AllocStep-OwnersOk st (AllocRun-OwnersOk ok r)

  -- From an empty FIFO, with no block allocated and both threads at their start, whatever the interleaving
  -- and whichever calls fail: a block is allocated if and only if it stands, once, in the FIFO or in the
  -- hands of a thread, so none leaks; what a thread is about to free is allocated, so nothing is freed
  -- twice; and in each reading that the processor printed the value is 100 times the number, as a number
  -- of 32 bits. A block that the sensor has put is not in its hands any more when it prints from it.
  pub blocks_have_one_owner :
      (s t : Allocated Q H)
      → AllocStart contents blocks s
      → AllocRun fifo heap s t
      → ((p : ℕ) → (blocks t.heap p ≡ occurrences p (owners contents t)) × (blocks t.heap p ≤ 1))
        × ((p : ℕ) → t.sensor ≡ filled p → blocks t.heap p ≡ 1)
        × ((p : ℕ) → t.processor ≡ printed p → blocks t.heap p ≡ 1)
        × All IsSound t.log
  blocks_have_one_owner s t start r =
      let ok = AllocRun-OwnersOk (AllocStart-OwnersOk start) r in
      let shared : (p : ℕ)
          → occurrences p (owners contents t)
            ≡ occurrences p (processor_has t.processor)
              + occurrences p (contents t.sensor_fifo)
              + occurrences p (sensor_has t.sensor) =
        λ p.
          occurrences-append p (processor_has t.processor)
            (contents t.sensor_fifo ++ sensor_has t.sensor)
          ∙ omega (arith, occurrences-append p (contents t.sensor_fifo) (sensor_has t.sensor)) in
      (
        λ p. (ok.one_owner p ∙ sym (shared p), ok.single p),
        λ p e.
            owned t p ok
              (omega (arith, ap (λ c. occurrences p (sensor_has c)) e, occurrences_one p)),
        λ p e.
            owned t p ok
              (omega (arith, ap (λ c. occurrences p (processor_has c)) e, occurrences_one p)),
        ok.log_sound,
      )
