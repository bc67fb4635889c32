-- ===== src/Tests/FifoWitness.antt =====
-- The theorems on the FIFO at concrete inputs, with a FIFO and a heap of two blocks in memory.
use zephyr_stm32h.Common.{
  ℕ, ◌≤◌, ◌≡◌, refl, sym, ap, subst, ◌∙◌, inl, inr, Option, none, some, List, [], ◌∷◌, ◌++◌, arith,
  ltb, ◌==◌, if◌then◌else◌, ==_iff, Bool-cases, length, All, ℤ, pos, negsuc,
}
use zephyr_stm32h.Fifo.{
  FifoApi, occurrences, FifoLaws, HeapApi, HeapLaws, sleeping, filled, getting, printed, Allocated,
  put_in, sensor_fills, sensor_puts, sensor_reports, processor_gets, processor_prints,
  producer_sleeping, producer_filled, consumer_getting, consumer_sleeping, Pooled, producer_fills,
  producer_puts, consumer_gets, consumer_prints,
}
use zephyr_stm32h.Fifo.Owners.{AllocRun, AllocStart, IsSound, owners, blocks_have_one_owner}
use zephyr_stm32h.Fifo.Owners as Owners
use zephyr_stm32h.Fifo.Order.{PoolRun, PoolStart, outstanding, printed_in_order}
use zephyr_stm32h.Fifo.Order as Order
use zephyr_stm32h.Fifo.Window.{texts}
use mathlib.Core.Option.{some-injective, some-ne-none}

abbrev toy_get : List ℕ → Option (ℕ × List ℕ)
toy_get [] = none
toy_get (p ∷ q) = some (p, q)

-- Two nodes.
abbrev toy_alloc_put : List ℕ → ℕ → ℤ × List ℕ
toy_alloc_put q p = if ltb (length q) 2 then (pos 0, q ++ p ∷ []) else (negsuc 11, q)

abbrev toy_fifo : FifoApi (List ℕ)
toy_fifo = record {
  k_fifo_put = λ q p. q ++ p ∷ [];
  k_fifo_alloc_put = toy_alloc_put;
  k_fifo_get = toy_get;
}

toy_first : (q q' : List ℕ) (p : ℕ) → toy_get q ≡ some (p, q') → q ≡ p ∷ q'
toy_first [] q' p h = absurd (some-ne-none _ (sym h))
toy_first (x ∷ q) q' p h = ap (λ r. r.0 ∷ r.1) (some-injective _ _ h)

toy_fifo_laws : FifoLaws toy_fifo (λ q. q)
toy_fifo_laws = record {
  put_adds = λ q p h. refl;
  alloc_put_adds = λ q p h. ground (arith, h);
  alloc_put_fails = λ q p h. ground (arith, h);
  get_first = toy_first;
}

abbrev toy_malloc : (ℕ → ℕ) → Option (ℕ × (ℕ → ℕ))
toy_malloc h =
    if h 0 == 0 then some (0, put_in h 0 1) else if h 1 == 0 then some (1, put_in h 1 1) else none

abbrev toy_heap : HeapApi (ℕ → ℕ)
toy_heap = record { k_malloc = toy_malloc; k_free = λ h p. put_in h p 0 }

-- A heap that `toy_malloc` returns.
abbrev after_malloc : (ℕ → ℕ) → ℕ → Option (ℕ × (ℕ → ℕ))
after_malloc h x = some (x, put_in h x 1)

toy_takes :
    (x p : ℕ) (h h' : ℕ → ℕ)
    → h x ≡ 0
    → after_malloc h x ≡ some (p, h')
    → (h p ≡ 0) × (h' ≡ put_in h p 1)
toy_takes x p h h' e m =
    subst (λ (r : ℕ × (ℕ → ℕ)). (h r.0 ≡ 0) × (r.1 ≡ put_in h r.0 1)) (some-injective _ _ m)
      (e, refl)

toy_malloc_takes :
    (h h' : ℕ → ℕ) (p : ℕ) → toy_malloc h ≡ some (p, h') → (h p ≡ 0) × (h' ≡ put_in h p 1)
toy_malloc_takes h h' p m = elim (Bool-cases (h 0 == 0)) [
  | inl b ↦ toy_takes 0 p h h' ((==_iff (h 0) 0).0 b) (rw b at m)
  | inr b ↦ elim (Bool-cases (h 1 == 0)) [
    | inl c ↦ toy_takes 1 p h h' ((==_iff (h 1) 0).0 c) (rw (b, c) at m)
    | inr c ↦ absurd (some-ne-none _ (sym (rw (b, c) at m)))
  ]
]

toy_heap_laws : HeapLaws toy_heap (λ h. h)
toy_heap_laws = record {
  malloc_new = λ h h' p e. (toy_malloc_takes h h' p e).0;
  malloc_takes = λ h h' p q e.
      ap (λ g. g q) (toy_malloc_takes h h' p e).1
      ∙ ground (arith, (toy_malloc_takes h h' p e).0, ==_iff q p);
  free_gives = λ h p q e. ground (arith, e, ==_iff q p);
}

abbrev alloc_start : Allocated (List ℕ) (ℕ → ℕ)
alloc_start = record {
  sensor_fifo = [];
  heap = λ p. 0;
  memory = λ p. record { id = 4; value = 9 };
  sensor = sleeping;
  processor = getting;
  log = [];
  sent = [];
}

-- The first block is in the hands of the processor, and its reading is printed.
abbrev alloc_end : Allocated (List ℕ) (ℕ → ℕ)
alloc_end = record {
  sensor_fifo = [];
  heap = put_in (λ p. 0) 0 1;
  memory = put_in (λ p. record { id = 4; value = 9 }) 0 (record { id = 5; value = 500 });
  sensor = sleeping;
  processor = printed 0;
  log = record { id = 5; value = 500 } ∷ [];
  sent = record { id = 5; value = 500 } ∷ [];
}

alloc_run : AllocRun toy_fifo toy_heap alloc_start alloc_end
alloc_run =
    Owners.next
      (Owners.next
        (Owners.next
          (Owners.next (Owners.next Owners.here (sensor_fills 0 (put_in (λ p. 0) 0 1) refl refl))
            (sensor_puts 0 refl refl))
          (processor_gets 0 [] refl refl))
        (processor_prints 0 refl))
      (sensor_reports 0 refl)

blocks_have_one_owner_example :
    ((p : ℕ)
      → (alloc_end.heap p ≡ occurrences p (owners (λ q. q) alloc_end)) × (alloc_end.heap p ≤ 1))
    × ((p : ℕ) → alloc_end.sensor ≡ filled p → alloc_end.heap p ≡ 1)
    × ((p : ℕ) → alloc_end.processor ≡ printed p → alloc_end.heap p ≡ 1)
    × All IsSound alloc_end.log
blocks_have_one_owner_example =
    blocks_have_one_owner toy_fifo_laws toy_heap_laws alloc_start alloc_end
      (record {
        no_blocks = λ p. refl;
        empty = refl;
        no_log = refl;
        sensor_starts = refl;
        processor_starts = refl;
      })
      alloc_run

-- The number, in place of the text.
abbrev toy_text : ℕ → List ℕ
toy_text n = n ∷ []

abbrev pool_start : Pooled (List ℕ)
pool_start = record {
  data_fifo = [];
  data_pool = λ i. record { count = 0; msg = [] };
  pool_index = 0;
  producer = producer_sleeping;
  consumer = consumer_getting;
  produced = [];
  consumed = [];
}

-- One item is put and printed, and the next one is filled.
abbrev pool_end : Pooled (List ℕ)
pool_end = record {
  data_fifo = [];
  data_pool =
      put_in (put_in (λ i. record { count = 0; msg = [] }) 0 (record { count = 1; msg = 1 ∷ [] })) 1
        (record { count = 1; msg = 1 ∷ [] });
  pool_index = 2;
  producer = producer_filled 1;
  consumer = consumer_sleeping;
  produced = (1 ∷ []) ∷ (1 ∷ []) ∷ [];
  consumed = (1 ∷ []) ∷ [];
}

pool_run : PoolRun toy_fifo toy_text pool_start pool_end
pool_run =
    Order.next
      (Order.next
        (Order.next
          (Order.next (Order.next Order.here (producer_fills refl)) (producer_puts 0 refl))
          (consumer_gets 0 [] refl refl))
        (consumer_prints 0 refl))
      (producer_fills refl)

printed_in_order_example :
    pool_end.produced
    ≡ pool_end.consumed ++ texts pool_end.data_pool (outstanding (λ q. q) pool_end)
unfolding pool_run
printed_in_order_example =
    printed_in_order toy_fifo_laws pool_start pool_end
      (record {
        empty = refl;
        index = omega arith;
        producer_starts = refl;
        consumer_starts = refl;
        none_produced = refl;
        none_consumed = refl;
      })
      pool_run ((tt, omega arith), omega arith)
