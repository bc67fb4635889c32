-- ===== src/Fifo.antt =====
-- The threads of app36_fifo/src/main.c, over Zephyr's FIFO and heap as parameters.
pub mod Main
pub mod Owners
pub mod Window
pub mod Order
use zephyr_stm32h.Common.{
  ℕ, zero, suc, ◌+◌, ◌-◌, ◌*◌, ◌/◌, ◌%◌, ◌^◌, ◌≤◌, ◌<◌, ◌≡◌, refl, sym, ap, subst, ◌∙◌, ◌≢◌, ◌↔◌,
  ◌⊎◌, inl, inr, Bool, true, false, true≢false, not, ◌&&◌, ◌||◌, Option, none, some, List, [], ◌∷◌,
  ◌++◌, append-nil, append_assoc, arith, ltb, leb, ◌==◌, if◌then◌else◌, lt→ltb, le→ltb, le→leb,
  lt→leb, ==_iff, ==_refl, Bool-cases, if_rule, length, get_or, set, take, drop, replicate, All,
  length-append, length-take, length-drop, length-replicate, length-set, take-append-drop,
  take-append_left, take-append_right, drop-append_right, take_all, get_or-append_left,
  get_or-append_right, get_or-take, get_or-drop, u8, u16, u32, is_negative, is_err, le16, le32,
  bytes16, bytes32, ℤ, pos,
}

-- `k_fifo_put`, `k_fifo_alloc_put` with what it returns, and `k_fifo_get`, which waits while it has
-- `none`. An item is a pointer.
pub record FifoApi (Q : Type 0) : Type 0 where
  pub k_fifo_put : Q → ℕ → Q
  pub k_fifo_alloc_put : Q → ℕ → ℤ × Q
  pub k_fifo_get : Q → Option (ℕ × Q)

-- How often a pointer stands in a list.
abbrev pub occurrences : ℕ → List ℕ → ℕ
occurrences p [] = 0
occurrences p (q ∷ qs) = (if p == q then 1 else 0) + occurrences p qs

pub occurrences-append :
    (p : ℕ) (xs ys : List ℕ) → occurrences p (xs ++ ys) ≡ occurrences p xs + occurrences p ys
occurrences-append p [] ys = omega arith
occurrences-append p (x ∷ xs) ys = omega (arith, occurrences-append p xs ys)

pub occurrences_one : (p : ℕ) → occurrences p (p ∷ []) ≡ 1
occurrences_one p = ground (arith, ==_refl p)

-- `contents q` are the items in the order of their `k_fifo_put`. An item that is in the FIFO must not be
-- put again with `k_fifo_put`, which uses its first word as a link.
pub record FifoLaws {Q : Type 0} (api : FifoApi Q) (contents : Q → List ℕ) : Type 0 where
  pub put_adds :
      (q : Q) (p : ℕ)
      → occurrences p (contents q) ≡ 0
      → contents (api.k_fifo_put q p) ≡ contents q ++ p ∷ []
  pub alloc_put_adds :
      (q : Q) (p : ℕ)
      → (api.k_fifo_alloc_put q p).0 ≡ pos 0
      → contents (api.k_fifo_alloc_put q p).1 ≡ contents q ++ p ∷ []
  pub alloc_put_fails :
      (q : Q) (p : ℕ)
      → (api.k_fifo_alloc_put q p).0 ≢ pos 0
      → contents (api.k_fifo_alloc_put q p).1 ≡ contents q
  pub get_first :
      (q q' : Q) (p : ℕ) → api.k_fifo_get q ≡ some (p, q') → contents q ≡ p ∷ contents q'

-- `k_malloc`, with `none` for NULL, and `k_free`.
pub record HeapApi (H : Type 0) : Type 0 where
  pub k_malloc : H → Option (ℕ × H)
  pub k_free : H → ℕ → H

-- `blocks h p` is 1 for a block that is allocated, and 0 else.
pub record HeapLaws {H : Type 0} (api : HeapApi H) (blocks : H → ℕ → ℕ) : Type 0 where
  pub malloc_new : (h h' : H) (p : ℕ) → api.k_malloc h ≡ some (p, h') → blocks h p ≡ 0
  pub malloc_takes :
      (h h' : H) (p q : ℕ)
      → api.k_malloc h ≡ some (p, h')
      → blocks h' q ≡ (if q == p then 1 else 0) + blocks h q
  pub free_gives :
      (h : H) (p q : ℕ)
      → blocks h p ≡ 1
      → blocks (api.k_free h p) q + (if q == p then 1 else 0) ≡ blocks h q

pub record SensorData : Type 0 where
  pub id : ℕ
  pub value : ℕ

-- Where `sensor_alloc_func` stands: asleep, with a block that it has filled, or about to print from the
-- block that it has put.
pub data SensorPc : Type 0 where
  sleeping : SensorPc
  filled : ℕ → SensorPc
  reporting : ℕ → SensorPc

-- Where `processor_alloc_func` stands: at `k_fifo_get`, or with a block, and whether it has printed it.
pub data ProcessorPc : Type 0 where
  getting : ProcessorPc
  got : ℕ → ProcessorPc
  printed : ℕ → ProcessorPc

-- Example 1: `memory` is what the blocks hold, `log` what the processor has printed, and `sent` what the
-- sensor has printed of the blocks it has put.
pub record Allocated (Q H : Type 0) : Type 0 where
  pub sensor_fifo : Q
  pub heap : H
  pub memory : ℕ → SensorData
  pub sensor : SensorPc
  pub processor : ProcessorPc
  pub log : List SensorData
  pub sent : List SensorData

abbrev pub put_in : {A : Type 0} → (ℕ → A) → ℕ → A → ℕ → A
put_in memory p d q = if q == p then d else memory q

-- What the sensor makes of a block: `k_malloc` does not clear it. The numbers are `int`s by their bits.
abbrev pub fill_reading : SensorData → SensorData
fill_reading d = let id = u32 (d.id + 1) in record { id = id; value = u32 (id * 100) }

pub data AllocStep {Q H : Type 0} (fifo : FifoApi Q) (heap : HeapApi H) (s : Allocated Q H)
    : Allocated Q H → Type 0 where
  sensor_fills :
      (p : ℕ) (h : H)
      → s.sensor ≡ sleeping
      → heap.k_malloc s.heap ≡ some (p, h)
      → AllocStep fifo heap s (record s {
        heap = h;
        memory = put_in s.memory p (fill_reading (s.memory p));
        sensor = filled p;
      })
  sensor_without_memory :
      s.sensor ≡ sleeping → heap.k_malloc s.heap ≡ none → AllocStep fifo heap s s
  sensor_puts :
      (p : ℕ)
      → s.sensor ≡ filled p
      → (fifo.k_fifo_alloc_put s.sensor_fifo p).0 ≡ pos 0
      → AllocStep fifo heap s (record s {
        sensor_fifo = (fifo.k_fifo_alloc_put s.sensor_fifo p).1;
        sensor = reporting p;
      })
  -- The block is the processor's now, which may have freed it.
  sensor_reports :
      (p : ℕ)
      → s.sensor ≡ reporting p
      → AllocStep fifo heap s (record s { sensor = sleeping; sent = s.sent ++ s.memory p ∷ [] })
  -- The number that it prints first is from its own block.
  sensor_put_fails :
      (p : ℕ)
      → s.sensor ≡ filled p
      → (fifo.k_fifo_alloc_put s.sensor_fifo p).0 ≢ pos 0
      → AllocStep fifo heap s (record s {
        sensor_fifo = (fifo.k_fifo_alloc_put s.sensor_fifo p).1;
        heap = heap.k_free s.heap p;
        sensor = sleeping;
      })
  processor_gets :
      (p : ℕ) (q : Q)
      → s.processor ≡ getting
      → fifo.k_fifo_get s.sensor_fifo ≡ some (p, q)
      → AllocStep fifo heap s (record s { sensor_fifo = q; processor = got p })
  processor_prints :
      (p : ℕ)
      → s.processor ≡ got p
      → AllocStep fifo heap s (record s { processor = printed p; log = s.log ++ s.memory p ∷ [] })
  processor_frees :
      (p : ℕ)
      → s.processor ≡ printed p
      → AllocStep fifo heap s (record s { heap = heap.k_free s.heap p; processor = getting })

pub record DataItem : Type 0 where
  pub count : ℕ
  pub msg : List ℕ

abbrev pub pool_size : ℕ
pool_size = 4

-- Where `producer_func` stands: asleep, or with an item that it has filled.
pub data ProducerPc : Type 0 where
  producer_sleeping : ProducerPc
  producer_filled : ℕ → ProducerPc

-- Where `consumer_func` stands: at `k_fifo_get`, with an item to print, or asleep after that.
pub data ConsumerPc : Type 0 where
  consumer_getting consumer_sleeping : ConsumerPc
  consumer_got : ℕ → ConsumerPc

-- Example 2, with the texts that the producer and the consumer have printed.
pub record Pooled (Q : Type 0) : Type 0 where
  pub data_fifo : Q
  pub data_pool : ℕ → DataItem
  pub pool_index : ℕ
  pub producer : ProducerPc
  pub consumer : ConsumerPc
  pub produced : List (List ℕ)
  pub consumed : List (List ℕ)

-- `text n` is what `snprintf` makes of "msg #%d".
abbrev pub next_item : (ℕ → List ℕ) → DataItem → DataItem
next_item text d = let count = u32 (d.count + 1) in record { count = count; msg = text count }

pub data PoolStep {Q : Type 0} (fifo : FifoApi Q) (text : ℕ → List ℕ) (s : Pooled Q)
    : Pooled Q → Type 0 where
  producer_fills :
      s.producer ≡ producer_sleeping
      → PoolStep fifo text s (record s {
        data_pool = put_in s.data_pool s.pool_index (next_item text (s.data_pool s.pool_index));
        pool_index = (s.pool_index + 1) % pool_size;
        producer = producer_filled s.pool_index;
        produced = s.produced ++ (next_item text (s.data_pool s.pool_index)).msg ∷ [];
      })
  producer_puts :
      (i : ℕ)
      → s.producer ≡ producer_filled i
      → PoolStep fifo text s
          (record s { data_fifo = fifo.k_fifo_put s.data_fifo i; producer = producer_sleeping })
  consumer_gets :
      (i : ℕ) (q : Q)
      → s.consumer ≡ consumer_getting
      → fifo.k_fifo_get s.data_fifo ≡ some (i, q)
      → PoolStep fifo text s (record s { data_fifo = q; consumer = consumer_got i })
  consumer_prints :
      (i : ℕ)
      → s.consumer ≡ consumer_got i
      → PoolStep fifo text s (record s {
        consumer = consumer_sleeping;
        consumed = s.consumed ++ (s.data_pool i).msg ∷ [];
      })
  consumer_wakes :
      s.consumer ≡ consumer_sleeping
      → PoolStep fifo text s (record s { consumer = consumer_getting })
