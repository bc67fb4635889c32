-- ===== src/Fifo/Order.antt =====
-- Example 2: what the consumer prints is what the producer has printed.
use zephyr_stm32h.Common.{
  ℕ, zero, suc, ◌+◌, ◌%◌, ◌≤◌, ◌<◌, ◌≡◌, refl, sym, ap, ◌∙◌, List, [], ◌∷◌, ◌++◌, append-nil,
  append_assoc, arith, length, length-append,
}
use mathlib.Core.List.{head-eq_of_cons-eq, tail-eq_of_cons-eq}
use zephyr_stm32h.Fifo.{
  FifoApi, occurrences, occurrences-append, occurrences_one, FifoLaws, put_in, pool_size,
  ProducerPc, producer_sleeping, producer_filled, ConsumerPc, consumer_getting, consumer_got,
  Pooled, next_item, PoolStep, producer_fills, producer_puts, consumer_gets, consumer_prints,
  consumer_wakes,
}
use zephyr_stm32h.Fifo.Window.{window, window_single, texts_next, texts, window_snoc, window_fresh}

pub data PoolRun {Q : Type 0} (fifo : FifoApi Q) (text : ℕ → List ℕ) (s : Pooled Q)
    : Pooled Q → Type 0 where
  here : PoolRun fifo text s s
  next : {t u : Pooled Q} → PoolRun fifo text s t → PoolStep fifo text t u → PoolRun fifo text s u

abbrev pub producer_has : ProducerPc → List ℕ
producer_has producer_sleeping = []
producer_has (producer_filled i) = i ∷ []

abbrev pub consumer_has : ConsumerPc → List ℕ
consumer_has (consumer_got i) = i ∷ []
consumer_has _ = []

-- The items that the producer has filled and the consumer has not printed.
abbrev pub outstanding : {Q : Type 0} → (Q → List ℕ) → Pooled Q → List ℕ
outstanding contents s =
    consumer_has s.consumer ++ (contents s.data_fifo ++ producer_has s.producer)

-- Each time that the producer has filled an item, at most three were outstanding before.
abbrev pub IsPaced :
    {Q : Type 0} {fifo : FifoApi Q} {text : ℕ → List ℕ} {s t : Pooled Q}
    → (Q → List ℕ)
    → PoolRun fifo text s t
    → Type 0
IsPaced contents here = Unit {0}
IsPaced contents (next {t} r (producer_fills e)) =
    IsPaced contents r × (length (outstanding contents t) < pool_size)
IsPaced contents (next r _) = IsPaced contents r

-- The outstanding items are a window that ends in front of `pool_index`, and their texts are the ones not
-- yet printed.
pub record OrderOk {Q : Type 0} (contents : Q → List ℕ) (s : Pooled Q) (start n : ℕ) : Type 0 where
  pub out : outstanding contents s ≡ window start n
  pub bound : n ≤ pool_size
  pub index : s.pool_index ≡ (start + n) % pool_size
  pub in_order : s.produced ≡ s.consumed ++ texts s.data_pool (window start n)

length-window : (start n : ℕ) → length (window start n) ≡ n
length-window start zero = refl
length-window start (suc n) = ap suc (length-window (start + 1) n)

-- What is filled stands last.
snoc_out :
    (c q p w : List ℕ) (x : ℕ) → p ≡ [] → c ++ (q ++ p) ≡ w → c ++ (q ++ x ∷ []) ≡ w ++ x ∷ []
snoc_out c q p w x e h = rw (sym h, e, append-nil q, append_assoc c q (x ∷ [])) refl

-- Nothing is outstanding or printed, and both threads are at their start.
pub record PoolStart {Q : Type 0} (contents : Q → List ℕ) (s : Pooled Q) : Type 0 where
  pub empty : contents s.data_fifo ≡ []
  pub index : s.pool_index < pool_size
  pub producer_starts : s.producer ≡ producer_sleeping
  pub consumer_starts : s.consumer ≡ consumer_getting
  pub none_produced : s.produced ≡ []
  pub none_consumed : s.consumed ≡ []

PoolStart-OrderOk :
    {Q : Type 0} {contents : Q → List ℕ} {s : Pooled Q}
    → PoolStart contents s
    → OrderOk contents s s.pool_index 0
PoolStart-OrderOk {s} start = record {
  out =
      rw (start.empty, ap producer_has start.producer_starts, ap consumer_has start.consumer_starts)
        refl;
  bound = omega arith;
  index = omega (arith, start.index);
  in_order = rw (start.none_produced, start.none_consumed) refl;
}

module _ {Q : Type 0} {fifo : FifoApi Q} {contents : Q → List ℕ} {text : ℕ → List ℕ}
    (laws : FifoLaws fifo contents) where
  PoolStep-OrderOk :
      {s t : Pooled Q} (start n : ℕ) (st : PoolStep fifo text s t)
      → OrderOk contents s start n
      → IsPaced contents (next here st)
      → (start' : ℕ) × (n' : ℕ) × OrderOk contents t start' n'
  PoolStep-OrderOk {s} start n (producer_fills e) ok (h, few) =
      let less : n < pool_size = omega (arith, ap length ok.out, length-window start n, few) in
      let item = next_item text (s.data_pool s.pool_index) in
      let place : s.pool_index ≡ (start + n + 0) % pool_size = ok.index ∙ omega arith in
      let fresh = window_fresh start n 0 (omega (arith, less)) in
      (
        start,
        suc n,
        record {
          out =
              snoc_out (consumer_has s.consumer) (contents s.data_fifo) (producer_has s.producer)
                (window start n) s.pool_index (ap producer_has e) ok.out
              ∙ ap (λ (k : ℕ). window start n ++ k ∷ []) ok.index
              ∙ window_snoc start n;
          bound = less;
          index = ground (arith, ok.index);
          in_order =
              ap (λ ts. ts ++ item.msg ∷ []) ok.in_order
              ∙ append_assoc s.consumed (texts s.data_pool (window start n)) (item.msg ∷ [])
              ∙ ap (λ ts. s.consumed ++ ts)
                  (sym (
                      texts_next s.data_pool s.pool_index item (window start n)
                        (ap (λ (k : ℕ). occurrences k (window start n)) place ∙ fresh))
                    ∙ ap (texts (put_in s.data_pool s.pool_index item))
                        (ap (λ (k : ℕ). window start n ++ k ∷ []) ok.index ∙ window_snoc start n));
        },
      )
  PoolStep-OrderOk {s} start n (producer_puts i e) ok h =
      let mine = ap producer_has e in
      let once = window_single start n i ok.bound in
      let absent : occurrences i (contents s.data_fifo) ≡ 0 = omega (
        arith,
        once,
        ap (occurrences i) ok.out,
        occurrences-append i (consumer_has s.consumer)
            (contents s.data_fifo ++ producer_has s.producer),
        occurrences-append i (contents s.data_fifo) (producer_has s.producer),
        ap (occurrences i) mine,
        occurrences_one i,
      ) in
      (
        start,
        n,
        record {
          out =
              ap (λ q. consumer_has s.consumer ++ q)
                (append-nil _
                  ∙ laws.put_adds s.data_fifo i absent
                  ∙ ap (λ p. contents s.data_fifo ++ p) (sym mine))
              ∙ ok.out;
          bound = ok.bound;
          index = ok.index;
          in_order = ok.in_order;
        },
      )
  PoolStep-OrderOk {s} start n (consumer_gets i q e g) ok h = (
    start,
    n,
    record {
      out =
          ap (λ q'. q' ++ producer_has s.producer) (sym (laws.get_first s.data_fifo q i g))
          ∙ ap (λ c. c ++ (contents s.data_fifo ++ producer_has s.producer))
              (sym (ap consumer_has e))
          ∙ ok.out;
      bound = ok.bound;
      index = ok.index;
      in_order = ok.in_order;
    },
  )
  PoolStep-OrderOk {s} start zero (consumer_prints i e) ok h = absurd (
      omega (
        arith,
        ap length ok.out,
        ap (λ c. length (consumer_has c)) e,
        length-append (consumer_has s.consumer) (contents s.data_fifo ++ producer_has s.producer),
      ))
  PoolStep-OrderOk {s} start (suc n) (consumer_prints i e) ok h =
      let rest = contents s.data_fifo ++ producer_has s.producer in
      let out = ap (λ c. c ++ rest) (sym (ap consumer_has e)) ∙ ok.out in
      let head = head-eq_of_cons-eq out in
      (
        start + 1,
        n,
        record {
          out = tail-eq_of_cons-eq out;
          bound = omega (arith, ok.bound);
          index = ok.index ∙ ap (λ (k : ℕ). k % pool_size) (omega arith);
          in_order =
              ok.in_order
              ∙ ap
                  (λ (k : ℕ).
                    s.consumed ++ (s.data_pool k).msg ∷ texts s.data_pool (window (start + 1) n))
                  (sym head)
              ∙ sym (append_assoc s.consumed ((s.data_pool i).msg ∷ []) _);
        },
      )
  PoolStep-OrderOk {s} start n (consumer_wakes e) ok h = (
    start,
    n,
    record {
      out =
          ap (λ c. c ++ (contents s.data_fifo ++ producer_has s.producer)) (sym (ap consumer_has e))
          ∙ ok.out;
      bound = ok.bound;
      index = ok.index;
      in_order = ok.in_order;
    },
  )

  PoolRun-OrderOk :
      {s t : Pooled Q} (start n : ℕ)
      → OrderOk contents s start n
      → (r : PoolRun fifo text s t) → IsPaced contents r
      → (start' : ℕ) × (n' : ℕ) × OrderOk contents t start' n'
  PoolRun-OrderOk start n ok here h = (start, n, ok)
  PoolRun-OrderOk start n ok (next r (producer_fills e)) (h, few) =
      let (start', n', ok') = PoolRun-OrderOk start n ok r h in
      PoolStep-OrderOk start' n' (producer_fills e) ok' (tt, few)
  PoolRun-OrderOk start n ok (next r (producer_puts i e)) h =
      let (start', n', ok') = PoolRun-OrderOk start n ok r h in
      PoolStep-OrderOk start' n' (producer_puts i e) ok' tt
  PoolRun-OrderOk start n ok (next r (consumer_gets i q e g)) h =
      let (start', n', ok') = PoolRun-OrderOk start n ok r h in
      PoolStep-OrderOk start' n' (consumer_gets i q e g) ok' tt
  PoolRun-OrderOk start n ok (next r (consumer_prints i e)) h =
      let (start', n', ok') = PoolRun-OrderOk start n ok r h in
      PoolStep-OrderOk start' n' (consumer_prints i e) ok' tt
  PoolRun-OrderOk start n ok (next r (consumer_wakes e)) h =
      let (start', n', ok') = PoolRun-OrderOk start n ok r h in
      PoolStep-OrderOk start' n' (consumer_wakes e) ok' tt

  -- From an empty FIFO, with `pool_index` in the pool and both threads at their start, if at most three
  -- items were outstanding each time that the producer filled one, then whatever the interleaving, the
  -- texts that the producer has printed are, in order, those that the consumer has printed followed by
  -- those of the outstanding items: none is lost, printed twice or out of order.
  pub printed_in_order :
      (s t : Pooled Q)
      → PoolStart contents s
      → (r : PoolRun fifo text s t) → IsPaced contents r
      → t.produced ≡ t.consumed ++ texts t.data_pool (outstanding contents t)
  printed_in_order s t start r h =
      let (k, n, ok) = PoolRun-OrderOk s.pool_index 0 (PoolStart-OrderOk start) r h in
      ok.in_order ∙ ap (λ is. t.consumed ++ texts t.data_pool is) (sym ok.out)
