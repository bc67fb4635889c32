-- ===== src/Fifo/Window.antt =====
-- The items of the pool that are out: consecutive places, modulo the size of the pool.
use zephyr_stm32h.Common.{
  ℕ, zero, suc, ◌+◌, ◌-◌, ◌%◌, ◌≤◌, ◌<◌, ◌≡◌, refl, ap, ◌∙◌, false, List, [], ◌∷◌, ◌++◌, arith,
  ◌==◌, ==_iff, ==_refl,
}
use zephyr_stm32h.Fifo.{occurrences, DataItem, pool_size, put_in}

-- `n` places of the pool from `start` on.
abbrev pub window : ℕ → ℕ → List ℕ
window start zero = []
window start (suc n) = start % pool_size ∷ window (start + 1) n

-- The texts of the items at these places.
abbrev pub texts : (ℕ → DataItem) → List ℕ → List (List ℕ)
texts pool [] = []
texts pool (i ∷ is) = (pool i).msg ∷ texts pool is

pub window_snoc :
    (start n : ℕ) → window start n ++ (start + n) % pool_size ∷ [] ≡ window start (suc n)
window_snoc start zero = ap (λ (k : ℕ). k % pool_size ∷ []) (omega arith)
window_snoc start (suc n) =
    ap (λ is. start % pool_size ∷ is)
      (ap (λ (k : ℕ). window (start + 1) n ++ k % pool_size ∷ []) (omega arith)
        ∙ window_snoc (start + 1) n)

pub texts-append :
    (pool : ℕ → DataItem) (is js : List ℕ) → texts pool (is ++ js) ≡ texts pool is ++ texts pool js
texts-append pool [] js = refl
texts-append pool (i ∷ is) js = ap (λ ts. (pool i).msg ∷ ts) (texts-append pool is js)

-- The place behind a window of fewer than `pool_size` is not in it.
pub window_fresh :
    (start n j : ℕ)
    → n + j < pool_size
    → occurrences ((start + n + j) % pool_size) (window start n) ≡ 0
window_fresh start zero j h = refl
window_fresh start (suc n) j h =
    let e : start + 1 + n + j ≡ start + suc n + j = omega arith in
    let rest = window_fresh (start + 1) n j (omega arith) in
    ground (arith, rest, e, ==_iff ((start + suc n + j) % pool_size) (start % pool_size))

-- A write elsewhere leaves the texts.
pub texts-put_in :
    (pool : ℕ → DataItem) (p : ℕ) (d : DataItem) (is : List ℕ)
    → occurrences p is ≡ 0
    → texts (put_in pool p d) is ≡ texts pool is
texts-put_in pool p d [] h = refl
texts-put_in pool p d (i ∷ is) h =
    let apart : (i == p) ≡ false = ground (arith, ==_iff i p, ==_iff p i) in
    let rest = texts-put_in pool p d is (ground arith) in rw (apart, rest) refl

-- No place stands twice in a window of at most `pool_size`.
pub window_single : (start n p : ℕ) → n ≤ pool_size → occurrences p (window start n) ≤ 1
window_single start zero p h = omega arith
window_single start (suc n) p h =
    let rest = window_single (start + 1) n p (omega arith) in
    let last : (start + 1 + n + (3 - n)) % pool_size ≡ start % pool_size = omega arith in
    let fresh = window_fresh (start + 1) n (3 - n) (omega arith) in
    ground (
      arith,
      rest,
      ap (λ (k : ℕ). occurrences k (window (start + 1) n)) last,
      fresh,
      ==_iff p (start % pool_size),
    )

-- A fresh place that is filled behind the others.
pub texts_next :
    (pool : ℕ → DataItem) (p : ℕ) (d : DataItem) (is : List ℕ)
    → occurrences p is ≡ 0
    → texts (put_in pool p d) (is ++ p ∷ []) ≡ texts pool is ++ d.msg ∷ []
texts_next pool p d is h =
    let same = ==_refl p in
    texts-append (put_in pool p d) is (p ∷ []) ∙ rw (texts-put_in pool p d is h, same) refl
