-- ===== src/Files/Speed/Chunks.antt =====
-- The test file chunk by chunk.
use zephyr_stm32h.Common.{
  ℕ, zero, suc, ◌+◌, ◌-◌, ◌*◌, ◌≤◌, ◌<◌, ◌≡◌, refl, sym, ap, subst, ◌∙◌, inl, inr, List, ◌++◌,
  arith, ◌==◌, ==_iff, Bool-cases, length, take, drop, length-append, length-take, length-drop,
  take-append_left, drop-append_right, take_all, drop-take, take-take, drop-append_left,
}
use zephyr_stm32h.Files.Speed.{chunk_size, fill_test_buffer}

-- A buffer is filled as a whole.
pub length-fill : (i size seed : ℕ) → length (fill_test_buffer i size seed) ≡ size
unfolding fill_test_buffer
length-fill i zero seed = refl
length-fill i (suc size) seed = ap suc (length-fill (i + 1) size seed)

-- The chunks of 32 KB below `k` hold their patterns.
pub record Holds (k : ℕ) (text : List ℕ) : Type 0 where
  pub long : k * chunk_size ≤ length text
  pub chunks :
      (i : ℕ)
      → i < k
      → take chunk_size (drop (i * chunk_size) text) ≡ fill_test_buffer 0 chunk_size i

-- What is written behind the chunks leaves them as they are.
chunk_before :
    (i k : ℕ) (text tail : List ℕ)
    → Holds k text
    → i < k
    → take chunk_size (drop (i * chunk_size) (take (k * chunk_size) text ++ tail))
      ≡ fill_test_buffer 0 chunk_size i
chunk_before i k text tail h l =
    let at : ℕ = k * chunk_size in
    let from : ℕ = i * chunk_size in
    let front : List ℕ = take at text in
    let size : length front ≡ at = omega (arith, length-take at text, h.long) in
    ap (take chunk_size) (drop-append_left from front tail (omega arith))
    ∙ take-append_left chunk_size (drop from front) tail (omega (arith, length-drop from front))
    ∙ ap (take chunk_size) (drop-take from at text)
    ∙ take-take chunk_size (at - from) (drop from text) (omega arith)
    ∙ h.chunks i l

-- One more chunk is written behind them.
pub Holds-write :
    (k : ℕ) (text : List ℕ)
    → Holds k text
    → Holds (suc k) (
        take (k * chunk_size) text
        ++ (take chunk_size (fill_test_buffer 0 chunk_size k)
            ++ drop (k * chunk_size + chunk_size) text))
Holds-write k text h =
    let at : ℕ = k * chunk_size in
    let new : List ℕ = fill_test_buffer 0 chunk_size k in
    let rest : List ℕ = drop (at + chunk_size) text in
    let size : length new ≡ chunk_size = length-fill 0 chunk_size k in
    let whole : take chunk_size new ≡ new = take_all chunk_size new (omega (arith, size)) in
    let front : length (take at text) ≡ at = omega (arith, length-take at text, h.long) in
    let tail : List ℕ = take chunk_size new ++ rest in
    let last : take chunk_size (drop at (take at text ++ tail)) ≡ new =
      ap (take chunk_size) (drop-append_right at 0 (take at text) tail (omega arith))
      ∙ take-append_left chunk_size (take chunk_size new) rest
          (omega (arith, length-take chunk_size new, size))
      ∙ take-take chunk_size chunk_size new (omega arith)
      ∙ whole in
    record {
      long = omega (
        arith,
        length-append (take at text) tail,
        front,
        length-append (take chunk_size new) rest,
        length-take chunk_size new,
        size,
      );
      chunks = λ i l. elim (Bool-cases (i == k)) [
        | inl e ↦
            subst
              (λ j.
                take chunk_size (drop (j * chunk_size) (take at text ++ tail))
                ≡ fill_test_buffer 0 chunk_size j)
              (sym ((==_iff i k).0 e)) last
        | inr e ↦
            let below : i < k = ground (arith, l, e, ==_iff i k) in
            chunk_before i k text tail h below
      ];
    }
