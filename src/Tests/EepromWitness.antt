-- ===== src/Tests/EepromWitness.antt =====
-- The theorems on the EEPROM at concrete inputs, with a chip in memory.
use zephyr_stm32h.Common.{
  ℕ, zero, suc, ◌+◌, ◌-◌, ◌*◌, ◌/◌, ◌%◌, ◌≤◌, ◌<◌, ◌≡◌, refl, ap, ◌∙◌, Bool, true, false, ◌&&◌,
  List, [], ◌∷◌, arith, ltb, ◌==◌, if◌then◌else◌, length, get_or, pos,
}
use zephyr_stm32h.Eeprom.{Bus, eeprom_write, eeprom_read}
use zephyr_stm32h.Eeprom.Chip.{ChipLaws, eeprom_write-read}

record Chip : Type 0 where
  memory : ℕ → ℕ
  counter : ℕ

-- The index of the byte that remains at `a` of `len` bytes written from `o` on, if `a` is written.
abbrev last_index : ℕ → ℕ → ℕ → ℕ
last_index o len a = let first = (a % 8 + 8 - o % 8) % 8 in first + 8 * ((len - 1 - first) / 8)

abbrev is_written : ℕ → ℕ → ℕ → Bool
is_written o len a = a / 8 == o / 8 && ltb ((a % 8 + 8 - o % 8) % 8) len

abbrev toy_write : Chip → List ℕ → Chip
toy_write c [] = c
toy_write c (o ∷ xs) = record {
  memory = λ a.
      if is_written o (length xs) a then get_or xs (last_index o (length xs) a) 0 else c.memory a;
  counter = o;
}

abbrev toy_bytes : Chip → ℕ → ℕ → List ℕ
toy_bytes c i zero = []
toy_bytes c i (suc n) = c.memory ((c.counter + i) % 256) ∷ toy_bytes c (i + 1) n

abbrev toy_bus : Bus Chip
toy_bus = record {
  i2c_write_dt = λ c xs. (pos 0, toy_write c xs);
  i2c_read_dt = λ c n. (pos 0, toy_bytes c 0 n, c);
}

toy_bytes-length : (c : Chip) (i n : ℕ) → length (toy_bytes c i n) ≡ n
toy_bytes-length c i zero = refl
toy_bytes-length c i (suc n) = ap suc (toy_bytes-length c (i + 1) n)

toy_bytes-get_or :
    (c : Chip) (k n i : ℕ)
    → i < n
    → get_or (toy_bytes c k n) i 0 ≡ c.memory ((c.counter + (k + i)) % 256)
toy_bytes-get_or c k zero i h = absurd (omega arith)
toy_bytes-get_or c k (suc n) zero h =
    let e : k ≡ k + 0 = omega arith in ap (λ (j : ℕ). c.memory ((c.counter + j) % 256)) e
toy_bytes-get_or c k (suc n) (suc i) h =
    let e : k + 1 + i ≡ k + suc i = omega arith in
    toy_bytes-get_or c (k + 1) n i (omega arith)
    ∙ ap (λ (j : ℕ). c.memory ((c.counter + j) % 256)) e

toy_bus_wrote :
    (c : Chip) (o j : ℕ) (xs : List ℕ)
    → j < length xs
    → length xs ≤ j + 8
    → (toy_write c (o ∷ xs)).memory (o / 8 * 8 + (o + j) % 8) ≡ get_or xs j 0
toy_bus_wrote c o j xs h hl =
    let a : ℕ = o / 8 * 8 + (o + j) % 8 in
    let first : (a % 8 + 8 - o % 8) % 8 ≡ j % 8 = omega arith in
    let page : (a / 8 == o / 8) ≡ true = ground arith in
    let less : ltb (j % 8) (length xs) ≡ true = ground arith in
    let index : j % 8 + 8 * ((length xs - 1 - j % 8) / 8) ≡ j = omega arith in
    rw (page, first, less, index) refl

toy_bus-ChipLaws : ChipLaws toy_bus (λ c. c.memory) (λ c. c.counter)
toy_bus-ChipLaws = record {
  wrote = λ c o j xs _ h hl. toy_bus_wrote c o j xs h hl;
  addressed = λ c o _. refl;
  kept = λ c o a _. let t : is_written o 0 a ≡ false = ground arith in rw t refl;
  read_length = λ c n _. toy_bytes-length c 0 n;
  read_byte = λ c n i _ h.
      toy_bytes-get_or c 0 n i h
      ∙ (let z : 0 + i ≡ i = omega arith in ap (λ (j : ℕ). c.memory ((c.counter + j) % 256)) z);
}

abbrev blank : Chip
blank = record { memory = λ a. 0xff; counter = 0 }

-- Three bytes at address 5, the end of the first page.
eeprom_write-read_example :
    get_or (eeprom_read toy_bus (eeprom_write toy_bus blank 5 (7 ∷ 8 ∷ 9 ∷ []) 3).1 5 [] 3).1 2 0
    ≡ 9
eeprom_write-read_example =
    eeprom_write-read toy_bus-ChipLaws (λ s xs. refl) (λ s n. refl) blank 5 (7 ∷ 8 ∷ 9 ∷ []) [] 3 2
      (omega arith) (omega arith) (omega arith) (omega arith)
