-- ===== src/Keys/Setup.antt =====
-- The interrupt of a key is enabled last, and an error ends `main` at once.
use zephyr_stm32h.Common.{
  ℕ, zero, ◌+◌, ◌≡◌, ◌≢◌, Bool, true, false, ◌&&◌, List, [], ◌∷◌, ◌++◌, ◌==◌, All, ℤ, pos, negsuc,
}
use zephyr_stm32h.Keys.{
  Key, key0, key1, KeyCall, is_ready, pin_configure, init_callback, add_callback,
  interrupt_configure, MainEnd, Results, returned,
}

-- A result with which `main` goes on: any but 0 from `gpio_is_ready_dt`, any at all from `gpio_init_callback`, which is void, and 0 or more from the others.
abbrev pub Fine : KeyCall → ℤ → Type 0
Fine (is_ready k) r = r ≢ pos 0
Fine (init_callback k) r = Unit {0}
Fine (pin_configure k) r = (n : ℕ) × (r ≡ pos n)
Fine (add_callback k) r = (n : ℕ) × (r ≡ pos n)
Fine (interrupt_configure k) r = (n : ℕ) × (r ≡ pos n)

-- A result with which `main` ends, and what it then returns: -1 if a key is not ready, and otherwise the negative result itself.
abbrev pub Ends : KeyCall → ℤ → ℤ → Type 0
Ends (is_ready k) r v = (r ≡ pos 0) × (v ≡ negsuc 0)
Ends (init_callback k) r v = ⊥
Ends (pin_configure k) r v = (n : ℕ) × (r ≡ negsuc n) × (v ≡ negsuc n)
Ends (add_callback k) r v = (n : ℕ) × (r ≡ negsuc n) × (v ≡ negsuc n)
Ends (interrupt_configure k) r v = (n : ℕ) × (r ≡ negsuc n) × (v ≡ negsuc n)

abbrev is_something : ℤ → Bool
is_something (pos zero) = false
is_something _ = true

-- The result of every call of the list is fine.
abbrev pub Succeeded : Results → List KeyCall → Type 0
Succeeded results cs = All (λ c. Fine c (results c)) cs

-- `main` made the calls up to the first whose result is not fine, and returned.
abbrev pub Stopped : Results → List KeyCall → MainEnd × List KeyCall → Type 0
Stopped results cs r =
    (before : List KeyCall) × (c : KeyCall) × (after : List KeyCall) × (v : ℤ) × (cs
      ≡ before ++ c ∷ after)
    × Succeeded results before
    × Ends c (results c) v
    × (r ≡ (returned v, before ++ c ∷ []))

abbrev pub key_of : KeyCall → Key
key_of (is_ready k) = k
key_of (pin_configure k) = k
key_of (init_callback k) = k
key_of (add_callback k) = k
key_of (interrupt_configure k) = k

-- How many calls a key has behind it when this one is due.
abbrev pub rank : KeyCall → ℕ
rank (is_ready k) = 0
rank (pin_configure k) = 1
rank (init_callback k) = 2
rank (add_callback k) = 3
rank (interrupt_configure k) = 4

-- How far each key is.
abbrev pub Stages : Type 0
Stages = ℕ × ℕ

abbrev pub stage : Key → Stages → ℕ
stage key0 st = st.0
stage key1 st = st.1

abbrev pub advance : Key → Stages → Stages
advance key0 st = (st.0 + 1, st.1)
advance key1 st = (st.0, st.1 + 1)

-- Each call is the one that is due for its key.
abbrev pub in_stages : Stages → List KeyCall → Bool
in_stages st [] = true
in_stages st (c ∷ cs) = stage (key_of c) st == rank c && in_stages (advance (key_of c) st) cs
