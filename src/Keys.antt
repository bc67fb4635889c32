-- ===== src/Keys.antt =====
-- Starting the key interrupts, and their callbacks, of app02_key_interrupt/src/main.c.
pub mod Setup
use zephyr_stm32h.Common.{
  ℕ, zero, suc, ◌+◌, ◌-◌, ◌*◌, ◌/◌, ◌%◌, ◌^◌, ◌≤◌, ◌<◌, ◌≡◌, refl, sym, ap, subst, ◌∙◌, ◌≢◌, ◌↔◌,
  ◌⊎◌, inl, inr, Bool, true, false, true≢false, not, ◌&&◌, ◌||◌, Option, none, some, List, [], ◌∷◌,
  ◌++◌, append-nil, append_assoc, arith, ltb, leb, ◌==◌, if◌then◌else◌, lt→ltb, le→ltb, le→leb,
  lt→leb, ==_iff, ==_refl, Bool-cases, if_rule, length, get_or, set, take, drop, replicate, All,
  length-append, length-take, length-drop, length-replicate, length-set, take-append-drop,
  take-append_left, take-append_right, drop-append_right, take_all, get_or-append_left,
  get_or-append_right, get_or-take, get_or-drop, u8, u16, u32, is_negative, is_err, le16, le32,
  bytes16, bytes32, ℤ, pos, negsuc,
}

-- The two keys.
pub data Key : Type 0 where
  key0 key1 : Key

-- The calls of `main` on a key: `gpio_is_ready_dt`, `gpio_pin_configure_dt`, `gpio_init_callback`,
-- `gpio_add_callback` and `gpio_pin_interrupt_configure_dt`.
pub data KeyCall : Type 0 where
  is_ready pin_configure init_callback add_callback interrupt_configure : Key → KeyCall

-- What the calls return; `is_ready` returns 0 for false.
abbrev pub Results : Type 0
Results = KeyCall → ℤ

abbrev pub failed : KeyCall → ℤ → Bool
failed (is_ready k) (pos zero) = true
failed (is_ready k) _ = false
failed (init_callback k) _ = false
failed _ r = is_negative r

-- What `main` returns when a call has failed.
abbrev pub return_value : KeyCall → ℤ → ℤ
return_value (is_ready k) r = negsuc 0
return_value _ r = r

-- The calls of `main`, in its order.
abbrev pub main_calls : List KeyCall
main_calls =
    is_ready key0
    ∷ is_ready key1
    ∷ pin_configure key0
    ∷ pin_configure key1
    ∷ init_callback key0
    ∷ add_callback key0
    ∷ init_callback key1
    ∷ add_callback key1
    ∷ interrupt_configure key0
    ∷ interrupt_configure key1
    ∷ []

-- Where `main` ends: with a value it returns, or in its loop.
pub data MainEnd : Type 0 where
  returned : ℤ → MainEnd
  looping : MainEnd

-- Calls one after the other, to the first that fails, with those that were made.
unfoldable pub call_all : Results → List KeyCall → MainEnd × List KeyCall
call_all results [] = (looping, [])
call_all results (c ∷ cs) =
    let (end, made) = call_all results cs in
    if failed c (results c)
    then (returned (return_value c (results c)), c ∷ [])
    else (end, c ∷ made)

abbrev pub main : Results → MainEnd × List KeyCall
main results = call_all results main_calls

-- What a callback prints.
pub data KeyMessage : Type 0 where
  pressed released : Key → KeyMessage

-- `key0_isr` and `key1_isr`, with the result of `gpio_pin_get_dt`.
abbrev pub key_isr : (Key → ℤ) → Key → KeyMessage
key_isr gpio_pin_get_dt k = elim (gpio_pin_get_dt k) [
  | pos n ↦ if n == 1 then pressed k else released k
  | negsuc n ↦ released k
]
