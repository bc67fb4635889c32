-- ===== src/Ethernet.antt =====
-- `start_server` and `handle_client` of app70_ethernet/src/main.c.
pub mod Line
use zephyr_stm32h.Common.{
  ℕ, zero, suc, ◌+◌, ◌-◌, ◌*◌, ◌/◌, ◌%◌, ◌^◌, ◌≤◌, ◌<◌, ◌≡◌, refl, sym, ap, subst, ◌∙◌, ◌≢◌, ◌↔◌,
  ◌⊎◌, inl, inr, Bool, true, false, true≢false, not, ◌&&◌, ◌||◌, Option, none, some, List, [], ◌∷◌,
  ◌++◌, append-nil, append_assoc, arith, ltb, leb, ◌==◌, if◌then◌else◌, lt→ltb, le→ltb, le→leb,
  lt→leb, ==_iff, ==_refl, Bool-cases, if_rule, length, get_or, set, take, drop, replicate, All,
  length-append, length-take, length-drop, length-replicate, length-set, take-append-drop,
  take-append_left, take-append_right, drop-append_right, take_all, get_or-append_left,
  get_or-append_right, get_or-take, get_or-drop, u8, u16, u32, is_negative, is_err, le16, le32,
  bytes16, bytes32, ℤ, pos, negsuc,
}

abbrev pub buf_size : ℕ
buf_size = 1024

-- What goes out: a character to the console, bytes to the client.
pub data Output : Type 0 where
  console_putchar : ℕ → Output
  send : List ℕ → Output

-- The locals of `handle_client`, and the output so far, the latest first.
pub record Client : Type 0 where
  pub buf : List ℕ
  pub idx : ℤ
  pub outputs : List Output

-- The result of `recv` with the bytes that it stores, and whether `errno` is EAGAIN.
pub record Received : Type 0 where
  pub ret : ℤ
  pub bytes : List ℕ
  pub is_eagain : Bool

-- `serv` is what `socket` returns, `bound` and `listening` what `bind` and `listen` return. The Boolean
-- says whether a socket is left open.
unfoldable pub start_server : ℤ → ℤ → ℤ → ℤ × Bool
start_server serv bound listening =
    if is_negative serv
    then (negsuc 0, false)
    else if is_negative bound
    then (negsuc 0, false)
    else if is_negative listening
    then (negsuc 0, false)
    else (serv, true)

-- What the code does with `idx`, an int: it adds 1, takes 1 away, compares it, and stores at it. A
-- store in front of the buffer is not in the model, and changes nothing here.
abbrev pub inc : ℤ → ℤ
inc (pos n) = pos (n + 1)
inc (negsuc zero) = pos 0
inc (negsuc (suc n)) = negsuc n

abbrev pub dec : ℤ → ℤ
dec (pos zero) = negsuc 0
dec (pos (suc n)) = pos n
dec (negsuc n) = negsuc (suc n)

abbrev pub is_positive : ℤ → Bool
is_positive (pos n) = ltb 0 n
is_positive (negsuc n) = false

abbrev pub is_below : ℤ → ℕ → Bool
is_below (pos n) bound = ltb n bound
is_below (negsuc n) bound = true

abbrev pub store : List ℕ → ℤ → ℕ → List ℕ
store buf (pos n) v = set buf n v
store buf (negsuc n) v = buf

abbrev pub first_bytes : ℤ → List ℕ → List ℕ
first_bytes (pos n) buf = take n buf
first_bytes (negsuc n) buf = []

-- `\r` or `\n`.
unfoldable pub end_line : Client → Client
end_line s =
    let outputs = console_putchar 10 ∷ console_putchar 13 ∷ s.outputs in
    let buf = store s.buf s.idx 10 in
    if is_positive s.idx
    then record { buf = buf; idx = pos 0; outputs = send (first_bytes (inc s.idx) buf) ∷ outputs }
    else record s { outputs = outputs }

-- `\b` or 0x7f.
unfoldable pub rub_out : Client → Client
rub_out s =
    if is_positive s.idx
    then record s {
      idx = dec s.idx;
      outputs = console_putchar 8 ∷ console_putchar 32 ∷ console_putchar 8 ∷ s.outputs;
    }
    else s

-- The part of a round that handles `console_getchar`.
unfoldable pub type_char : ℤ → Client → Client
unfolding end_line rub_out
type_char (negsuc c) s = s
type_char (pos c) s =
    if c == 13 || c == 10
    then end_line s
    else if c == 8 || c == 0x7f
    then rub_out s
    else if is_below s.idx (buf_size - 1)
    then record {
      buf = store s.buf s.idx (u8 c);
      idx = inc s.idx;
      outputs = console_putchar c ∷ s.outputs;
    }
    else s

-- What `recv` returned decides; the Boolean says whether the loop goes on.
unfoldable pub receive_result : ℤ → List ℕ → Bool → Client → Client × Bool
receive_result (pos zero) bytes is_eagain s = (s, false)
receive_result (pos (suc n)) bytes is_eagain s =
    (record s { buf = set (take (suc n) bytes ++ drop (suc n) s.buf) (suc n) 0 }, true)
receive_result (negsuc n) bytes is_eagain s = (s, is_eagain)

-- The part of a round that handles `recv`.
unfoldable pub receive : Received → Client → Client × Bool
unfolding receive_result
receive r s = receive_result r.ret r.bytes r.is_eagain s

-- The loop over rounds, up to the end of the input or of the connection.
unfoldable pub handle_client : List (ℤ × Received) → Client → Client
unfolding type_char receive
handle_client [] s = s
handle_client ((c, r) ∷ rounds) s =
    let (s', goes_on) = receive r (type_char c s) in
    let rest = handle_client rounds s' in if goes_on then rest else s'

-- What `accept` gives: an error, or a socket, with what the client's buffer holds and its rounds.
pub data Visit : Type 0 where
  refused : Visit
  accepted : ℕ → List ℕ → List (ℤ × Received) → Visit

-- What `main` does with a client: its outputs, the last one first, and `close`.
pub data ServerCall : Type 0 where
  handled : List Output → ServerCall
  closed : ℕ → ServerCall

-- The loop of `main`, over the clients that come.
unfoldable pub serve : List Visit → List ServerCall
unfolding handle_client
serve [] = []
serve (refused ∷ visits) = serve visits
serve (accepted client buf rounds ∷ visits) =
    handled (handle_client rounds (record { buf = buf; idx = pos 0; outputs = [] })).outputs
    ∷ closed client
    ∷ serve visits

-- `main`, with what `start_server` has returned.
unfoldable pub ethernet_main : ℤ → List Visit → List ServerCall
unfolding serve
ethernet_main serv visits = if is_negative serv then [] else serve visits
