-- ===== src/Net/Bounds.antt =====
-- The receiving loop and the end of its buffer.
use ikt104_eksamen_oppgave.Base.{
  ℕ, zero, suc, ◌+◌, ◌-◌, ◌<◌, ◌≤◌, ℤ, pos, ◌+ℤ◌, ltb_ℤ, leb_ℤ, ◌≡◌, refl, sym, ap, arith, false,
  Bool-cases, if_of_both, inl, inr, ◌⊎◌, ◌∙◌, Option, none, some, List, [], ◌∷◌, ◌++◌,
  if◌then◌else◌, ltb, ◌==◌, Bytes, length, length-append, strstr, drop,
}
use mathlib.Core.Path.{subst}
use mathlib.Core.List.{append_assoc, append-nil}
use ikt104_eksamen_oppgave.Net.{
  Event, poll_timeout, poll_error, recv_ended, recv_bytes, Recv, total, Next, break, again,
  past_end, int_overflow, c_string, recv_loop, recv_round, copy_chunk, after_copy, look_for_length,
  look_for_end, store_length, test_total, int_max, header_size, atoi, header_end, length_key,
}

-- The bytes that the events bring.
abbrev pub event_bytes : Event → Bytes
event_bytes (recv_bytes chunk) = chunk
event_bytes _ = []

abbrev pub all_bytes : List Event → Bytes
all_bytes [] = []
all_bytes (e ∷ es) = event_bytes e ++ all_bytes es

-- A list and what may follow it.
abbrev pub IsPrefix : Bytes → Bytes → Type 0
IsPrefix xs ys = (rest : Bytes) × (xs ++ rest ≡ ys)

-- An outcome of a round that stays in the buffer: what is received is `text`.
abbrev Holding : Bytes → Next → Type 0
Holding text (break s) = s.received ≡ text
Holding text (again s) = s.received ≡ text
Holding text past_end = ⊥
Holding text int_overflow = Unit

test_total-Holding : (header : ℕ) (s : Recv) → Holding s.received (test_total header s)
unfolding test_total
test_total-Holding header s =
    if_of_both (Holding s.received) (ltb_ℤ (pos int_max) (pos header +ℤ s.content_length))
      int_overflow
      (if leb_ℤ (pos header +ℤ s.content_length) (pos (total s)) then break s else again s) tt
      (if_of_both (Holding s.received) (leb_ℤ (pos header +ℤ s.content_length) (pos (total s)))
        (break s) (again s) refl refl)

store_length-Holding :
    (header : ℕ) (o : Option ℤ) (s : Recv) → Holding s.received (store_length header o s)
unfolding store_length
store_length-Holding header none s = tt
store_length-Holding header (some z) s = test_total-Holding header (record s { content_length = z })

look_for_length-Holding :
    (text : Bytes) (cl found : Option Bytes) (s : Recv)
    → Holding s.received (look_for_length text cl found s)
unfolding look_for_length
look_for_length-Holding text (some cl) (some hdr_end) s =
    store_length-Holding (header_size text hdr_end) (atoi (drop 16 cl)) s
look_for_length-Holding text (some cl) none s = refl
look_for_length-Holding text none found s = refl

look_for_end-Holding :
    (text : Bytes) (found : Option Bytes) (s : Recv)
    → Holding s.received (look_for_end text found s)
unfolding look_for_end
look_for_end-Holding text none s = refl
look_for_end-Holding text (some hdr_end) s = test_total-Holding (header_size text hdr_end) s

after_copy-Holding :
    (o : Option Bytes) (t : Bytes) (s : Recv) → o ≡ some t → Holding s.received (after_copy o s)
unfolding after_copy
after_copy-Holding none t s h = ground arith
after_copy-Holding (some text) t s h =
    if_of_both (Holding s.received) (ltb_ℤ s.content_length (pos 0))
      (look_for_length text (strstr text length_key) (strstr text header_end) s)
      (look_for_end text (strstr text header_end) s)
      (look_for_length-Holding text (strstr text length_key) (strstr text header_end) s)
      (look_for_end-Holding text (strstr text header_end) s)

-- A buffer with a 0 behind its bytes holds a string.
c_string-some : (left : ℕ) (text : Bytes) → 1 ≤ left → (t : Bytes) × (c_string left text ≡ some t)
unfolding c_string
c_string-some zero text h = absurd (omega arith)
c_string-some (suc left) [] h = ([], refl)
c_string-some (suc left) (c ∷ text) h =
    let (t, e) = c_string-some (suc left) text h in
    elim (Bool-cases (c == 0)) [ inl z ↦ ([], rw z refl) | inr z ↦ (c ∷ t, rw (z, e) refl) ]

-- A chunk that leaves room for a 0 is copied.
copy_chunk-Holding :
    (size : ℕ) (chunk : Bytes) (s : Recv)
    → total s + length chunk < size
    → Holding (s.received ++ chunk) (copy_chunk size chunk s)
unfolding copy_chunk
copy_chunk-Holding size chunk s h =
    let (t, e) =
      c_string-some (size - (total s + length chunk)) (s.received ++ chunk) (omega arith) in
    rw fits (after_copy-Holding _ t (record s { received = s.received ++ chunk }) e)
  where
    fits : ltb size (total s + length chunk) ≡ false
    fits = ground arith

-- How a loop that stays in the buffer ends: what it received is a beginning of `text`.
unfoldable pub Safe : Bytes → Next → Type 0
Safe text (break s) = IsPrefix s.received text
Safe text (again s) = ⊥
Safe text past_end = ⊥
Safe text int_overflow = Unit

-- The round's outcome, then the rest of the loop.
abbrev pub rest_of_loop : ℕ → List Event → Next → Next
rest_of_loop size es (again s) = recv_loop size es s
rest_of_loop size es (break s) = break s
rest_of_loop size es past_end = past_end
rest_of_loop size es int_overflow = int_overflow

pub recv_loop_step :
    (size : ℕ) (e : Event) (es : List Event) (s : Recv)
    → recv_loop size (e ∷ es) s
      ≡ (if ltb (total s) (size - 1) then rest_of_loop size es (recv_round size e s) else break s)
unfolding recv_loop
recv_loop_step size e es s = elim (Bool-cases (ltb (total s) (size - 1))) [
  | inl room ↦ rw (room, recv_loop) refl
  | inr full ↦ rw (full, recv_loop) refl
]

recv_round-Holding :
    (size : ℕ) (e : Event) (s : Recv)
    → total s + length (event_bytes e) < size
    → Holding (s.received ++ event_bytes e) (recv_round size e s)
unfolding recv_round
recv_round-Holding size poll_timeout s h = sym (append-nil s.received)
recv_round-Holding size poll_error s h = sym (append-nil s.received)
recv_round-Holding size recv_ended s h = sym (append-nil s.received)
recv_round-Holding size (recv_bytes []) s h = sym (append-nil s.received)
recv_round-Holding size (recv_bytes (c ∷ chunk)) s h = copy_chunk-Holding size (c ∷ chunk) s h

-- Nothing comes behind `text`, or `text` fills the buffer up to its last byte.
abbrev pub IsLast : ℕ → List Event → Bytes → Type 0
IsLast size later text = (later ≡ []) ⊎ (length text + 1 ≡ size)

-- The loop's own test stops it in front of what comes later.
recv_loop_stops :
    (size : ℕ) (later : List Event) (s : Recv)
    → IsLast size later s.received
    → recv_loop size later s ≡ break s
recv_loop_stops size [] s h = unfold recv_loop in refl
recv_loop_stops size (e ∷ later) s (inl none_later) = cc
recv_loop_stops size (e ∷ later) s (inr filled) = recv_loop_step size e later s ∙ rw full refl
  where
    full : ltb (total s) (size - 1) ≡ false
    full = ground arith

SafeFrom : ℕ → List Event → List Event → Type 0
SafeFrom size es later =
    (s : Recv)
    → total s + length (all_bytes es) < size
    → IsLast size later (s.received ++ all_bytes es)
    → Safe (s.received ++ all_bytes es) (recv_loop size (es ++ later) s)

rest_of_loop-Safe :
    (size : ℕ) (es later : List Event) (text : Bytes) (o : Next)
    → SafeFrom size es later
    → Holding text o
    → length text + length (all_bytes es) < size
    → IsLast size later (text ++ all_bytes es)
    → Safe (text ++ all_bytes es) (rest_of_loop size (es ++ later) o)
unfolding Safe SafeFrom
rest_of_loop-Safe size es later text (break s) ih h fits last =
    (all_bytes es, ap (λ t. t ++ all_bytes es) h)
rest_of_loop-Safe size es later text (again s) ih h fits last =
    let same : total s ≡ length text = ap length h in
    subst (λ t. Safe (t ++ all_bytes es) (recv_loop size (es ++ later) s)) h
      (ih s (omega arith) (subst (λ t. IsLast size later (t ++ all_bytes es)) (sym h) last))
rest_of_loop-Safe size es later text past_end ih h fits last = elim h [ ]
rest_of_loop-Safe size es later text int_overflow ih h fits last = tt

-- If the first events bring fewer bytes than the buffer has, and either nothing comes behind them
-- or they fill the buffer but for one byte, the loop never reaches past the buffer's end, however
-- much comes later, wherever it stops, and whatever the pieces are; what it has received then is a
-- beginning of what the first events brought. A run in which an `int` overflows is not spoken of.
pub recv_loop-Safe :
    (size : ℕ) (es later : List Event) (s : Recv)
    → total s + length (all_bytes es) < size
    → IsLast size later (s.received ++ all_bytes es)
    → Safe (s.received ++ all_bytes es) (recv_loop size (es ++ later) s)
unfolding Safe SafeFrom
recv_loop-Safe size [] later s h last =
    let nothing_more = append-nil s.received in
    rw (recv_loop_stops size later s (subst (IsLast size later) nothing_more last)) ([], refl)
recv_loop-Safe size (e ∷ es) later s h last = rw (recv_loop_step size e (es ++ later) s) (
    if_of_both (Safe (s.received ++ (event_bytes e ++ all_bytes es))) (ltb (total s) (size - 1))
      (rest_of_loop size (es ++ later) (recv_round size e s)) (break s)
      (subst (λ t. Safe t (rest_of_loop size (es ++ later) (recv_round size e s))) regrouped
        (rest_of_loop-Safe size es later (s.received ++ event_bytes e) (recv_round size e s)
          (recv_loop-Safe size es later)
          (recv_round-Holding size e s
            (omega (arith, length-append (event_bytes e) (all_bytes es))))
          (omega (
            arith,
            length-append (event_bytes e) (all_bytes es),
            length-append s.received (event_bytes e),
          ))
          (subst (IsLast size later) (sym regrouped) last)))
      (event_bytes e ++ all_bytes es, refl))
  where
    regrouped :
        (s.received ++ event_bytes e) ++ all_bytes es
        ≡ s.received ++ (event_bytes e ++ all_bytes es)
    regrouped = append_assoc s.received (event_bytes e) (all_bytes es)
