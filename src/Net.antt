-- ===== src/Net.antt =====
-- The HTTP requests of exsamene/src/network_config.c and exsamene/src/networking_config_news.c: the
-- loop that receives the response, which the two files share word for word but for the buffer, and
-- the calls of the kernel around it. What the kernel returns is an argument. A buffer that was
-- cleared is the list of the bytes that were copied into it so far; the others are 0.
pub mod InfoRequest
pub mod NewsRequest
pub mod Bounds
pub mod Calls
pub mod Digits
pub mod Cut
pub mod Response
pub mod Whole
pub mod Fetched
mod Examples
use ikt104_eksamen_oppgave.Base.{
  ℕ, zero, suc, ◌+◌, ◌-◌, ◌*◌, ℤ, pos, negsuc, ◌+ℤ◌, ltb_ℤ, leb_ℤ, Bool, true, false, not, ◌&&◌,
  ◌||◌, Option, none, some, List, [], ◌∷◌, ◌++◌, ltb, leb, ◌==◌, if◌then◌else◌, Bytes, codes,
  length, drop, strstr, snprintf,
}

abbrev pub http_host : Bytes
http_host = codes "10.130.51.252"

-- The greatest `int`.
abbrev pub int_max : ℕ
int_max = 2147483647

-- `isspace` of the C locale.
abbrev pub is_space : ℕ → Bool
is_space c = c == b' ' || (leb 9 c && leb c 13)

abbrev pub is_digit : ℕ → Bool
is_digit c = leb b'0' c && leb c b'9'

unfoldable pub skip_spaces : Bytes → Bytes
skip_spaces [] = []
skip_spaces (c ∷ text) = if is_space c then skip_spaces text else c ∷ text

unfoldable pub read_digits : ℕ → Bytes → ℕ
read_digits n [] = n
read_digits n (c ∷ text) =
    let more = read_digits (n * 10 + (c - b'0')) text in if is_digit c then more else n

abbrev pub negated : ℕ → ℤ
negated zero = pos 0
negated (suc n) = negsuc n

-- A number behind its sign, if an `int` holds it.
unfoldable pub atoi_signed : Bytes → Option ℤ
unfolding read_digits
atoi_signed [] = some (pos 0)
atoi_signed (c ∷ text) =
    if c == b'-'
    then (if leb (read_digits 0 text) (int_max + 1)
        then some (negated (read_digits 0 text))
        else none)
    else if c == b'+'
    then (if leb (read_digits 0 text) int_max then some (pos (read_digits 0 text)) else none)
    else if leb (read_digits 0 (c ∷ text)) int_max
    then some (pos (read_digits 0 (c ∷ text)))
    else none

-- `atoi`, which the language leaves undefined where an `int` does not hold the number.
unfoldable pub atoi : Bytes → Option ℤ
unfolding skip_spaces atoi_signed
atoi text = atoi_signed (skip_spaces text)

-- The bytes in front of the first 0; `none` when there is none, so that reading on leaves the
-- buffer, of which `left` more bytes are 0.
unfoldable pub c_string : ℕ → Bytes → Option Bytes
c_string zero [] = none
c_string (suc left) [] = some []
c_string left (c ∷ text) =
    let more = c_string left text in
    if c == 0 then some [] else elim more [ none ↦ none | some rest ↦ some (c ∷ rest) ]

-- What `zsock_poll` and `recv` come to in a round: nothing in time, an error without data, the end
-- of the connection or an error (`n <= 0`), or the bytes received.
pub data Event : Type 0 where
  poll_timeout : Event
  poll_error : Event
  recv_ended : Event
  recv_bytes : Bytes → Event

-- The buffer's bytes, of which there are `total`, and `content_length`.
pub record Recv : Type 0 where
  pub received : Bytes
  pub content_length : ℤ

abbrev pub total : Recv → ℕ
total s = length s.received

-- How a round ends: with `break`, with another round, or in behaviour that the language leaves
-- undefined: an access past the end of the buffer, or an `int` that overflows.
pub data Next : Type 0 where
  break : Recv → Next
  again : Recv → Next
  past_end : Next
  int_overflow : Next

abbrev pub header_end : Bytes
header_end = b'\r' ∷ b'\n' ∷ b'\r' ∷ b'\n' ∷ []

abbrev pub length_key : Bytes
length_key = codes "Content-Length: "

-- `(hdr_end + 4) - buf`, from what stands from the header's end on.
abbrev pub header_size : Bytes → Bytes → ℕ
header_size text rest = length text - length rest + 4

-- `if (total >= header_size + content_length) break;`
unfoldable pub test_total : ℕ → Recv → Next
test_total header s =
    if ltb_ℤ (pos int_max) (pos header +ℤ s.content_length)
    then int_overflow
    else if leb_ℤ (pos header +ℤ s.content_length) (pos (total s))
    then break s
    else again s

-- `content_length = atoi(cl + 16)` and the test behind it.
unfoldable pub store_length : ℕ → Option ℤ → Recv → Next
unfolding test_total
store_length header none s = int_overflow
store_length header (some z) s = test_total header (record s { content_length = z })

-- The two branches behind `total += n`, on the buffer as a string and what the calls of `strstr`
-- found in it.
unfoldable pub look_for_length : Bytes → Option Bytes → Option Bytes → Recv → Next
unfolding store_length atoi
look_for_length text (some cl) (some hdr_end) s =
    store_length (header_size text hdr_end) (atoi (drop 16 cl)) s
look_for_length text (some cl) none s = again s
look_for_length text none found s = again s

unfoldable pub look_for_end : Bytes → Option Bytes → Recv → Next
unfolding test_total
look_for_end text none s = again s
look_for_end text (some hdr_end) s = test_total (header_size text hdr_end) s

unfoldable pub after_copy : Option Bytes → Recv → Next
unfolding look_for_length look_for_end
after_copy none s = past_end
after_copy (some text) s =
    if ltb_ℤ s.content_length (pos 0)
    then look_for_length text (strstr text length_key) (strstr text header_end) s
    else look_for_end text (strstr text header_end) s

-- `memcpy(buf + total, chunk, n); total += n;` and the rest of the round.
unfoldable pub copy_chunk : ℕ → Bytes → Recv → Next
unfolding after_copy c_string
copy_chunk size chunk s =
    if ltb size (total s + length chunk)
    then past_end
    else after_copy (c_string (size - (total s + length chunk)) (s.received ++ chunk))
        (record s { received = s.received ++ chunk })

unfoldable pub recv_round : ℕ → Event → Recv → Next
unfolding copy_chunk
recv_round size poll_timeout s = break s
recv_round size poll_error s = break s
recv_round size recv_ended s = break s
recv_round size (recv_bytes []) s = break s
recv_round size (recv_bytes (c ∷ chunk)) s = copy_chunk size (c ∷ chunk) s

-- The loop. Behind the events of the list nothing comes, and `zsock_poll` runs out of time.
unfoldable pub recv_loop : ℕ → List Event → Recv → Next
recv_loop size [] s = break s
recv_loop size (e ∷ es) s = elim (ltb (total s) (size - 1)) [
  | false ↦ break s
  | true ↦ elim (recv_round size e s) [
    | again s' ↦ recv_loop size es s'
    | break s' ↦ break s'
    | past_end ↦ past_end
    | int_overflow ↦ int_overflow
  ]
]

-- The state in front of the loop.
abbrev pub no_bytes : Recv
no_bytes = record { received = []; content_length = negsuc 0 }

-- `snprintk(request, sizeof(request), …)`.
unfoldable pub request_text : Bytes → Bytes
request_text path = snprintf 256 (
    codes "GET "
    ++ (path
        ++ (codes " HTTP/1.0\r\nHost: "
            ++ (http_host ++ codes "\r\nAccept: application/json\r\nConnection: close\r\n\r\n"))))

-- What the kernel's calls return in front of the loop, and `errno` where it is read.
pub record Network : Type 0 where
  pub pton : ℤ
  pub sock : ℤ
  pub connected : ℤ
  pub sent : ℤ
  pub errno : ℤ
  pub events : List Event

-- The calls of a request that bind something or wait, in their order.
pub data Call : Type 0 where
  lock unlock open_socket close_socket receive : Call
  send : Bytes → Call

-- Which of the returns in front of the loop is taken, if any.
pub data Setup : Type 0 where
  bad_address no_socket not_connected not_sent requested : Setup

unfoldable pub set_up : Network → Setup
set_up n =
    if ltb_ℤ n.pton (pos 0)
    then bad_address
    else if ltb_ℤ n.sock (pos 0)
    then no_socket
    else if ltb_ℤ n.connected (pos 0)
    then not_connected
    else if ltb_ℤ n.sent (pos 0)
    then not_sent
    else requested
