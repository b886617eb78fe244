-- ===== src/Net/NewsRequest.antt =====
-- exsamene/src/networking_config_news.c: `http_request` and the loop of `network_config_news`.
use ikt104_eksamen_oppgave.Base.{
  ℕ, ◌-◌, ℤ, pos, negsuc, ◌+ℤ◌, ltb_ℤ, leb_ℤ, ◌==ℤ◌, Bool, true, false, not, ◌&&◌, Option, none,
  some, List, [], ◌∷◌, ◌++◌, ltb, if◌then◌else◌, Bytes, codes, drop, strstr,
}
use ikt104_eksamen_oppgave.News.{NewsData, parse_news_titles}
use ikt104_eksamen_oppgave.Net.{
  Recv, total, Next, break, again, past_end, int_overflow, int_max, c_string, header_end,
  header_size, recv_loop, no_bytes, request_text, Network, Call, lock, unlock, open_socket,
  close_socket, receive, send, Setup, bad_address, no_socket, not_connected, not_sent, requested,
  set_up,
}
use ikt104_eksamen_oppgave.Net.InfoRequest.{neg_ℤ}

abbrev pub news_buf_size : ℕ
news_buf_size = 5120

pub record NewsResult : Type 0 where
  pub code : ℤ
  pub calls : List Call
  pub news : NewsData

-- `if (body) … parse_news_titles(body)`, on what `strstr` found.
unfoldable pub use_news_body : Option Bytes → NewsData → Option NewsData
use_news_body none g = some g
use_news_body (some body) g = parse_news_titles (drop 4 body) g

-- `hdr_end ? (hdr_end + 4 - buf) : 0`
abbrev pub header_or_none : Bytes → Option Bytes → ℕ
header_or_none raw none = 0
header_or_none raw (some hdr_end) = header_size raw hdr_end

-- The code that is returned; `none` is an `int` that overflows.
unfoldable pub news_code : Bytes → Recv → Option ℤ
news_code raw s =
    if ltb_ℤ (pos 0) s.content_length
    then (let wanted = pos (header_or_none raw (strstr raw header_end)) +ℤ s.content_length in
        if ltb_ℤ (pos int_max) wanted
        then none
        else some (if leb_ℤ wanted (pos (total s)) then pos 0 else negsuc 0))
    else some (if ltb 0 (total s) then pos 0 else negsuc 0)

abbrev pub news_calls : Bytes → List Call
news_calls path =
    lock ∷ open_socket ∷ send (request_text path) ∷ unlock ∷ receive ∷ close_socket ∷ []

unfoldable pub news_result : Bytes → Option ℤ → Option NewsData → Option NewsResult
news_result path none g = none
news_result path (some code) none = none
news_result path (some code) (some g) =
    some (record { code = code; calls = news_calls path; news = g })

-- Behind the loop, on the buffer as a string.
unfoldable pub news_finish : Bytes → Recv → Option Bytes → NewsData → Option NewsResult
unfolding news_code news_result use_news_body
news_finish path s none g = none
news_finish path s (some raw) g =
    news_result path (news_code raw s) (use_news_body (strstr raw header_end) g)

unfoldable pub news_received : Bytes → Next → NewsData → Option NewsResult
unfolding news_finish
news_received path (break s) g =
    news_finish path s (c_string (news_buf_size - total s) s.received) g
news_received path (again s) g = none
news_received path past_end g = none
news_received path int_overflow g = none

-- A return in front of the loop.
abbrev news_failed : ℤ → List Call → NewsData → Option NewsResult
news_failed code calls g = some (record { code = code; calls = calls; news = g })

unfoldable pub news_after : Setup → Bytes → Network → NewsData → Option NewsResult
unfolding news_received
news_after bad_address path n g = news_failed (negsuc 21) [] g
news_after no_socket path n g = news_failed (neg_ℤ n.errno) (lock ∷ unlock ∷ []) g
news_after not_connected path n g =
    news_failed (neg_ℤ n.errno) (lock ∷ open_socket ∷ close_socket ∷ unlock ∷ []) g
news_after not_sent path n g =
    news_failed (neg_ℤ n.errno)
      (lock ∷ open_socket ∷ send (request_text path) ∷ close_socket ∷ unlock ∷ []) g
news_after requested path n g = news_received path (recv_loop news_buf_size n.events no_bytes) g

-- `http_request`; `none` is behaviour that the language leaves undefined.
unfoldable pub news_request : Bytes → Network → NewsData → Option NewsResult
unfolding news_after set_up
news_request path n g = news_after (set_up n) path n g

-- `ret == 0 && g_news.ready`: the thread sleeps for ever.
abbrev pub is_fetched : NewsResult → Bool
is_fetched r = r.code ==ℤ pos 0 && r.news.ready

-- What has become of the thread in some rounds.
pub data NewsThread : Type 0 where
  asleep : NewsThread  -- for ever
  retrying : NewsThread  -- for 15 seconds
  gave_up : NewsThread  -- without an address in time

-- The loop of `network_config_news`: the calls so far, the data, and how the thread stands; `none`
-- is behaviour that the language leaves undefined.
unfoldable pub news_rounds : List Network → NewsData → Option (List Call × NewsData × NewsThread)
news_rounds [] g = some ([], g, retrying)
news_rounds (n ∷ ns) g = elim (news_request (codes "/news") n g) [
  | none ↦ none
  | some r ↦ elim (is_fetched r) [
    | true ↦ some (r.calls, r.news, asleep)
    | false ↦ elim (news_rounds ns r.news) [
      | none ↦ none
      | some rest ↦ some (r.calls ++ rest.0, rest.1, rest.2)
    ]
  ]
]

-- `network_config_news`, given what `k_sem_take` returns.
unfoldable pub network_config_news :
    ℤ → List Network → NewsData → Option (List Call × NewsData × NewsThread)
network_config_news taken ns g =
    if not (taken ==ℤ pos 0) then some ([], g, gave_up) else news_rounds ns g
