-- ===== src/Net/Fetched.antt =====
-- The two requests on a response that is received whole.
use ikt104_eksamen_oppgave.Base.{
  Option, strstr, ◌+◌, ℕ, ◌-◌, ◌<◌, ◌≤◌, pos, ◌≡◌, refl, ap, ◌∙◌, arith, true, some, List, ◌++◌,
  ltb, Bytes, length, drop,
}
use ikt104_eksamen_oppgave.Info.{InfoData, parse_info}
use ikt104_eksamen_oppgave.Net.{
  header_size, int_max, Event, break, c_string, recv_loop, header_end, no_bytes, Network, requested,
  set_up,
}
use ikt104_eksamen_oppgave.Net.Cut.{c_string-same, strstr-length}
use ikt104_eksamen_oppgave.Net.Response.{IsResponse}
use ikt104_eksamen_oppgave.Net.Whole.{Piece, arrivals, joined, recv_loop-IsResponse}
use ikt104_eksamen_oppgave.News.{NewsData, parse_news_titles}
use ikt104_eksamen_oppgave.Net.NewsRequest.{
  news_buf_size, news_calls, header_or_none, news_code, use_news_body, news_result, news_finish,
  news_received, news_after, news_request,
}
use ikt104_eksamen_oppgave.Net.InfoRequest.{
  http_buf_size, full_calls, use_body, info_finish, info_received, info_after, info_request,
}

some_bytes : (n : ℕ) → 1 ≤ n → ltb 0 n ≡ true
some_bytes n h = ground arith

-- The bytes of the body.
abbrev pub body_of : {n : ℕ} {text : Bytes} → IsResponse n text → Bytes
body_of r = drop 4 r.rest

module _ (n : ℕ) (text : Bytes) (r : IsResponse n text) (room : length text < http_buf_size) where
  string : c_string (http_buf_size - length text) text ≡ some text
  string = c_string-same (http_buf_size - length text) text (omega arith) r.no_nul

  not_empty : ltb 0 (length text) ≡ true
  not_empty =
      some_bytes (length text)
        (omega (arith, r.body, strstr-length text header_end r.rest r.end_found))

  info_received-break :
      (path : Bytes) (g : InfoData)
      → info_received path (break (record { received = text; content_length = pos n })) g
        ≡ some (record { code = pos 0; calls = full_calls path; info = parse_info (body_of r) g })
  unfolding info_received info_finish use_body
  info_received-break path g = rw (string, not_empty, r.end_found) refl

-- If the address is right, the socket connects and the request is sent, and the server answers with
-- a response whose header gives the length of its body and which is shorter than the buffer, then,
-- however the response is cut into pieces, `http_request` of network_config.c hands exactly the
-- body to `parse_info` and returns 0.
pub info_request-IsResponse :
    (path : Bytes) (net : Network) (g : InfoData) (n : ℕ) (pieces : List Piece) (es : List Event)
    → (r : IsResponse n (joined pieces)) → set_up net ≡ requested
    → net.events ≡ arrivals pieces ++ es
    → length (joined pieces) < http_buf_size
    → info_request path net g
      ≡ some (record { code = pos 0; calls = full_calls path; info = parse_info (body_of r) g })
unfolding info_request info_after
info_request-IsResponse path net g n pieces es r ready came room =
    ap (λ o. info_after o path net g) ready
    ∙ ap (λ e. info_received path (recv_loop http_buf_size e no_bytes) g) came
    ∙ ap (λ o. info_received path o g)
        (recv_loop-IsResponse http_buf_size n pieces es r room (omega arith))
    ∙ info_received-break n (joined pieces) r room path g

-- The sizes agree, so that the news count as complete.
news_code-whole :
    (n h : ℕ) (found : Option Bytes) (text : Bytes)
    → length text ≤ int_max
    → 1 ≤ length text
    → header_or_none text found ≡ h
    → h + n ≡ length text
    → strstr text header_end ≡ found
    → news_code text (record { received = text; content_length = pos n }) ≡ some (pos 0)
unfolding news_code
news_code-whole n h found text small some_text e₁ e₂ e₃ = rw (e₃, e₁) (ground arith)

module _ (n : ℕ) (text : Bytes) (r : IsResponse n text) (room : length text < news_buf_size) where
  news_string : c_string (news_buf_size - length text) text ≡ some text
  news_string = c_string-same (news_buf_size - length text) text (omega arith) r.no_nul

  found_end : (length header_end ≤ length r.rest) × (length r.rest ≤ length text)
  found_end = strstr-length text header_end r.rest r.end_found

  news_is_whole : news_code text (record { received = text; content_length = pos n }) ≡ some (pos 0)
  news_is_whole =
      news_code-whole n (header_size text r.rest) (some r.rest) text (omega arith)
        (omega (arith, r.body, found_end)) refl (omega (arith, r.body, found_end)) r.end_found

  news_received-break :
      (path : Bytes) (g g' : NewsData)
      → parse_news_titles (body_of r) g ≡ some g'
      → news_received path (break (record { received = text; content_length = pos n })) g
        ≡ some (record { code = pos 0; calls = news_calls path; news = g' })
  unfolding news_received news_finish use_news_body news_result
  news_received-break path g g' e = rw (news_string, news_is_whole, r.end_found, e) refl

-- If the address is right, the socket connects and the request is sent, and the server answers with
-- a response whose header gives the length of its body and which is shorter than the buffer, then,
-- however the response is cut into pieces, `http_request` of networking_config_news.c hands exactly
-- the body to `parse_news_titles`, leaves the data that this returns, and returns 0.
pub news_request-IsResponse :
    (path : Bytes) (net : Network) (g g' : NewsData) (n : ℕ) (pieces : List Piece) (es : List Event)
    → (r : IsResponse n (joined pieces)) → set_up net ≡ requested
    → net.events ≡ arrivals pieces ++ es
    → length (joined pieces) < news_buf_size
    → parse_news_titles (body_of r) g ≡ some g'
    → news_request path net g ≡ some (record { code = pos 0; calls = news_calls path; news = g' })
unfolding news_request news_after
news_request-IsResponse path net g g' n pieces es r ready came room e =
    ap (λ o. news_after o path net g) ready
    ∙ ap (λ e. news_received path (recv_loop news_buf_size e no_bytes) g) came
    ∙ ap (λ o. news_received path o g)
        (recv_loop-IsResponse news_buf_size n pieces es r room (omega arith))
    ∙ news_received-break n (joined pieces) r room path g g' e
