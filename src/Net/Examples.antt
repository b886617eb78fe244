-- ===== src/Net/Examples.antt =====
-- Runs of the model of the requests, and its theorems at concrete responses.
use ikt104_eksamen_oppgave.Base.{
  ◌≡◌, refl, arith, pos, negsuc, true, false, some, List, [], ◌∷◌, ◌++◌, Bytes, codes, decimal,
  replicate, inr, strstr, starts_with, OnSome,
}
use ikt104_eksamen_oppgave.Info.{skip_blanks, copy_until, InfoData, empty_info, parse_info}
use ikt104_eksamen_oppgave.News.{
  NewsData, empty_news, parse_news_titles, read_titles, title_round, title_or_null, read_title,
  skip_quote, store_title, finish_titles,
}
use ikt104_eksamen_oppgave.Net.{
  Event, recv_bytes, recv_ended, break, past_end, recv_loop, recv_round, copy_chunk, after_copy,
  look_for_length, look_for_end, store_length, test_total, atoi, atoi_signed, skip_spaces,
  read_digits, c_string, no_bytes, set_up, Network, Call,
}
use ikt104_eksamen_oppgave.Net.InfoRequest.{
  http_buf_size, info_request, full_calls, network_config_rounds,
}
use ikt104_eksamen_oppgave.Net.NewsRequest.{news_rounds, NewsThread, news_request, news_calls}
use ikt104_eksamen_oppgave.Net.Bounds.{Safe, all_bytes, recv_loop-Safe}
use ikt104_eksamen_oppgave.Net.Response.{IsResponse}
use ikt104_eksamen_oppgave.Net.Whole.{Piece, arrivals, joined, recv_loop-IsResponse}
use ikt104_eksamen_oppgave.Net.Fetched.{body_of, info_request-IsResponse, news_request-IsResponse}
use ikt104_eksamen_oppgave.Net.Calls.{
  follow, nothing, network_config_rounds-calls, news_rounds-calls,
}

abbrev response : Bytes
response = codes "HTTP/1.0 200 OK\r\nContent-Length: 2\r\n\r\n{}"

-- The response in two pieces, the first of which ends inside the number's line.
abbrev pieces : List Event
pieces =
    recv_bytes (codes "HTTP/1.0 200 OK\r\nContent-Length: 2")
    ∷ recv_bytes (codes "\r\n\r\n{}")
    ∷ recv_bytes (codes "more")
    ∷ []

-- The loop stops at the end of the body.
whole_response :
    recv_loop http_buf_size pieces no_bytes
    ≡ break (record { received = response; content_length = pos 2 })
unfolding recv_loop recv_round copy_chunk after_copy look_for_length look_for_end store_length
    test_total atoi atoi_signed skip_spaces read_digits c_string strstr starts_with
whole_response = refl

-- Thirteen full pieces without the end of a header are 3315 bytes: twelve of them leave 12 bytes of
-- the buffer, so the loop goes on, and the copy of the thirteenth runs past the buffer's end.
overrun :
    recv_loop http_buf_size (replicate 13 (recv_bytes (replicate 255 b'a'))) no_bytes ≡ past_end
unfolding recv_loop recv_round copy_chunk after_copy look_for_length look_for_end store_length
    test_total atoi atoi_signed skip_spaces read_digits c_string strstr starts_with
overrun = refl

-- A buffer of 40 bytes that the first two pieces fill but for its last byte.
recv_loop-Safe_example :
    Safe (all_bytes (recv_bytes (replicate 30 b'a') ∷ recv_bytes (replicate 9 b'b') ∷ [])) (
      recv_loop 40
        ((recv_bytes (replicate 30 b'a') ∷ recv_bytes (replicate 9 b'b') ∷ [])
          ++ (recv_bytes (replicate 255 b'c') ∷ recv_ended ∷ []))
        no_bytes)
recv_loop-Safe_example =
    recv_loop-Safe 40 (recv_bytes (replicate 30 b'a') ∷ recv_bytes (replicate 9 b'b') ∷ [])
      (recv_bytes (replicate 255 b'c') ∷ recv_ended ∷ []) no_bytes (omega arith) (inr refl)

abbrev network : Network
network = record {
  pton = pos 0;
  sock = pos 3;
  connected = pos 0;
  sent = pos 120;
  errno = pos 0;
  events = pieces;
}

abbrev refused : Network
refused = record network { connected = negsuc 0; errno = pos 111 }

network_config_rounds-calls_example :
    OnSome
      (λ (r : List Call × InfoData). follow true r.0 nothing ≡ some nothing)
      (network_config_rounds (refused ∷ network ∷ []) empty_info)
network_config_rounds-calls_example =
    network_config_rounds-calls (refused ∷ network ∷ []) empty_info

news_rounds-calls_example :
    OnSome
      (λ (r : List Call × NewsData × NewsThread). follow false r.0 nothing ≡ some nothing)
      (news_rounds (refused ∷ network ∷ []) empty_news)
news_rounds-calls_example = news_rounds-calls (refused ∷ network ∷ []) empty_news

-- The same response as pieces with a first byte.
abbrev cut_response : List Piece
cut_response =
    (b'H', codes "TTP/1.0 200 OK\r\nContent-Len")
    ∷ (b'g', codes "th: 2\r")
    ∷ (b'\n', codes "\r\n{")
    ∷ (b'}', [])
    ∷ []

response-IsResponse : IsResponse 2 (joined cut_response)
unfolding strstr starts_with decimal
response-IsResponse = record {
  no_nul = omega arith;
  line = codes "\n\r\n{}";
  number_found = refl;
  rest = codes "\r\n\r\n{}";
  end_found = refl;
  number_before = omega arith;
  body = refl;
}

recv_loop-IsResponse_example :
    recv_loop http_buf_size (arrivals cut_response ++ recv_ended ∷ []) no_bytes
    ≡ break (record { received = joined cut_response; content_length = pos 2 })
recv_loop-IsResponse_example =
    recv_loop-IsResponse http_buf_size 2 cut_response (recv_ended ∷ []) response-IsResponse
      (omega arith) (omega arith)

abbrev arriving : Network
arriving = record network { events = arrivals cut_response }

info_request-IsResponse_example :
    info_request (codes "/info") arriving empty_info
    ≡ some (record {
      code = pos 0;
      calls = full_calls (codes "/info");
      info = parse_info (body_of response-IsResponse) empty_info;
    })
unfolding set_up
info_request-IsResponse_example =
    info_request-IsResponse (codes "/info") arriving empty_info 2 cut_response []
      response-IsResponse refl refl (omega arith)

-- A response with one title, in two pieces.
abbrev titles_response : List Piece
titles_response =
    (b'H', codes "TTP/1.0 200 OK\r\nContent-Length: 19\r\n\r\n[{\"tit")
    ∷ (b'l', codes "e\": \"Rain\"}]")
    ∷ []

titles_response-IsResponse : IsResponse 19 (joined titles_response)
unfolding strstr starts_with decimal
titles_response-IsResponse = record {
  no_nul = omega arith;
  line = codes "\n\r\n[{\"title\": \"Rain\"}]";
  number_found = refl;
  rest = codes "\r\n\r\n[{\"title\": \"Rain\"}]";
  end_found = refl;
  number_before = omega arith;
  body = refl;
}

abbrev one_title : NewsData
one_title = record { titles = codes "Rain" ∷ replicate 9 []; count = 1; ready = true }

news_request-IsResponse_example :
    news_request (codes "/news") (record network { events = arrivals titles_response }) empty_news
    ≡ some (record { code = pos 0; calls = news_calls (codes "/news"); news = one_title })
unfolding set_up titles_response-IsResponse parse_news_titles read_titles title_round title_or_null
    read_title skip_blanks skip_quote copy_until store_title finish_titles starts_with strstr
    empty_news
news_request-IsResponse_example =
    news_request-IsResponse (codes "/news") (record network { events = arrivals titles_response })
      empty_news one_title 19 titles_response [] titles_response-IsResponse refl refl (omega arith)
      refl
