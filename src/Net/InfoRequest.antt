-- ===== src/Net/InfoRequest.antt =====
-- exsamene/src/network_config.c: `http_request` and the loop of `network_config`.
use ikt104_eksamen_oppgave.Base.{
  ℕ, zero, suc, ◌-◌, ℤ, pos, negsuc, ◌==ℤ◌, not, Option, none, some, List, [], ◌∷◌, ◌++◌, ltb,
  if◌then◌else◌, Bytes, codes, drop, strstr,
}
use ikt104_eksamen_oppgave.Info.{InfoData, parse_info}
use ikt104_eksamen_oppgave.Net.{
  Recv, total, Next, break, again, past_end, int_overflow, c_string, header_end, recv_loop,
  no_bytes, request_text, Network, Call, lock, unlock, open_socket, close_socket, receive, send,
  Setup, bad_address, no_socket, not_connected, not_sent, requested, set_up,
}

-- `sizeof(shared_http_buf)`
abbrev pub http_buf_size : ℕ
http_buf_size = 3072

-- What a request returns, its calls, and the data behind it.
pub record InfoResult : Type 0 where
  pub code : ℤ
  pub calls : List Call
  pub info : InfoData

-- `-x` of an `int`.
abbrev pub neg_ℤ : ℤ → ℤ
neg_ℤ (pos zero) = pos 0
neg_ℤ (pos (suc n)) = negsuc n
neg_ℤ (negsuc n) = pos (suc n)

-- `if (body) … parse_info(body)`, on what `strstr` found.
unfoldable pub use_body : Option Bytes → InfoData → InfoData
use_body none g = g
use_body (some body) g = parse_info (drop 4 body) g

abbrev pub full_calls : Bytes → List Call
full_calls path = open_socket ∷ send (request_text path) ∷ receive ∷ close_socket ∷ []

-- Behind the loop, on the buffer as a string.
unfoldable pub info_finish : Bytes → Recv → Option Bytes → InfoData → Option InfoResult
unfolding use_body
info_finish path s none g = none
info_finish path s (some raw) g = some (record {
  code = if ltb 0 (total s) then pos 0 else negsuc 0;
  calls = full_calls path;
  info = use_body (strstr raw header_end) g;
})

unfoldable pub info_received : Bytes → Next → InfoData → Option InfoResult
unfolding info_finish
info_received path (break s) g =
    info_finish path s (c_string (http_buf_size - total s) s.received) g
info_received path (again s) g = none
info_received path past_end g = none
info_received path int_overflow g = none

-- A return in front of the loop.
abbrev info_failed : ℤ → List Call → InfoData → Option InfoResult
info_failed code calls g = some (record { code = code; calls = calls; info = g })

unfoldable pub info_after : Setup → Bytes → Network → InfoData → Option InfoResult
unfolding info_received
info_after bad_address path n g = info_failed (negsuc 21) [] g
info_after no_socket path n g = info_failed (neg_ℤ n.errno) [] g
info_after not_connected path n g = info_failed (neg_ℤ n.errno) (open_socket ∷ close_socket ∷ []) g
info_after not_sent path n g =
    info_failed (neg_ℤ n.errno) (open_socket ∷ send (request_text path) ∷ close_socket ∷ []) g
info_after requested path n g = info_received path (recv_loop http_buf_size n.events no_bytes) g

-- `http_request`; `none` is behaviour that the language leaves undefined.
unfoldable pub info_request : Bytes → Network → InfoData → Option InfoResult
unfolding info_after set_up
info_request path n g = info_after (set_up n) path n g

-- A request between the lock and the unlock of `http_mutex`.
abbrev pub under_mutex : Option InfoResult → Option InfoResult
under_mutex none = none
under_mutex (some r) = some (record r { calls = lock ∷ (r.calls ++ unlock ∷ []) })

-- A round of the loop of `network_config`.
unfoldable pub network_config_round : Network → InfoData → Option InfoResult
network_config_round n g = under_mutex (info_request (codes "/info") n g)

-- Some rounds of the loop: the calls, and the data behind them; the code of a request is not read.
unfoldable pub network_config_rounds : List Network → InfoData → Option (List Call × InfoData)
network_config_rounds [] g = some ([], g)
network_config_rounds (n ∷ ns) g = elim (network_config_round n g) [
  | none ↦ none
  | some r ↦ elim (network_config_rounds ns r.info) [
    | none ↦ none
    | some rest ↦ some (r.calls ++ rest.0, rest.1)
  ]
]

-- `network_config`, given what `k_sem_take` returns.
unfoldable pub network_config : ℤ → List Network → InfoData → Option (List Call × InfoData)
network_config taken ns g =
    if not (taken ==ℤ pos 0) then some ([], g) else network_config_rounds ns g
