-- ===== src/Delivery/Date.antt =====
-- The date, from a response of the proxy to the display.
use ikt104_eksamen_oppgave.Base.{
  ℕ, ◌<◌, ◌≤◌, ◌≡◌, sym, ap, ◌∙◌, ℤ, pos, some, List, [], ◌∷◌, ◌++◌, Bytes, codes, length, All,
}
use ikt104_eksamen_oppgave.Proxy.{InfoReply, info_body}
use ikt104_eksamen_oppgave.Calendar.{long_max, DateTime}
use ikt104_eksamen_oppgave.Calendar.Correct.{IsFor}
use ikt104_eksamen_oppgave.Info.{InfoData, parse_info}
use ikt104_eksamen_oppgave.Info.Reply.{IsSimpleReply, info_of, parse_info-info_body}
use ikt104_eksamen_oppgave.Net.{Event, Network, Call, lock, unlock, requested, set_up}
use ikt104_eksamen_oppgave.Net.Response.{IsResponse}
use ikt104_eksamen_oppgave.Net.Whole.{Piece, arrivals, joined}
use ikt104_eksamen_oppgave.Net.InfoRequest.{
  InfoResult, http_buf_size, full_calls, under_mutex, network_config_round, network_config_rounds,
  network_config,
}
use ikt104_eksamen_oppgave.Net.Fetched.{body_of, info_request-IsResponse}
use ikt104_eksamen_oppgave.Delivery.Rounds.{rounds-append}
use ikt104_eksamen_oppgave.Lcd.{Io, lcd_address, RgbLcd}
use ikt104_eksamen_oppgave.Lcd.Panel.{Panel}
use ikt104_eksamen_oppgave.Screen.{datetime_lines}
use ikt104_eksamen_oppgave.Screen.Dates.{lines_of, datetime_lines-parse_info}
use ikt104_eksamen_oppgave.Screen.Draw.{Round, screen_rounds, snapshot}
use ikt104_eksamen_oppgave.Screen.Display.{Shows}
use ikt104_eksamen_oppgave.Screen.Thread.{IsDefined, screen_rounds-Shows}

-- A network on which a request gets a whole response with the reply as its body.
pub record Answers (net : Network) (reply : InfoReply) : Type 0 where
  pub n : ℕ
  pub pieces : List Piece
  pub later : List Event
  pub response : IsResponse n (joined pieces)
  pub ready : set_up net ≡ requested
  pub came : net.events ≡ arrivals pieces ++ later
  pub room : length (joined pieces) < http_buf_size
  pub body : body_of response ≡ info_body reply

-- A round of the loop on such a network stores the reply.
abbrev stored_by : InfoReply → InfoResult
stored_by reply = record {
  code = pos 0;
  calls = lock ∷ (full_calls (codes "/info") ++ unlock ∷ []);
  info = info_of reply;
}

round-Answers :
    (net : Network) (reply : InfoReply) (g : InfoData)
    → IsSimpleReply reply
    → Answers net reply
    → network_config_round net g ≡ some (stored_by reply)
unfolding network_config_round
round-Answers net reply g h a = ap under_mutex (
    info_request-IsResponse (codes "/info") net g a.n a.pieces a.later a.response a.ready a.came
      a.room
    ∙ ap
        (λ (info : InfoData).
          some (record { code = pos 0; calls = full_calls (codes "/info"); info = info }))
        (ap (λ (body : Bytes). parse_info body g) a.body ∙ parse_info-info_body reply h g))

rounds-Answers :
    (earlier : List Network) (net : Network) (g : InfoData) (before : List Call × InfoData)
    (reply : InfoReply)
    → network_config_rounds earlier g ≡ some before
    → IsSimpleReply reply
    → Answers net reply
    → (calls : List Call) × (network_config (pos 0) (earlier ++ net ∷ []) g
        ≡ some (calls, info_of reply))
unfolding network_config
rounds-Answers earlier net g before reply e h a =
    rounds-append net (stored_by reply) earlier g before e (round-Answers net reply before.1 h a)

module _ {S : Type 0} {i2c_write : Bytes → ℕ → Io S ℤ} (p : Panel i2c_write) where
  -- If the address is right, the socket connects, the request is sent, and the response is whole
  -- and has as its body a reply of the proxy whose strings are ordinary ASCII, with an epoch from 1
  -- to the greatest `long`, then the loop of `network_config`, once it has the semaphore and behind
  -- any rounds that are defined, stores what the reply says; and when the screen's thread, in its
  -- last round, takes that data for the date, the display shows the one date and time that the
  -- epoch stands for, at the address that `boot` sets, if no epoch of its earlier rounds overflows.
  pub network_config-Shows :
      (earlier : List Network) (net : Network) (g : InfoData) (before : List Call × InfoData)
      (reply : InfoReply) (lcd : RgbLcd) (rs : List Round) (r : Round)
      → network_config_rounds earlier g ≡ some before
      → IsSimpleReply reply
      → Answers net reply
      → 1 ≤ reply.unix_epoch
      → reply.unix_epoch ≤ long_max
      → lcd.lcd_addr ≡ lcd_address
      → All IsDefined rs
      → snapshot r.datetime_info ≡ some (info_of reply)
      → ((calls : List Call) × (network_config (pos 0) (earlier ++ net ∷ []) g
            ≡ some (calls, info_of reply)))
        × ((t : DateTime) × IsFor reply.unix_epoch t
            × ((run : Io S (Unit {0})) × (screen_rounds i2c_write lcd (rs ++ r ∷ []) ≡ some run)
                × ((s : S) → Shows p (run s).1 (lines_of t))))
  network_config-Shows earlier net g before reply lcd rs r e h a low fits here defined seen =
      let (t, f, q) = datetime_lines-parse_info reply r.datetime_alarm g h low fits in
      let date =
        ap (datetime_lines r.datetime_alarm) (seen ∙ ap some (sym (parse_info-info_body reply h g)))
        ∙ q in
      (
        rounds-Answers earlier net g before reply e h a,
        (t, f, screen_rounds-Shows p lcd rs r (lines_of t) here defined date),
      )
