-- ===== src/Delivery/Examples.antt =====
-- The way of a date, for a reply.
use ikt104_eksamen_oppgave.Base.{
  false, ◌≡◌, refl, arith, pos, true, some, List, [], ◌∷◌, ◌++◌, codes, decimal, strstr,
  starts_with, Bytes, drop,
}
use ikt104_eksamen_oppgave.Net.{Network, set_up}
use ikt104_eksamen_oppgave.Net.Response.{IsResponse}
use ikt104_eksamen_oppgave.Net.Whole.{Piece, arrivals, joined}
use ikt104_eksamen_oppgave.Net.{Call}
use ikt104_eksamen_oppgave.Net.InfoRequest.{network_config, network_config_rounds}
use ikt104_eksamen_oppgave.Info.{empty_info}
use ikt104_eksamen_oppgave.Info.Reply.{IsSimpleReply, info_of}
use ikt104_eksamen_oppgave.Alarm.{initial}
use ikt104_eksamen_oppgave.Calendar.{DateTime}
use ikt104_eksamen_oppgave.Calendar.Correct.{IsFor}
use ikt104_eksamen_oppgave.Lcd.{Io, RgbLcd, empty_lcd, init_fields}
use ikt104_eksamen_oppgave.Lcd.Sample.{glass_bus, glass_panel}
use ikt104_eksamen_oppgave.Screen.{get_info_snapshot}
use ikt104_eksamen_oppgave.Screen.Draw.{Round, screen_rounds}
use ikt104_eksamen_oppgave.Screen.Display.{Shows}
use ikt104_eksamen_oppgave.Screen.Dates.{lines_of}
use ikt104_eksamen_oppgave.Delivery.Date.{Answers, network_config-Shows}
use ikt104_eksamen_oppgave.Proxy.{
  quoted, bare, InfoReply, info_body, dumps, dump_members, dump_value, escaped, escape_char,
  escape_other,
}

abbrev reply : InfoReply
reply = record {
  unix_epoch = 1709210096;
  weekday = quoted (codes "Thursday");
  day = quoted (codes "29");
  month = quoted (codes "February");
  time = quoted (codes "12:34:56");
  ip = quoted (codes "10.0.0.7");
  city = quoted (codes "Grimstad");
  country = quoted (codes "Norway");
  latitude = quoted (codes "58.34");
  longitude = quoted (codes "8.59");
  weather = quoted (codes "Clouds");
  temperature_celsius = bare (codes "-1.5");
}

-- Two pieces.
abbrev header : Bytes
header = codes "TTP/1.0 200 OK\r\nContent-Length: 254\r\n\r\n"

abbrev pieces : List Piece
pieces = (b'H', header) ∷ (b'{', drop 1 (info_body reply)) ∷ []

abbrev response : IsResponse 254 (joined pieces)
unfolding strstr starts_with info_body dumps dump_members dump_value escaped escape_char
    escape_other decimal
response = record {
  no_nul = omega arith;
  line = codes "\n\r\n" ++ info_body reply;
  number_found = refl;
  rest = codes "\r\n\r\n" ++ info_body reply;
  end_found = refl;
  number_before = omega arith;
  body = refl;
}

abbrev answering : Network
answering = record {
  pton = pos 0;
  sock = pos 3;
  connected = pos 0;
  sent = pos 60;
  errno = pos 0;
  events = arrivals pieces;
}

answering-Answers : Answers answering reply
unfolding response set_up info_body dumps dump_members dump_value escaped escape_char escape_other
    decimal
answering-Answers = record {
  n = 254;
  pieces = pieces;
  later = [];
  response = response;
  ready = refl;
  came = refl;
  room = omega arith;
  body = refl;
}

reply-IsSimpleReply : IsSimpleReply reply
reply-IsSimpleReply = omega arith

abbrev lcd : RgbLcd
unfolding init_fields empty_lcd
lcd = init_fields 0x2d empty_lcd

-- A round in which only the date's screen gets the lock of the data.
abbrev round : Round
unfolding empty_info initial
round = record {
  alarm = initial;
  temp_int = pos 21;
  temp_tenths = pos 215;
  hum_int = pos 40;
  weather_info = (false, empty_info);
  epoch_info = (false, empty_info);
  latlon_info = (false, empty_info);
  city_info = (false, empty_info);
  datetime_alarm = initial;
  datetime_info = (true, info_of reply);
}

network_config-Shows_example :
    ((calls : List Call) × (network_config (pos 0) ([] ++ answering ∷ []) empty_info
        ≡ some (calls, info_of reply)))
    × ((t : DateTime) × IsFor 1709210096 t
        × ((run : Io _ (Unit {0})) × (screen_rounds glass_bus lcd ([] ++ round ∷ []) ≡ some run)
            × ((s : _) → Shows glass_panel (run s).1 (lines_of t))))
unfolding network_config_rounds lcd round get_info_snapshot
network_config-Shows_example =
    network_config-Shows glass_panel [] answering empty_info ([], empty_info) reply lcd [] round
      refl reply-IsSimpleReply answering-Answers (omega arith) (omega arith) refl tt refl
