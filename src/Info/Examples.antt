-- ===== src/Info/Examples.antt =====
-- A reply of `/info` and what the device makes of it, and the theorems at it.
use ikt104_eksamen_oppgave.Base.{◌≡◌, refl, arith, true, codes, decimal, strstr}
use ikt104_eksamen_oppgave.Proxy.{
  quoted, bare, InfoReply, info_body, error_body, dumps, dump_members, dump_value, escaped,
  escape_char, escape_other,
}
use ikt104_eksamen_oppgave.Info.{
  empty_info, parse_info, parse_fields, parse_found, set_field, read_value, read_value_at,
  skip_blanks, copy_until,
}
use ikt104_eksamen_oppgave.Info.Bounds.{Fits, parse_info-Fits, empty_info-Fits}
use ikt104_eksamen_oppgave.Info.Reply.{
  IsSimpleReply, info_of, parse_info-info_body, parse_info-error_body,
}

abbrev reply : InfoReply
reply = record {
  unix_epoch = 1709210096;
  weekday = quoted (codes "Thursday");
  day = quoted (codes "29");
  month = quoted (codes "February");
  time = quoted (codes "12:34:56");
  ip = quoted (codes "10.0.0.7");
  city = quoted (codes "Grimstad");
  country = quoted (codes "Norway");
  latitude = quoted (codes "58.34");
  longitude = quoted (codes "8.59");
  weather = quoted (codes "Clouds");
  temperature_celsius = bare (codes "-1.5");
}

-- The code runs on the reply.
city_and_temperature :
    ((parse_info (info_body reply) empty_info).city ≡ codes "Grimstad")
    × ((parse_info (info_body reply) empty_info).temperature ≡ codes "-1.5")
unfolding parse_info parse_fields parse_found set_field read_value read_value_at skip_blanks
    copy_until strstr info_body dumps dump_members dump_value escaped escape_char escape_other
    decimal empty_info
city_and_temperature = (refl, refl)

reply-IsSimpleReply : IsSimpleReply reply
reply-IsSimpleReply = omega arith

parse_info-Fits_example : Fits (parse_info (info_body reply) empty_info)
parse_info-Fits_example = parse_info-Fits (info_body reply) empty_info empty_info-Fits

parse_info-info_body_example : parse_info (info_body reply) empty_info ≡ info_of reply
parse_info-info_body_example = parse_info-info_body reply reply-IsSimpleReply empty_info

parse_info-error_body_example :
    parse_info (error_body (codes "Weather API failed")) empty_info
    ≡ record empty_info { ready = true }
parse_info-error_body_example = parse_info-error_body (codes "Weather API failed") empty_info
