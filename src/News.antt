-- ===== src/News.antt =====
-- exsamene/src/networking_config_news.c, `parse_news_titles`, and the data that it fills
-- (network_config.h). A title is the list of the bytes in front of its NUL, and a pointer into the
-- response is the rest of the response from there. Skipping blanks and copying up to a quote are
-- the loops of network_config.c, and are shared with `Info`.
pub mod Bounds
pub mod Reply
mod Examples
use mathlib.Core.Option
use ikt104_eksamen_oppgave.Base.{
  ℕ, zero, suc, ◌+◌, ◌-◌, Bool, true, false, Option, none, some, List, [], ◌∷◌, ltb, ◌==◌,
  if◌then◌else◌, Bytes, codes, length, drop, set, replicate, starts_with, strstr,
}
use ikt104_eksamen_oppgave.Info.{skip_blanks, copy_until, is_quote}

abbrev pub news_max : ℕ
news_max = 10

abbrev pub news_title_len : ℕ
news_title_len = 80

pub record NewsData : Type 0 where
  pub titles : List Bytes
  pub count : ℕ
  pub ready : Bool

-- `news_data_t g_news = {0}`.
unfoldable pub empty_news : NewsData
empty_news = record { titles = replicate news_max []; count = 0; ready = false }

abbrev pub title_key : Bytes
title_key = codes "\"title\":"

-- `if (*pos == '"') pos++;`
unfoldable pub skip_quote : Bytes → Bytes
skip_quote [] = []
skip_quote (c ∷ text) = if c == b'"' then text else c ∷ text

-- The title goes to the next free place, and the place is taken if the title is not empty.
unfoldable pub store_title : Bytes → NewsData → NewsData
store_title [] g = record g { titles = set g.titles g.count [] }
store_title (c ∷ title) g = record g {
  titles = set g.titles g.count (c ∷ title);
  count = g.count + 1;
}

-- The loop's body behind the `null` test: the text that is left, and the data.
unfoldable pub read_title : Bytes → NewsData → Bytes × NewsData
read_title text g =
    let (title, rest) = copy_until is_quote (news_title_len - 1) (skip_quote text) in
    (skip_quote rest, store_title title g)

-- The loop's body behind the blanks.
unfoldable pub title_or_null : Bytes → NewsData → Bytes × NewsData
title_or_null text g =
    if starts_with text (codes "null") then (drop 4 text, g) else read_title text g

-- The loop's body behind `strstr`, on the text from the key on.
unfoldable pub title_round : Bytes → NewsData → Bytes × NewsData
title_round text g = title_or_null (skip_blanks (drop 8 text)) g

-- The loop. `none` says that the fuel ran out.
unfoldable pub read_titles : ℕ → Bytes → NewsData → Option NewsData
read_titles zero pos g = none
read_titles (suc fuel) pos g = elim (ltb g.count news_max) [
  | false ↦ some g
  | true ↦ elim (strstr pos title_key) [
    | none ↦ some g
    | some text ↦ let (rest, g') = title_round text g in read_titles fuel rest g'
  ]
]

unfoldable pub finish_titles : NewsData → NewsData
finish_titles g = if ltb 0 g.count then record g { ready = true } else g

-- Each round leaves at least the key behind, so one round more than the response has bytes is
-- enough. The mutex is held throughout, so the new value appears at once.
unfoldable pub parse_news_titles : Bytes → NewsData → Option NewsData
parse_news_titles json g =
    Option.map finish_titles
      (read_titles (suc (length json)) json (record g { count = 0; ready = false }))
