-- ===== src/News/Examples.antt =====
-- Responses with titles, and the theorems at them.
use ikt104_eksamen_oppgave.Base.{
  ℕ, ◌≡◌, refl, arith, map, decimal, true, false, some, [], ◌∷◌, Bytes, codes, strstr, replicate,
}
use ikt104_eksamen_oppgave.Info.{skip_blanks, copy_until}
use ikt104_eksamen_oppgave.Proxy.{escaped, escape_char, escape_other}
use ikt104_eksamen_oppgave.Proxy.Titles.{Json, string, dictionary, entry, closed}
use ikt104_eksamen_oppgave.Proxy.Dump.{news_body, dump_titles, dump_json, dump_items, dump_entries}
use ikt104_eksamen_oppgave.News.{
  NewsData, empty_news, skip_quote, store_title, read_title, title_or_null, title_round,
  read_titles, finish_titles, parse_news_titles,
}
use ikt104_eksamen_oppgave.News.Bounds.{Fits, parse_news_titles-Fits}
use ikt104_eksamen_oppgave.News.Reply.{parse_news_titles-news_body}

-- A list of articles, with a `null` and an empty title among them.
abbrev articles : Bytes
articles =
    codes
      "[{\"title\": \"Ferry late\"}, {\"title\": null}, {\"title\": \"\"}, {\"title\":\"Rain\"}]"

two_titles :
    parse_news_titles articles empty_news
    ≡ some (record {
      titles = codes "Ferry late" ∷ codes "Rain" ∷ replicate 8 [];
      count = 2;
      ready = true;
    })
unfolding parse_news_titles read_titles title_round title_or_null read_title store_title skip_quote
    finish_titles skip_blanks copy_until strstr empty_news
two_titles = refl

parse_news_titles-Fits_example :
    (g' : NewsData) × (parse_news_titles articles empty_news ≡ some g') × Fits g'
unfolding empty_news
parse_news_titles-Fits_example = parse_news_titles-Fits articles empty_news refl (omega arith)

parse_news_titles-news_body_example :
    parse_news_titles
      (news_body decimal (map string (codes "Ferry late" ∷ codes "\"title\": \"x\"" ∷ [])))
      empty_news
    ≡ some (record empty_news { count = 0; ready = false })
parse_news_titles-news_body_example =
    parse_news_titles-news_body decimal (codes "Ferry late" ∷ codes "\"title\": \"x\"" ∷ [])
      empty_news

-- A title that is a dictionary with such a key of its own is another matter.
abbrev nested : Json ℕ
nested = dictionary (entry (codes "title") (string (codes "x")) closed)

found_in_nested :
    parse_news_titles (news_body decimal (nested ∷ [])) empty_news
    ≡ some (record { titles = codes "x" ∷ replicate 9 []; count = 1; ready = true })
unfolding parse_news_titles read_titles title_round title_or_null read_title store_title skip_quote
    finish_titles skip_blanks copy_until strstr empty_news news_body dump_titles dump_json
    dump_items dump_entries escaped escape_char escape_other decimal
found_in_nested = refl
