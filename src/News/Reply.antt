-- ===== src/News/Reply.antt =====
-- `parse_news_titles` of networking_config_news.c on the reply of `/news` that
-- python_proxi/proxi.py writes for titles that are texts: the reply has a list `titles` and no key
-- `title`.
use mathlib.Core.Option
use ikt104_eksamen_oppgave.Base.{
  ℕ, suc, false, none, some, List, [], ◌∷◌, ◌≡◌, refl, ap, ◌∙◌, arith, inl, inr, Bytes, codes,
  decimal, length, map, strstr, bytes_eq, ne_of_bytes_eq,
}
use ikt104_eksamen_oppgave.Proxy.{quoted, separated, dump_value}
use ikt104_eksamen_oppgave.Proxy.Titles.{Json, string}
use ikt104_eksamen_oppgave.Proxy.Dump.{dump_json, dump_titles, news_body}
use ikt104_eksamen_oppgave.Proxy.Escapes.{NotQuote, not_quote}
use ikt104_eksamen_oppgave.Proxy.Search.{
  FollowsString, IsKey, key_skip, value_skip, strstr-NotQuote, strstr-skip_text,
}
use ikt104_eksamen_oppgave.Info.Reply.{decimal-Bare, NotQuote-of_Bare}
use ikt104_eksamen_oppgave.News.{NewsData, title_key, read_titles, finish_titles, parse_news_titles}

title-IsKey : IsKey (codes "title")
title-IsKey = record {
  plain = omega arith;
  first = b't';
  others = codes "itle";
  splits = refl;
  no_mark = omega arith;
}

module _ {Number : Type 0} (number_text : Number → Bytes) where
  abbrev texts : List Bytes → List (Json Number)
  texts ts = map string ts

  titles-FollowsString :
      (ts : List Bytes) (rest : Bytes)
      → FollowsString (separated (texts ts) (dump_titles number_text (texts ts) rest))
  titles-FollowsString [] rest = unfold dump_titles in inr (inr refl)
  titles-FollowsString (t ∷ ts) rest = inl refl

  skip_mark :
      (c : ℕ) (text : Bytes) → NotQuote c → strstr (c ∷ text) title_key ≡ strstr text title_key
  skip_mark c text h = strstr-NotQuote (codes "title") c text h

  separator_skip :
      (ts : List (Json Number)) (rest : Bytes)
      → strstr (separated ts rest) title_key ≡ strstr rest title_key
  separator_skip [] rest = refl
  separator_skip (t ∷ ts) rest =
      skip_mark b',' (b' ' ∷ rest) (not_quote b',' refl) ∙ skip_mark b' ' rest (not_quote b' ' refl)

  -- The key is nowhere in the list, whatever the texts are.
  dump_titles_skip :
      (ts : List Bytes) (rest : Bytes)
      → strstr (dump_titles number_text (texts ts) rest) title_key ≡ strstr rest title_key
  dump_titles_skip [] rest = unfold dump_titles in skip_mark b']' rest (not_quote b']' refl)
  dump_titles_skip (t ∷ ts) rest =
      first t ts rest
      ∙ separator_skip (texts ts) (dump_titles number_text (texts ts) rest)
      ∙ dump_titles_skip ts rest
    where
      first :
          (t : Bytes) (ts : List Bytes) (rest : Bytes)
          → strstr (dump_titles number_text (texts (t ∷ ts)) rest) title_key
            ≡ strstr (separated (texts ts) (dump_titles number_text (texts ts) rest)) title_key
      first t ts rest =
          unfold dump_titles dump_json dump_value in
          value_skip (codes "title") title-IsKey (quoted t)
            (separated (texts ts) (dump_titles number_text (texts ts) rest)) tt
            (titles-FollowsString ts rest)

  strstr-news_body : (ts : List Bytes) → strstr (news_body number_text (texts ts)) title_key ≡ none
  strstr-news_body ts =
      unfold news_body in
      skip_mark b'{' _ (not_quote b'{' refl)
      ∙ key_skip (codes "title") title-IsKey (codes "count") _ (omega arith)
          (ne_of_bytes_eq (codes "count") (codes "title") (unfold bytes_eq in refl))
      ∙ strstr-skip_text (codes "title") (decimal (length (texts ts))) _
          (NotQuote-of_Bare _ (decimal-Bare (length (texts ts))))
      ∙ skip_mark b',' _ (not_quote b',' refl)
      ∙ skip_mark b' ' _ (not_quote b' ' refl)
      ∙ key_skip (codes "title") title-IsKey (codes "titles") _ (omega arith)
          (ne_of_bytes_eq (codes "titles") (codes "title") (unfold bytes_eq in refl))
      ∙ skip_mark b'[' _ (not_quote b'[' refl)
      ∙ dump_titles_skip ts (b'}' ∷ [])
      ∙ skip_mark b'}' [] (not_quote b'}' refl)
      ∙ unfold strstr in refl

  -- If all titles that the proxy sends are texts, whatever texts they are, `parse_news_titles`
  -- finds none in the reply: the count is 0 and the data is not ready.
  pub parse_news_titles-news_body :
      (ts : List Bytes) (g : NewsData)
      → parse_news_titles (news_body number_text (map string ts)) g
        ≡ some (record g { count = 0; ready = false })
  unfolding parse_news_titles
  parse_news_titles-news_body ts g =
      ap (Option.map finish_titles) (
        nothing_found (length (news_body number_text (texts ts))) (news_body number_text (texts ts))
          (strstr-news_body ts))
      ∙ unfold finish_titles in refl
    where
      nothing_found :
          (fuel : ℕ) (body : Bytes)
          → strstr body title_key ≡ none
          → read_titles (suc fuel) body (record g { count = 0; ready = false })
            ≡ some (record g { count = 0; ready = false })
      nothing_found fuel body e = unfold read_titles in rw (e, read_titles) refl
