-- ===== src/News/Bounds.antt =====
-- `parse_news_titles` ends, and stays inside the arrays of `news_data_t`.
use mathlib.Core.Option
use native.Mathlib.Nat.{le_trans}
use Prim.Native.Nat.{suc-le-suc}
use ikt104_eksamen_oppgave.Base.{
  ℕ, zero, suc, ◌≤◌, ◌<◌, Bool, true, false, Bool-cases, Option-cases, some, List, [], ◌∷◌, ◌≡◌,
  refl, ap, ◌∙◌, arith, inl, inr, ltb, ◌==◌, if◌then◌else◌, Bytes, codes, length, drop, set, get_or,
  All, length-set, starts_with, strstr, if_of_both, ltb→lt,
}
use ikt104_eksamen_oppgave.Info.{skip_blanks, copy_until, is_quote}
use ikt104_eksamen_oppgave.Info.Bounds.{length-copy_until}
use ikt104_eksamen_oppgave.News.{
  NewsData, news_max, news_title_len, title_key, skip_quote, store_title, read_title, title_or_null,
  title_round, read_titles, finish_titles, parse_news_titles,
}

-- The array has its ten places, each title has room for its NUL, the places that are counted hold
-- titles that are not empty, and the data is ready if there is one.
pub record Fits (g : NewsData) : Type 0 where
  pub places : length g.titles ≡ news_max
  pub count_in : g.count ≤ news_max
  pub titles_fit : All (λ t. length t < news_title_len) g.titles
  pub titles_full : (i : ℕ) → i < g.count → 0 < length (get_or g.titles i [])
  pub ready_is : g.ready ≡ ltb 0 g.count

-- The same while the loop runs, when the data is not ready.
record Filling (g : NewsData) : Type 0 where
  places : length g.titles ≡ news_max
  count_in : g.count ≤ news_max
  titles_fit : All (λ t. length t < news_title_len) g.titles
  titles_full : (i : ℕ) → i < g.count → 0 < length (get_or g.titles i [])
  not_ready : g.ready ≡ false

All-set :
    (ts : List Bytes) (i : ℕ) (t : Bytes)
    → All (λ t. length t < news_title_len) ts
    → length t < news_title_len
    → All (λ t. length t < news_title_len) (set ts i t)
All-set [] i t h k = tt
All-set (x ∷ ts) zero t (h, hs) k = (k, hs)
All-set (x ∷ ts) (suc i) t (h, hs) k = (h, All-set ts i t hs k)

get_or-set :
    (ts : List Bytes) (i j : ℕ) (t : Bytes)
    → i < length ts
    → get_or (set ts i t) j [] ≡ (if i == j then t else get_or ts j [])
get_or-set [] i j t h = absurd (omega arith)
get_or-set (x ∷ ts) zero zero t h = refl
get_or-set (x ∷ ts) zero (suc j) t h = ground arith
get_or-set (x ∷ ts) (suc i) zero t h = ground arith
get_or-set (x ∷ ts) (suc i) (suc j) t h = ground (arith, get_or-set ts i j t)

store_title-Filling :
    (title : Bytes) (g : NewsData)
    → length title < news_title_len
    → g.count < news_max
    → Filling g
    → Filling (store_title title g)
unfolding store_title
store_title-Filling [] g h k v = record {
  places = length-set g.titles g.count [] ∙ v.places;
  count_in = v.count_in;
  titles_fit = All-set g.titles g.count [] v.titles_fit h;
  titles_full = λ i lt. ground (arith, get_or-set g.titles g.count i [], v.titles_full i);
  not_ready = v.not_ready;
}
store_title-Filling (c ∷ title) g h k v = record {
  places = length-set g.titles g.count (c ∷ title) ∙ v.places;
  count_in = omega arith;
  titles_fit = All-set g.titles g.count (c ∷ title) v.titles_fit h;
  titles_full = λ i lt. ground (arith, get_or-set g.titles g.count i (c ∷ title), v.titles_full i);
  not_ready = v.not_ready;
}

-- What is left of the text is never longer.
length-skip_quote : (text : Bytes) → length (skip_quote text) ≤ length text
unfolding skip_quote
length-skip_quote [] = omega arith
length-skip_quote (c ∷ text) = ground arith

length-skip_blanks : (text : Bytes) → length (skip_blanks text) ≤ length text
unfolding skip_blanks
length-skip_blanks [] = omega arith
length-skip_blanks (c ∷ text) = ground (arith, length-skip_blanks text)

length-copy_until_rest :
    (stop : ℕ → Bool) (room : ℕ) (text : Bytes) → length (copy_until stop room text).1 ≤ length text
unfolding copy_until
length-copy_until_rest stop zero text = omega arith
length-copy_until_rest stop (suc room) [] = omega arith
length-copy_until_rest stop (suc room) (c ∷ text) =
    ground (arith, length-copy_until_rest stop room text)

strstr-cons :
    (c : ℕ) (pos word : Bytes)
    → strstr (c ∷ pos) word
      ≡ (if starts_with (c ∷ pos) word then some (c ∷ pos) else strstr pos word)
unfolding strstr
strstr-cons c pos word = refl

-- What `strstr` finds is no longer than where it looks, and begins with the word.
length-strstr :
    (pos word : Bytes) {text : Bytes}
    → strstr pos word ≡ some text
    → (length text ≤ length pos) × (starts_with text word ≡ true)
length-strstr [] word e = unfold strstr in ground arith
length-strstr (c ∷ pos) word {text} e = elim (Bool-cases (starts_with (c ∷ pos) word)) [
  | inl here ↦ ground (arith, strstr-cons c pos word)
  | inr later ↦ ground (arith, strstr-cons c pos word, length-strstr pos word {text = text})
]

length-starts_with : (text word : Bytes) → starts_with text word ≡ true → length word ≤ length text
unfolding starts_with
length-starts_with text [] e = omega arith
length-starts_with [] (w ∷ word) e = cc
length-starts_with (c ∷ text) (w ∷ word) e = ground (arith, length-starts_with text word)

length-drop-le : (n : ℕ) (text : Bytes) → length (drop n text) ≤ length text
length-drop-le zero text = omega arith
length-drop-le (suc n) [] = omega arith
length-drop-le (suc n) (c ∷ text) = omega (arith, length-drop-le n text)

length-drop-lt : (n : ℕ) (text : Bytes) → 0 < length text → length (drop (suc n) text) < length text
length-drop-lt n [] h = absurd (omega arith)
length-drop-lt n (c ∷ text) h = omega (arith, length-drop-le n text)

read_title_lem :
    (text : Bytes) (g : NewsData)
    → Filling g
    → g.count < news_max
    → (length (read_title text g).0 ≤ length text) × Filling (read_title text g).1
read_title_lem text g v k =
    unfold read_title in
    (
      le_trans (length-skip_quote (copy_until is_quote 79 (skip_quote text)).1) (
          le_trans (length-copy_until_rest is_quote 79 (skip_quote text)) (length-skip_quote text)),
      store_title-Filling (copy_until is_quote 79 (skip_quote text)).0 g
          (suc-le-suc (length-copy_until is_quote 79 (skip_quote text))) k v,
    )

title_or_null_lem :
    (text : Bytes) (g : NewsData)
    → Filling g
    → g.count < news_max
    → (length (title_or_null text g).0 ≤ length text) × Filling (title_or_null text g).1
title_or_null_lem text g v k =
    unfold title_or_null in
    if_of_both (λ r. (length r.0 ≤ length text) × Filling r.1) (starts_with text (codes "null"))
      (drop 4 text, g) (read_title text g) (length-drop-le 4 text, v) (read_title_lem text g v k)

title_round_lem :
    (text : Bytes) (g : NewsData)
    → 0 < length text
    → Filling g
    → g.count < news_max
    → (length (title_round text g).0 < length text) × Filling (title_round text g).1
title_round_lem text g h v k =
    unfold title_round in
    let r = title_or_null_lem (skip_blanks (drop 8 text)) g v k in
    (
      le_trans (suc-le-suc (le_trans r.0 (length-skip_blanks (drop 8 text))))
          (length-drop-lt 7 text h),
      r.1,
    )

-- With more fuel than the text has bytes the loop ends, and the invariant holds.
read_titles-Filling :
    (fuel : ℕ) (pos : Bytes) (g : NewsData)
    → length pos < fuel
    → Filling g
    → (g' : NewsData) × (read_titles fuel pos g ≡ some g') × Filling g'
unfolding read_titles
read_titles-Filling zero pos g h v = absurd (omega arith)
read_titles-Filling (suc fuel) pos g h v = elim (Bool-cases (ltb g.count news_max)) [
  | inr full ↦ (g, rw (full, read_titles) refl, v)
  | inl room ↦ elim (Option-cases (strstr pos title_key)) [
    | inl over ↦ (g, rw (room, over, read_titles) refl, v)
    | inr (text, found) ↦
        let (shorter, begins) = length-strstr pos title_key found in
        let (less, v') =
          title_round_lem text g (le_trans (omega arith) (length-starts_with text title_key begins))
            v (ltb→lt g.count news_max room) in
        let (g', ends, v'') =
          read_titles-Filling fuel (title_round text g).0 (title_round text g).1 (omega arith) v' in
        (g', rw (room, found, read_titles) ends, v'')
  ]
]

finish_titles-Fits : (g : NewsData) → Filling g → Fits (finish_titles g)
unfolding finish_titles
finish_titles-Fits g v = elim (Bool-cases (ltb 0 g.count)) [
  | inl some_title ↦ rw some_title (record {
    places = v.places;
    count_in = v.count_in;
    titles_fit = v.titles_fit;
    titles_full = v.titles_full;
    ready_is = rw some_title;
  })
  | inr no_title ↦ rw no_title (record {
    places = v.places;
    count_in = v.count_in;
    titles_fit = v.titles_fit;
    titles_full = v.titles_full;
    ready_is = v.not_ready ∙ rw no_title;
  })
]

-- On every response the loop of `parse_news_titles` ends, and leaves at most ten titles, each of
-- one to 79 bytes, in an array of ten; `ready` says whether there is any. What was there before
-- must fit the array too.
pub parse_news_titles-Fits :
    (json : Bytes) (g : NewsData)
    → length g.titles ≡ news_max
    → All (λ t. length t < news_title_len) g.titles
    → (g' : NewsData) × (parse_news_titles json g ≡ some g') × Fits g'
unfolding parse_news_titles
parse_news_titles-Fits json g places fit =
    let cleared = record g { count = 0; ready = false } in
    let start : Filling cleared = record {
      places = places;
      count_in = omega arith;
      titles_fit = fit;
      titles_full = λ i h. absurd (omega arith);
      not_ready = refl;
    } in
    let (g', ends, v) = read_titles-Filling (suc (length json)) json cleared (omega arith) start in
    (finish_titles g', ap (Option.map finish_titles) ends, finish_titles-Fits g' v)
