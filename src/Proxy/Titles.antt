-- ===== src/Proxy/Titles.antt =====
-- python_proxi/proxi.py, `news`: how the titles are collected from what the news service answers.
-- Numbers, and Python's `is` or `==` on values, are arguments.
use ikt104_eksamen_oppgave.Base.{
  ◌≡◌, Bool, true, false, not, ◌&&◌, ◌||◌, List, [], ◌∷◌, ◌++◌, if◌then◌else◌, Bytes, codes,
  bytes_eq,
}

module _ (Number : Type 0) where
  -- What `response.json()` returns.
  mutual
    pub data Json : Type 0 where
      null : Json
      boolean : Bool → Json
      number : Number → Json
      string : Bytes → Json
      array : Items → Json
      dictionary : Entries → Json

    pub data Items : Type 0 where
      no_more : Items
      item : Json → Items → Items

    pub data Entries : Type 0 where
      closed : Entries
      entry : Bytes → Json → Entries → Entries

  -- `same x y` is `x is y or x == y`, by which `in` looks through a list.
  pub record Values : Type 0 where
    pub is_zero : Number → Bool
    pub same : Json → Json → Bool
    pub same_itself : (v : Json) → same v v ≡ true

module _ {Number : Type 0} where
  -- The lists that the answer is or has as values, in the order of the dictionary.
  unfoldable pub if_array : Json Number → List (Items Number) → List (Items Number)
  if_array (array items) rest = items ∷ rest
  if_array null rest = rest
  if_array (boolean b) rest = rest
  if_array (number n) rest = rest
  if_array (string s) rest = rest
  if_array (dictionary d) rest = rest

  unfoldable pub value_lists : Entries Number → List (Items Number)
  unfolding if_array
  value_lists closed = []
  value_lists (entry key value entries) = if_array value (value_lists entries)

  unfoldable pub possible_lists : Json Number → List (Items Number)
  unfolding value_lists
  possible_lists (array items) = items ∷ []
  possible_lists (dictionary entries) = value_lists entries
  possible_lists null = []
  possible_lists (boolean b) = []
  possible_lists (number n) = []
  possible_lists (string s) = []

  -- `d.get(key)`, which is None for a key that is not there.
  unfoldable pub get : Bytes → Entries Number → Json Number
  get key closed = null
  get key (entry k v entries) = let rest = get key entries in if bytes_eq k key then v else rest

  module _ (p : Values Number) where
    -- `if title`
    unfoldable pub is_true : Json Number → Bool
    is_true null = false
    is_true (boolean b) = b
    is_true (number n) = not (p.is_zero n)
    is_true (string []) = false
    is_true (string (c ∷ s)) = true
    is_true (array no_more) = false
    is_true (array (item v items)) = true
    is_true (dictionary closed) = false
    is_true (dictionary (entry k v entries)) = true

    -- `title in titles`
    unfoldable pub is_in : Json Number → List (Json Number) → Bool
    is_in t [] = false
    is_in t (x ∷ xs) = let rest = is_in t xs in p.same t x || rest

    unfoldable pub add_title : List (Json Number) → Json Number → List (Json Number)
    unfolding is_true is_in
    add_title titles title =
        if is_true title && not (is_in title titles) then titles ++ title ∷ [] else titles

    -- What the inner loop does with an article.
    unfoldable pub add_article : List (Json Number) → Json Number → List (Json Number)
    unfolding add_title get
    add_article titles (dictionary entries) = add_title titles (get (codes "title") entries)
    add_article titles null = titles
    add_article titles (boolean b) = titles
    add_article titles (number n) = titles
    add_article titles (string s) = titles
    add_article titles (array items) = titles

    unfoldable pub add_articles : List (Json Number) → Items Number → List (Json Number)
    unfolding add_article
    add_articles titles no_more = titles
    add_articles titles (item article articles) = add_articles (add_article titles article) articles

    unfoldable pub add_lists : List (Json Number) → List (Items Number) → List (Json Number)
    unfolding add_articles
    add_lists titles [] = titles
    add_lists titles (items ∷ lists) = add_lists (add_articles titles items) lists

    -- The list `titles` in the end.
    unfoldable pub collected : Json Number → List (Json Number)
    unfolding add_lists possible_lists
    collected news_data = add_lists [] (possible_lists news_data)
