-- ===== src/Proxy/Examples.antt =====
-- What the proxy collects from an answer of the news service.
use ikt104_eksamen_oppgave.Base.{
  ℕ, ◌≡◌, refl, arith, Bool, true, false, ◌&&◌, [], ◌∷◌, ◌==◌, All, Bytes, codes, bytes_eq,
}
use ikt104_eksamen_oppgave.Proxy.Titles.{
  Json, null, boolean, number, string, array, dictionary, Items, no_more, item, Entries, closed,
  entry, Values, if_array, value_lists, possible_lists, get, is_true, is_in, add_title, add_article,
  add_articles, add_lists, collected,
}
use ikt104_eksamen_oppgave.Proxy.Answer.{
  at_first, at_later, IsListOf, value, is_first, is_later, titled, IsAmong, IsTitleIn, IsDistinct,
}
use ikt104_eksamen_oppgave.Proxy.Distinct.{collected-IsAmong, collected-IsTitleIn}

abbrev same_bool : Bool → Bool → Bool
same_bool true b = b
same_bool false true = false
same_bool false false = true

-- Values that are written alike.
unfoldable mutual
  same : Json ℕ → Json ℕ → Bool
  same null null = true
  same (boolean a) (boolean b) = same_bool a b
  same (number m) (number n) = m == n
  same (string s) (string t) = bytes_eq s t
  same (array xs) (array ys) = same_items xs ys
  same (dictionary d) (dictionary e) = same_entries d e
  same _ _ = false

  same_items : Items ℕ → Items ℕ → Bool
  same_items no_more no_more = true
  same_items (item x xs) (item y ys) = same x y && same_items xs ys
  same_items _ _ = false

  same_entries : Entries ℕ → Entries ℕ → Bool
  same_entries closed closed = true
  same_entries (entry k v d) (entry l w e) = bytes_eq k l && (same v w && same_entries d e)
  same_entries _ _ = false

bytes_itself : (s : Bytes) → bytes_eq s s ≡ true
unfolding bytes_eq
bytes_itself [] = refl
bytes_itself (c ∷ s) = rw (bytes_itself s) (ground arith)

mutual
  unfolding same same_items same_entries

  same_itself : (v : Json ℕ) → same v v ≡ true
  same_itself null = refl
  same_itself (boolean true) = refl
  same_itself (boolean false) = refl
  same_itself (number n) = ground arith
  same_itself (string s) = bytes_itself s
  same_itself (array xs) = items_itself xs
  same_itself (dictionary d) = entries_itself d

  items_itself : (xs : Items ℕ) → same_items xs xs ≡ true
  items_itself no_more = refl
  items_itself (item x xs) = rw (same_itself x, items_itself xs) refl

  entries_itself : (d : Entries ℕ) → same_entries d d ≡ true
  entries_itself closed = refl
  entries_itself (entry k v d) = rw (bytes_itself k, same_itself v, entries_itself d) refl

abbrev values : Values ℕ
values = record { is_zero = λ n. n == 0; same = same; same_itself = same_itself }

abbrev article : Bytes → Json ℕ
article title = dictionary (entry (codes "title") (string title) closed)

-- Two lists, with a title that is there twice and one that is empty.
abbrev answer : Json ℕ
answer = dictionary (
    entry (codes "status") (number 200) (
      entry (codes "Latest") (array (item (article (codes "Rain")) (item (article []) no_more))) (
        entry (codes "World")
          (array (item (article (codes "Snow")) (item (article (codes "Rain")) no_more))) closed)))

two_titles : collected values answer ≡ string (codes "Rain") ∷ string (codes "Snow") ∷ []
unfolding collected add_lists add_articles add_article add_title is_in is_true get possible_lists
    value_lists if_array same same_items same_entries bytes_eq
two_titles = refl

-- The list under `World`.
abbrev world : Items ℕ
world = item (article (codes "Snow")) (item (article (codes "Rain")) no_more)

world-IsListOf : IsListOf world answer
world-IsListOf = value _ (at_later _ _ _ (at_later _ _ _ (at_first _ _)))

collected-IsAmong_example : IsAmong values (string (codes "Rain")) (collected values answer)
collected-IsAmong_example =
    collected-IsAmong values answer (string (codes "Rain")) world
      (entry (codes "title") (string (codes "Rain")) closed) world-IsListOf
      (is_later _ _ (is_first _)) (titled _) (λ e. cc)

collected-IsTitleIn_example :
    All (IsTitleIn values answer) (collected values answer)
    × IsDistinct values (collected values answer)
collected-IsTitleIn_example = collected-IsTitleIn values answer
