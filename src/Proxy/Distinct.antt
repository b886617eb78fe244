-- ===== src/Proxy/Distinct.antt =====
-- The titles that `news` of python_proxi/proxi.py collects, against what the answer holds.
use mathlib.Core.Path.{subst}
use ikt104_eksamen_oppgave.Base.{
  ◌≡◌, refl, ap, ◌∙◌, arith, true, false, Bool-cases, inl, inr, ◌⊎◌, List, [], ◌∷◌, ◌++◌, All,
  All-append,
}
use ikt104_eksamen_oppgave.Proxy.Titles.{
  Json, null, boolean, number, string, array, dictionary, Items, no_more, item, Entries, Values,
  possible_lists, is_true, is_in, add_title, add_article, add_articles, add_lists, collected,
}
use ikt104_eksamen_oppgave.Proxy.Answer.{
  IsListOf, IsItem, is_first, is_later, IsTitleOf, IsTrue, IsAmong, IsTitleIn, IsDistinct,
}
use ikt104_eksamen_oppgave.Proxy.Found.{
  title_of, get-IsTitleOf, IsTitleOf-title_of, is_true-IsTrue, IsTrue-is_true, IsAmong-is_in,
  possible_lists-All, possible_lists-IsListOf,
}

module _ {Number : Type 0} (p : Values Number) where
  abbrev J : Type 0
  J = Json Number

  is_in-cons :
      (t x : J) (xs : List J)
      → is_in p t (x ∷ xs) ≡ false
      → (p.same t x ≡ false) × (is_in p t xs ≡ false)
  unfolding is_in
  is_in-cons t x xs e = ground arith

  append-IsDistinct :
      (t : J) (titles : List J)
      → IsDistinct p titles
      → is_in p t titles ≡ false
      → IsDistinct p (titles ++ t ∷ [])
  append-IsDistinct t [] h e = (tt, tt)
  append-IsDistinct t (x ∷ xs) (h, hs) e =
      let (e₁, e₂) = is_in-cons t x xs e in
      (All-append (λ y. p.same y x ≡ false) xs (t ∷ []) h (e₁, tt), append-IsDistinct t xs hs e₂)

  -- A title that is in the list stays in it.
  is_in-append :
      (u t : J) (titles : List J) → is_in p u titles ≡ true → is_in p u (titles ++ t ∷ []) ≡ true
  unfolding is_in
  is_in-append u t [] e = ground arith
  is_in-append u t (x ∷ xs) e = elim (Bool-cases (p.same u x)) [
    | inl s ↦ rw s refl
    | inr s ↦ rw s (is_in-append u t xs (ground arith))
  ]

  is_in_itself : (t : J) (titles : List J) → is_in p t (titles ++ t ∷ []) ≡ true
  unfolding is_in
  is_in_itself t [] = rw (p.same_itself t) refl
  is_in_itself t (x ∷ xs) = rw (is_in_itself t xs) (ground arith)

  -- What the loops keep: what is in the list stays in it, the list stays without repetition, and
  -- what holds of its titles goes on to hold if it does of the true titles that are `found`.
  record Added (found : Entries Number → Type 0) (before after : List J) : Type 1 where
    kept : (u : J) → is_in p u before ≡ true → is_in p u after ≡ true
    distinct : IsDistinct p before → IsDistinct p after
    only :
        (P : J → Type 0)
        → ((d : Entries Number) → found d → is_true p (title_of d) ≡ true → P (title_of d))
        → All P before
        → All P after

  nothing_new : (found : Entries Number → Type 0) (titles : List J) → Added found titles titles
  nothing_new found titles = record { kept = λ u e. e; distinct = λ q. q; only = λ P f q. q }

  one_by_one :
      (found first second : Entries Number → Type 0) (a b c : List J)
      → ((d : Entries Number) → first d → found d)
      → ((d : Entries Number) → second d → found d)
      → Added first a b
      → Added second b c
      → Added found a c
  one_by_one found first second a b c f g h h' = record {
    kept = λ u e. h'.kept u (h.kept u e);
    distinct = λ q. h'.distinct (h.distinct q);
    only = λ P q all. h'.only P (λ d s e. q d (g d s) e) (h.only P (λ d s e. q d (f d s) e) all);
  }

  -- The one dictionary.
  abbrev Is : Entries Number → Entries Number → Type 0
  Is d d' = d' ≡ d

  add_title-Added :
      (titles : List J) (d : Entries Number)
      → Added (Is d) titles (add_title p titles (title_of d))
        × (is_true p (title_of d) ≡ true
            → is_in p (title_of d) (add_title p titles (title_of d)) ≡ true)
  unfolding add_title
  add_title-Added titles d = elim (Bool-cases (is_true p (title_of d))) [
    | inr no_title ↦ rw no_title (nothing_new (Is d) titles, λ e. ground arith)
    | inl title ↦ elim (Bool-cases (is_in p (title_of d) titles)) [
      | inl there ↦ rw (title, there) (nothing_new (Is d) titles, λ e. there)
      | inr new ↦
          rw (title, new)
            (
              record {
                kept = λ u e. is_in-append u (title_of d) titles e;
                distinct = λ q. append-IsDistinct (title_of d) titles q new;
                only = λ P f q. All-append P titles (title_of d ∷ []) q (f d refl title, tt);
              },
              λ e. is_in_itself (title_of d) titles,
            )
    ]
  ]

  -- A true title is there, by one that is the same.
  abbrev Has : List J → Entries Number → Type 0
  Has titles d = is_true p (title_of d) ≡ true → is_in p (title_of d) titles ≡ true

  -- The dictionary that an article is.
  abbrev OfArticle : J → Entries Number → Type 0
  OfArticle (dictionary d) d' = Is d d'
  OfArticle _ d' = ⊥

  IsItem-OfArticle :
      (article : J) (more : Items Number) (d : Entries Number)
      → OfArticle article d
      → IsItem (dictionary d) (item article more)
  IsItem-OfArticle (dictionary d') more d e =
      subst (λ (x : Entries Number). IsItem (dictionary d) (item (dictionary x) more)) e
        (is_first more)
  IsItem-OfArticle null more d e = elim e [ ]
  IsItem-OfArticle (boolean b) more d e = elim e [ ]
  IsItem-OfArticle (number n) more d e = elim e [ ]
  IsItem-OfArticle (string s) more d e = elim e [ ]
  IsItem-OfArticle (array items) more d e = elim e [ ]

  add_article-Added :
      (titles : List J) (article : J)
      → Added (OfArticle article) titles (add_article p titles article)
  unfolding add_article
  add_article-Added titles (dictionary d) = (add_title-Added titles d).0
  add_article-Added titles null = nothing_new (OfArticle null) titles
  add_article-Added titles (boolean b) = nothing_new (OfArticle (boolean b)) titles
  add_article-Added titles (number n) = nothing_new (OfArticle (number n)) titles
  add_article-Added titles (string s) = nothing_new (OfArticle (string s)) titles
  add_article-Added titles (array items) = nothing_new (OfArticle (array items)) titles

  add_article-Has :
      (titles : List J) (d : Entries Number) → Has (add_article p titles (dictionary d)) d
  unfolding add_article
  add_article-Has titles d = (add_title-Added titles d).1

  abbrev InList : Items Number → Entries Number → Type 0
  InList articles d = IsItem (dictionary d) articles

  add_articles-Added :
      (titles : List J) (articles : Items Number)
      → Added (InList articles) titles (add_articles p titles articles)
  unfolding add_articles
  add_articles-Added titles no_more = nothing_new (InList no_more) titles
  add_articles-Added titles (item article more) =
      let next = add_article p titles article in
      one_by_one (InList (item article more)) (OfArticle article) (InList more) titles next
        (add_articles p next more) (IsItem-OfArticle article more) (λ d q. is_later article more q)
        (add_article-Added titles article) (add_articles-Added next more)

  add_articles-Has :
      (titles : List J) (articles : Items Number) (d : Entries Number)
      → InList articles d
      → Has (add_articles p titles articles) d
  unfolding add_articles
  add_articles-Has titles no_more d q = elim q [ ]
  add_articles-Has titles (item article more) d (is_first _) = λ e.
      (add_articles-Added (add_article p titles article) more).kept (title_of d)
        (add_article-Has titles d e)
  add_articles-Has titles (item article more) d (is_later _ _ q) =
      add_articles-Has (add_article p titles article) more d q

  abbrev InLists : List (Items Number) → Entries Number → Type 0
  InLists [] d = ⊥
  InLists (articles ∷ lists) d = InList articles d ⊎ InLists lists d

  add_lists-Added :
      (titles : List J) (lists : List (Items Number))
      → Added (InLists lists) titles (add_lists p titles lists)
  unfolding add_lists
  add_lists-Added titles [] = nothing_new (InLists []) titles
  add_lists-Added titles (articles ∷ lists) =
      let next = add_articles p titles articles in
      one_by_one (InLists (articles ∷ lists)) (InList articles) (InLists lists) titles next
        (add_lists p next lists) (λ d q. inl q) (λ d q. inr q) (add_articles-Added titles articles)
        (add_lists-Added next lists)

  HasAll : List J → Items Number → Type 0
  HasAll titles articles = (d : Entries Number) → InList articles d → Has titles d

  add_lists-Has :
      (titles : List J) (lists : List (Items Number))
      → All (HasAll (add_lists p titles lists)) lists
  unfolding add_lists HasAll
  add_lists-Has titles [] = tt
  add_lists-Has titles (articles ∷ lists) =
      let next = add_articles p titles articles in
      (
        λ d q e.
            (add_lists-Added next lists).kept (title_of d) (add_articles-Has titles articles d q e),
        add_lists-Has next lists,
      )

  title_in :
      (answer : J) (lists : List (Items Number)) (d : Entries Number)
      → All (λ items. IsListOf items answer) lists
      → InLists lists d
      → is_true p (title_of d) ≡ true
      → IsTitleIn p answer (title_of d)
  title_in answer [] d h q e = elim q [ ]
  title_in answer (articles ∷ lists) d (h, hs) (inl q) e = record {
    articles = articles;
    article = d;
    is_list = h;
    is_item = q;
    is_title = IsTitleOf-title_of p d e;
    is_true = IsTrue-is_true p (title_of d) e;
  }
  title_in answer (articles ∷ lists) d (h, hs) (inr q) e = title_in answer lists d hs q e

  -- In whatever the news service answers: the title of a dictionary in a list that the answer is
  -- or has as a value is collected if Python takes it as true, by a value that is the same to
  -- Python.
  pub collected-IsAmong :
      (answer title : J) (articles : Items Number) (article : Entries Number)
      → IsListOf articles answer
      → IsItem (dictionary article) articles
      → IsTitleOf title article
      → IsTrue p title
      → IsAmong p title (collected p answer)
  unfolding collected HasAll
  collected-IsAmong answer title articles article l i t h =
      let found : Has (collected p answer) article =
        possible_lists-All (HasAll (collected p answer)) answer
          (add_lists-Has [] (possible_lists answer)) articles l article i in
      let same = get-IsTitleOf title article t in
      subst (λ (v : J). IsAmong p v (collected p answer)) same
        (IsAmong-is_in p (title_of article) (collected p answer)
          (found (ap (is_true p) same ∙ is_true-IsTrue p title h)))

  -- Whatever the news service answers, `news` collects nothing but titles of dictionaries in lists
  -- that the answer is or has as values, which Python takes as true, and no two of them are the
  -- same to Python.
  pub collected-IsTitleIn :
      (answer : J)
      → All (IsTitleIn p answer) (collected p answer) × IsDistinct p (collected p answer)
  unfolding collected
  collected-IsTitleIn answer =
      let lists = possible_lists answer in
      let h = add_lists-Added [] lists in
      (
        h.only (IsTitleIn p answer)
            (λ d q e. title_in answer lists d (possible_lists-IsListOf answer) q e) tt,
        h.distinct tt,
      )
