-- ===== src/Proxy/Answer.antt =====
-- What the answer of the news service holds, independent of how python_proxi/proxi.py looks through
-- it: of Titles it uses the form of the answer and Python's comparison alone.
use ikt104_eksamen_oppgave.Base.{◌≡◌, ◌≢◌, true, false, List, [], ◌∷◌, All, Bytes, codes}
use ikt104_eksamen_oppgave.Proxy.Titles.{
  Json, null, boolean, number, string, array, dictionary, Items, no_more, item, Entries, closed,
  entry, Values,
}

module _ {Number : Type 0} where
  -- A value of a dictionary.
  pub data IsValue (v : Json Number) : Entries Number → Type 0 where
    at_first : (key : Bytes) (more : Entries Number) → IsValue v (entry key v more)
    at_later :
        (key : Bytes) (w : Json Number) (more : Entries Number)
        → IsValue v more
        → IsValue v (entry key w more)

  -- A list of the answer: the answer itself, or a value of the dictionary that it is.
  pub data IsListOf (articles : Items Number) : Json Number → Type 0 where
    whole : IsListOf articles (array articles)
    value : (d : Entries Number) → IsValue (array articles) d → IsListOf articles (dictionary d)

  pub data IsItem (v : Json Number) : Items Number → Type 0 where
    is_first : (more : Items Number) → IsItem v (item v more)
    is_later : (w : Json Number) (more : Items Number) → IsItem v more → IsItem v (item w more)

  -- The value under the key `title`.
  pub data IsTitleOf (v : Json Number) : Entries Number → Type 0 where
    titled : (more : Entries Number) → IsTitleOf v (entry (codes "title") v more)
    titled_later :
        (key : Bytes) (w : Json Number) (more : Entries Number)
        → key ≢ codes "title"
        → IsTitleOf v more
        → IsTitleOf v (entry key w more)

  module _ (p : Values Number) where
    -- What Python takes as true: neither None nor False, zero or empty.
    abbrev pub IsTrue : Json Number → Type 0
    IsTrue null = ⊥
    IsTrue (boolean b) = b ≡ true
    IsTrue (number n) = p.is_zero n ≡ false
    IsTrue (string s) = s ≢ []
    IsTrue (array items) = items ≢ no_more
    IsTrue (dictionary d) = d ≢ closed

    -- A value that is the same to Python is in the list.
    pub data IsAmong (v : Json Number) : List (Json Number) → Type 0 where
      same_first :
          (x : Json Number) (xs : List (Json Number)) → p.same v x ≡ true → IsAmong v (x ∷ xs)
      same_later : (x : Json Number) (xs : List (Json Number)) → IsAmong v xs → IsAmong v (x ∷ xs)

    -- The true title of a dictionary in a list of the answer.
    pub record IsTitleIn (answer title : Json Number) : Type 0 where
      pub articles : Items Number
      pub article : Entries Number
      pub is_list : IsListOf articles answer
      pub is_item : IsItem (dictionary article) articles
      pub is_title : IsTitleOf title article
      pub is_true : IsTrue title

    -- No value stands behind one that is the same to Python.
    abbrev pub IsDistinct : List (Json Number) → Type 0
    IsDistinct [] = Unit
    IsDistinct (x ∷ xs) = All (λ y. p.same y x ≡ false) xs × IsDistinct xs
