-- ===== src/Proxy/Found.antt =====
-- Where `news` of python_proxi/proxi.py looks, and what it takes as true, against the description
-- of the answer.
use mathlib.Core.Path.{subst}
use ikt104_eksamen_oppgave.Base.{
  ◌≡◌, refl, sym, arith, true, Bool-cases, inl, inr, List, [], ◌∷◌, All, Bytes, codes, bytes_eq,
  bytes_eq_iff, ne_of_bytes_eq,
}
use ikt104_eksamen_oppgave.Proxy.Titles.{
  Json, null, boolean, number, string, array, dictionary, Items, no_more, item, Entries, closed,
  entry, Values, if_array, value_lists, possible_lists, get, is_true, is_in,
}
use ikt104_eksamen_oppgave.Proxy.Answer.{
  IsValue, at_first, at_later, IsListOf, whole, value, IsTitleOf, titled, titled_later, IsTrue,
  IsAmong, same_first, same_later,
}

module _ {Number : Type 0} where
  abbrev pub title_of : Entries Number → Json Number
  title_of d = get (codes "title") d

  -- The code's `get` finds the title.
  pub get-IsTitleOf : (v : Json Number) (d : Entries Number) → IsTitleOf v d → title_of d ≡ v
  unfolding get
  get-IsTitleOf v closed q = elim q [ ]
  get-IsTitleOf v (entry k w more) (titled _) =
      rw ((bytes_eq_iff (codes "title") (codes "title")).1 refl) refl
  get-IsTitleOf v (entry k w more) (titled_later _ _ _ other h) =
      elim (Bool-cases (bytes_eq k (codes "title"))) [
        | inl e ↦ absurd (other ((bytes_eq_iff k (codes "title")).0 e))
        | inr e ↦ rw e (get-IsTitleOf v more h)
      ]

  if_array-tail :
      (P : Items Number → Type 0) (w : Json Number) (rest : List (Items Number))
      → All P (if_array w rest)
      → All P rest
  unfolding if_array
  if_array-tail P (array items) rest h = h.1
  if_array-tail P null rest h = h
  if_array-tail P (boolean b) rest h = h
  if_array-tail P (number n) rest h = h
  if_array-tail P (string s) rest h = h
  if_array-tail P (dictionary d) rest h = h

  -- What holds of the lists that the code looks through holds of every list of the answer.
  value_lists-All :
      (P : Items Number → Type 0) (d : Entries Number)
      → All P (value_lists d)
      → (items : Items Number) → IsValue (array items) d
      → P items
  unfolding value_lists if_array
  value_lists-All P closed h items q = elim q [ ]
  value_lists-All P (entry k w more) h items (at_first _ _) = h.0
  value_lists-All P (entry k w more) h items (at_later _ _ _ q) =
      value_lists-All P more (if_array-tail P w (value_lists more) h) items q

  pub possible_lists-All :
      (P : Items Number → Type 0) (answer : Json Number)
      → All P (possible_lists answer)
      → (items : Items Number) → IsListOf items answer
      → P items
  unfolding possible_lists
  possible_lists-All P (array articles) h items whole = h.0
  possible_lists-All P null h items q = elim q [ ]
  possible_lists-All P (boolean b) h items q = elim q [ ]
  possible_lists-All P (number n) h items q = elim q [ ]
  possible_lists-All P (string s) h items q = elim q [ ]
  possible_lists-All P (dictionary d) h items (value _ q) = value_lists-All P d h items q

  -- The code looks through lists of the answer only.
  if_array-cons :
      (P : Items Number → Type 0) (w : Json Number) (rest : List (Items Number))
      → ((items : Items Number) → w ≡ array items → P items)
      → All P rest
      → All P (if_array w rest)
  unfolding if_array
  if_array-cons P (array items) rest f h = (f items refl, h)
  if_array-cons P null rest f h = h
  if_array-cons P (boolean b) rest f h = h
  if_array-cons P (number n) rest f h = h
  if_array-cons P (string s) rest f h = h
  if_array-cons P (dictionary d) rest f h = h

  value_lists-IsValue :
      (P : Items Number → Type 0) (d : Entries Number)
      → ((items : Items Number) → IsValue (array items) d → P items)
      → All P (value_lists d)
  unfolding value_lists
  value_lists-IsValue P closed f = tt
  value_lists-IsValue P (entry k w more) f =
      if_array-cons P w (value_lists more)
        (λ items e.
          f items (subst (λ (v : Json Number). IsValue v (entry k w more)) e (at_first k more)))
        (value_lists-IsValue P more (λ items q. f items (at_later k w more q)))

  pub possible_lists-IsListOf :
      (answer : Json Number) → All (λ items. IsListOf items answer) (possible_lists answer)
  unfolding possible_lists
  possible_lists-IsListOf (array items) = (whole, tt)
  possible_lists-IsListOf (dictionary d) =
      value_lists-IsValue (λ items. IsListOf items (dictionary d)) d (λ items q. value d q)
  possible_lists-IsListOf null = tt
  possible_lists-IsListOf (boolean b) = tt
  possible_lists-IsListOf (number n) = tt
  possible_lists-IsListOf (string s) = tt

module _ {Number : Type 0} (p : Values Number) where
  -- What it finds and takes as true is a title.
  pub IsTitleOf-title_of :
      (d : Entries Number) → is_true p (title_of d) ≡ true → IsTitleOf (title_of d) d
  unfolding get is_true
  IsTitleOf-title_of closed e = ground arith
  IsTitleOf-title_of (entry k w more) e = elim (Bool-cases (bytes_eq k (codes "title"))) [
    | inl h ↦ rw h (
        subst (λ (x : Bytes). IsTitleOf w (entry x w more))
          (sym ((bytes_eq_iff k (codes "title")).0 h)) (titled more))
    | inr h ↦ rw h (
        titled_later k w more (ne_of_bytes_eq k (codes "title") h)
          (IsTitleOf-title_of more (rw h at e)))
  ]

  pub is_true-IsTrue : (v : Json Number) → IsTrue p v → is_true p v ≡ true
  unfolding is_true
  is_true-IsTrue null h = elim h [ ]
  is_true-IsTrue (boolean b) h = h
  is_true-IsTrue (number n) h = rw h refl
  is_true-IsTrue (string []) h = absurd (h refl)
  is_true-IsTrue (string (c ∷ s)) h = refl
  is_true-IsTrue (array no_more) h = absurd (h refl)
  is_true-IsTrue (array (item v more)) h = refl
  is_true-IsTrue (dictionary closed) h = absurd (h refl)
  is_true-IsTrue (dictionary (entry k v more)) h = refl

  pub IsTrue-is_true : (v : Json Number) → is_true p v ≡ true → IsTrue p v
  unfolding is_true
  IsTrue-is_true null e = ground arith
  IsTrue-is_true (boolean b) e = e
  IsTrue-is_true (number n) e = ground arith
  IsTrue-is_true (string []) e = ground arith
  IsTrue-is_true (string (c ∷ s)) e = λ q. cc
  IsTrue-is_true (array no_more) e = ground arith
  IsTrue-is_true (array (item v more)) e = λ q. cc
  IsTrue-is_true (dictionary closed) e = ground arith
  IsTrue-is_true (dictionary (entry k v more)) e = λ q. cc

  pub IsAmong-is_in :
      (v : Json Number) (xs : List (Json Number)) → is_in p v xs ≡ true → IsAmong p v xs
  unfolding is_in
  IsAmong-is_in v [] e = ground arith
  IsAmong-is_in v (x ∷ xs) e = elim (Bool-cases (p.same v x)) [
    | inl h ↦ same_first x xs h
    | inr h ↦ same_later x xs (IsAmong-is_in v xs (rw h at e))
  ]
