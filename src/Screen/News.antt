-- ===== src/Screen/News.antt =====
-- The screens of the news.
use mathlib.Core.List.{append_assoc, append-nil}
use ikt104_eksamen_oppgave.Base.{
  ℕ, zero, suc, ◌+◌, ◌≡◌, refl, sym, ap, ◌∙◌, arith, List, [], ◌∷◌, ◌++◌, ltb, Bool-cases, inl, inr,
  Bytes, length, take, drop, length-take-le, take_of_le, false, true, Bool, if◌then◌else◌, codes,
}
use ikt104_eksamen_oppgave.Screen.{Lines, title_screens, titles_screens, news_screens}

-- The second lines, one behind the other.
unfoldable pub second_lines : List Lines → Bytes
second_lines [] = []
second_lines ((line1, line2) ∷ screens) = line2 ++ second_lines screens

take_append_drop :
    (m n k : ℕ) (text : Bytes) → m + n ≡ k → take m text ++ take n (drop m text) ≡ take k text
take_append_drop zero n k text e = let same : n ≡ k = omega arith in ap (λ j. take j text) same
take_append_drop (suc m) n zero text e = absurd (omega arith)
take_append_drop (suc m) zero (suc k) [] e = refl
take_append_drop (suc m) (suc n) (suc k) [] e = refl
take_append_drop (suc m) n (suc k) (c ∷ text) e =
    ap (◌∷◌ c) (take_append_drop m n k text (omega arith))

take-take : (n : ℕ) (text : Bytes) → take n (take n text) ≡ take n text
take-take n text = take_of_le n (take n text) (length-take-le n text)

title_screens-take :
    (i count : ℕ) (title : Bytes) → second_lines (title_screens i count title) ≡ take 32 title
unfolding second_lines title_screens
title_screens-take i count title = elim (Bool-cases (ltb 16 (length title))) [
  | inl long ↦
      rw
        (
          long,
          take-take 16 title,
          take-take 16 (drop 16 title),
          append-nil (take 16 (drop 16 title)),
        )
        (take_append_drop 16 16 32 title refl)
  | inr short ↦
      rw
        (
          short,
          take-take 16 title,
          append-nil (take 16 title),
          take_of_le 16 title (ground arith),
          take_of_le 32 title (ground arith),
        )
        refl
]

-- The titles' texts as far as the screens have room for them.
unfoldable pub shown_titles : List Bytes → Bytes
shown_titles [] = []
shown_titles (t ∷ titles) = take 32 t ++ shown_titles titles

second_lines-append :
    (xs ys : List Lines) → second_lines (xs ++ ys) ≡ second_lines xs ++ second_lines ys
unfolding second_lines
second_lines-append [] ys = refl
second_lines-append ((line1, line2) ∷ xs) ys =
    ap (◌++◌ line2) (second_lines-append xs ys)
    ∙ sym (append_assoc line2 (second_lines xs) (second_lines ys))

abbrev is_nil : List Bytes → Bool
is_nil [] = true
is_nil (t ∷ titles) = false

titles_screens-shown :
    (i count : ℕ) (titles : List Bytes)
    → second_lines (titles_screens i count titles) ≡ shown_titles titles
unfolding second_lines titles_screens shown_titles
titles_screens-shown i count [] = refl
titles_screens-shown i count (t ∷ titles) =
    second_lines-append (title_screens i count t) (titles_screens (i + 1) count titles)
    ∙ (λ j. title_screens-take i count t j ++ titles_screens-shown (i + 1) count titles j)

-- The second lines of the news' screens, one behind the other, are the titles, each cut to its
-- first 32 characters: nothing is lost or repeated between the two screens of a long title. Before
-- there are news, the one screen's second line says so.
pub news_screens-shown :
    (titles : List Bytes)
    → second_lines (news_screens titles)
      ≡ (if is_nil titles then codes "No data yet" else shown_titles titles)
unfolding news_screens second_lines
news_screens-shown [] = refl
news_screens-shown (t ∷ titles) = titles_screens-shown 0 (length (t ∷ titles)) (t ∷ titles)
