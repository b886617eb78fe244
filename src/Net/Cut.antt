-- ===== src/Net/Cut.antt =====
-- Texts that are cut in two: what is found in the first part, and where the parts end.
use mathlib.Core.List.{head-eq_of_cons-eq, tail-eq_of_cons-eq}
use ikt104_eksamen_oppgave.Base.{
  ℕ, zero, suc, ◌≤◌, ◌≡◌, refl, sym, ap, ◌∙◌, arith, true, false, ◌&&◌, Bool-cases, inl, inr,
  Option, none, some, [], ◌∷◌, ◌++◌, ◌==◌, Bytes, length, length-append, strstr, starts_with, All,
}
use ikt104_eksamen_oppgave.Net.{c_string}

-- A word that fits into the beginning is found there or not at all.
starts_with-append :
    (text rest word : Bytes)
    → length word ≤ length text
    → starts_with (text ++ rest) word ≡ starts_with text word
unfolding starts_with
starts_with-append text rest [] h = refl
starts_with-append [] rest (w ∷ word) h = absurd (omega arith)
starts_with-append (c ∷ text) rest (w ∷ word) h =
    ap (λ b. c == w && b) (starts_with-append text rest word (omega arith))

length_of_starts_with :
    (text word : Bytes) → starts_with text word ≡ true → length word ≤ length text
unfolding starts_with
length_of_starts_with text [] h = omega arith
length_of_starts_with [] (w ∷ word) h = ground arith
length_of_starts_with (c ∷ text) (w ∷ word) h = elim (Bool-cases (starts_with text word)) [
  | inl e ↦ omega (arith, length_of_starts_with text word e)
  | inr e ↦ ground arith
]

abbrev value_or : Bytes → Option Bytes → Bytes
value_or d none = d
value_or d (some text) = text

pub some_injective : {xs ys : Bytes} → some xs ≡ some ys → xs ≡ ys
some_injective e = ap (value_or []) e

strstr_here :
    (c : ℕ) (text word : Bytes)
    → starts_with (c ∷ text) word ≡ true
    → strstr (c ∷ text) word ≡ some (c ∷ text)
unfolding strstr
strstr_here c text word e = rw e refl

strstr_later :
    (c : ℕ) (text word : Bytes)
    → starts_with (c ∷ text) word ≡ false
    → strstr (c ∷ text) word ≡ strstr text word
unfolding strstr
strstr_later c text word e = rw e refl

-- What is found is a rest of the text that has room for the word.
pub strstr-length :
    (text word rest : Bytes)
    → strstr text word ≡ some rest
    → (length word ≤ length rest) × (length rest ≤ length text)
strstr-length [] [] rest h =
    let same : length rest ≡ 0 =
      unfold strstr in unfold starts_with in ap length (sym (some_injective h)) in
    omega (arith, same)
strstr-length [] (w ∷ word) rest h = absurd (unfold strstr in unfold starts_with in ground arith)
strstr-length (c ∷ text) word rest h = elim (Bool-cases (starts_with (c ∷ text) word)) [
  | inl e ↦
      let same = ap length (some_injective (sym (strstr_here c text word e) ∙ h)) in
      omega (arith, same, length_of_starts_with (c ∷ text) word e)
  | inr e ↦ omega (arith, strstr-length text word rest (sym (strstr_later c text word e) ∙ h))
]

strstr-nil : (text : Bytes) → strstr text [] ≡ some text
unfolding strstr starts_with
strstr-nil [] = refl
strstr-nil (c ∷ text) = refl

-- What is found in the beginning is found in the whole, at the same place.
pub strstr-append :
    (text rest word found : Bytes)
    → strstr text word ≡ some found
    → strstr (text ++ rest) word ≡ some (found ++ rest)
strstr-append [] rest [] found h =
    strstr-nil rest ∙ ap (λ t. some (t ++ rest)) (some_injective (sym (strstr-nil []) ∙ h))
strstr-append [] rest (w ∷ word) found h =
    absurd (unfold strstr in unfold starts_with in ground arith)
strstr-append (c ∷ text) rest word found h = elim (Bool-cases (starts_with (c ∷ text) word)) [
  | inl e ↦
      let room = length_of_starts_with (c ∷ text) word e in
      strstr_here c (text ++ rest) word (starts_with-append (c ∷ text) rest word room ∙ e)
      ∙ ap (λ t. some (t ++ rest)) (some_injective (sym (strstr_here c text word e) ∙ h))
  | inr e ↦
      let later = sym (strstr_later c text word e) ∙ h in
      let room = strstr-length text word found later in
      strstr_later c (text ++ rest) word
        (starts_with-append (c ∷ text) rest word (omega (arith, room)) ∙ e)
      ∙ strstr-append text rest word found later
]

pub c_string-same :
    (left : ℕ) (text : Bytes) → 1 ≤ left → All (λ c. 1 ≤ c) text → c_string left text ≡ some text
unfolding c_string
c_string-same zero text h n = absurd (omega arith)
c_string-same (suc left) [] h n = refl
c_string-same (suc left) (c ∷ text) h (n, ns) =
    rw (not_nul, c_string-same (suc left) text h ns) refl
  where
    not_nul : (c == 0) ≡ false
    not_nul = ground arith

-- Two ways to cut a list in two.
pub split_at :
    (xs ys us vs : Bytes)
    → xs ++ ys ≡ us ++ vs
    → length us ≤ length xs
    → (mid : Bytes) × (xs ≡ us ++ mid) × (mid ++ ys ≡ vs)
split_at xs ys [] vs e h = (xs, refl, e)
split_at [] ys (u ∷ us) vs e h = absurd (omega arith)
split_at (x ∷ xs) ys (u ∷ us) vs e h =
    let (mid, same, rest) = split_at xs ys us vs (tail-eq_of_cons-eq e) (omega arith) in
    (mid, (λ i. head-eq_of_cons-eq e i ∷ same i), rest)

-- A text whose second part is shorter than `line` has the end of the line in the first.
pub split_line :
    (xs ys key number line : Bytes) (c : ℕ)
    → xs ++ ys ≡ key ++ (number ++ c ∷ line)
    → length ys ≤ length line
    → (mid : Bytes) × (xs ≡ key ++ (number ++ c ∷ mid))
split_line xs ys key number line c e short =
    let l₁ = sym (length-append xs ys) ∙ ap length e ∙ length-append key (number ++ c ∷ line) in
    let l₂ = length-append number (c ∷ line) in
    let (a, ea, ra) = split_at xs ys key (number ++ c ∷ line) e (omega (arith, l₁, l₂)) in
    let l₃ = ap length ea ∙ length-append key a in
    let (b, eb, rb) = split_at a ys number (c ∷ line) ra (omega (arith, l₁, l₂, l₃)) in
    let l₄ = ap length eb ∙ length-append number b in
    let (mid, ec, rc) = split_at b ys (c ∷ []) line rb (omega (arith, l₁, l₂, l₃, l₄)) in
    (mid, ea ∙ ap (λ t. key ++ t) (eb ∙ ap (λ t. number ++ t) ec))
