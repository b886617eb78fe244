-- ===== src/Net/Response.antt =====
-- A round of the receiving loop on the first part of a response that says how long it is.
use mathlib.Core.Path.{subst}
use mathlib.Core.List.{append-nil, cons≢nil}
use ikt104_eksamen_oppgave.Base.{
  ℕ, suc, ◌+◌, ◌≤◌, ℤ, pos, negsuc, ltb_ℤ, ◌≡◌, ◌≢◌, ◌⊎◌, refl, sym, ap, ◌∙◌, arith, false, inl,
  inr, Option, none, some, [], ◌∷◌, ◌++◌, Bytes, length, length-append, strstr, drop, All, decimal,
}
use ikt104_eksamen_oppgave.Net.{
  Recv, Next, break, again, after_copy, look_for_length, look_for_end, store_length, test_total,
  int_max, header_size, atoi, header_end, length_key,
}
use ikt104_eksamen_oppgave.Net.Cut.{some_injective, strstr-length, strstr-append, split_line}
use ikt104_eksamen_oppgave.Net.Digits.{atoi-decimal}

-- A response whose header says that its body has `n` bytes, which it has. Behind the first
-- "Content-Length: " stand the number and the end of its line, in front of the header's end or at
-- it.
pub record IsResponse (n : ℕ) (text : Bytes) : Type 0 where
  pub no_nul : All (λ c. 1 ≤ c) text
  pub line : Bytes
  pub number_found : strstr text length_key ≡ some (length_key ++ (decimal n ++ b'\r' ∷ line))
  pub rest : Bytes
  pub end_found : strstr text header_end ≡ some rest
  pub number_before : length rest ≤ suc (length line)
  pub body : length rest ≡ 4 + n

none-some : {t : Bytes} → none ≢ some t
none-some e = ground arith

-- The outcome of a round behind which `left` is still to come.
abbrev pub at_end : Bytes → Recv → Next
at_end [] s = break s
at_end (c ∷ left) s = again s

-- What `content_length` may hold on the way.
abbrev pub Known : ℕ → ℤ → Type 0
Known n z = (z ≡ negsuc 0) ⊎ (z ≡ pos n)

not_negative : (n : ℕ) → ltb_ℤ (pos n) (pos 0) ≡ false
not_negative n = ground arith

tested :
    (n h : ℕ) (first left text : Bytes)
    → length text ≤ int_max
    → h + n ≡ length text
    → length first + length left ≡ length text
    → test_total h (record { received = first; content_length = pos n })
      ≡ at_end left (record { received = first; content_length = pos n })
unfolding test_total
tested n h first [] text fits e₁ e₂ = ground arith
tested n h first (c ∷ left) text fits e₁ e₂ = ground arith

module _ (n : ℕ) (text : Bytes) (r : IsResponse n text) where
  module _ (first left : Bytes) (cut : first ++ left ≡ text) where
    pub lengths : length first + length left ≡ length text
    lengths = sym (length-append first left) ∙ ap length cut

    -- The header's end, found in the first part.
    end_in_first : (found : Bytes) → strstr first header_end ≡ some found → found ++ left ≡ r.rest
    end_in_first found e = some_injective (
        sym (strstr-append first left header_end found e)
        ∙ ap (λ t. strstr t header_end) cut
        ∙ r.end_found)

    size_in_first :
        (found : Bytes)
        → strstr first header_end ≡ some found
        → header_size first found + n ≡ length text
    size_in_first found e = omega (
      arith,
      lengths,
      strstr-length first header_end found e,
      sym (length-append found left) ∙ ap length (end_in_first found e),
      r.body,
    )

    -- The number, found in the first part with the header's end.
    number_in_first :
        (cl found : Bytes)
        → n ≤ int_max
        → strstr first length_key ≡ some cl
        → strstr first header_end ≡ some found
        → atoi (drop 16 cl) ≡ some (pos n)
    number_in_first cl found fits ecl e =
        let whole : cl ++ left ≡ length_key ++ (decimal n ++ b'\r' ∷ r.line) = some_injective (
          sym (strstr-append first left length_key cl ecl)
          ∙ ap (λ t. strstr t length_key) cut
          ∙ r.number_found) in
        let behind = sym (length-append found left) ∙ ap length (end_in_first found e) in
        let (mid, same) =
          split_line cl left length_key (decimal n) r.line b'\r' whole
            (omega (arith, behind, strstr-length first header_end found e, r.number_before)) in
        ap (λ t. atoi (drop 16 t)) same ∙ atoi-decimal n mid fits

    -- How a round ends: what is received is the first part, and the loop goes on if there is more.
    unfoldable pub Outcome : Next → Type 0
    Outcome o =
        (z : ℤ) × Known n z
        × (o ≡ at_end left (record { received = first; content_length = z }))
        × (left ≡ [] → z ≡ pos n)

    -- With something still to be found, there is more.
    missing_lem :
        (word found : Bytes) (s : Recv)
        → strstr first word ≡ none
        → strstr text word ≡ some found
        → (left ≢ []) × (again s ≡ at_end left s)
    missing_lem word found s e whole = go left cut
      where
        go : (l : Bytes) → first ++ l ≡ text → (l ≢ []) × (again s ≡ at_end l s)
        go [] c =
            absurd
              (none-some (sym e ∙ ap (λ t. strstr t word) (sym (append-nil first) ∙ c) ∙ whole))
        go (b ∷ l) c = (cons≢nil, refl)

    missing-Outcome :
        (word found : Bytes) (z : ℤ)
        → Known n z
        → strstr first word ≡ none
        → strstr text word ≡ some found
        → Outcome (again (record { received = first; content_length = z }))
    unfolding Outcome
    missing-Outcome word found z k e whole =
        let m = missing_lem word found (record { received = first; content_length = z }) e whole in
        (z, k, m.1, λ none_left. absurd (m.0 none_left))

    tested-Outcome :
        (found : Bytes)
        → length text ≤ int_max
        → strstr first header_end ≡ some found
        → Outcome (
            test_total
              (header_size first found)
              (record { received = first; content_length = pos n }))
    unfolding Outcome
    tested-Outcome found fits e = (
      pos n,
      inr refl,
      tested n (header_size first found) first left text fits (size_in_first found e) lengths,
      λ h. refl,
    )

    -- The round behind the copy, in the branch without a length and in the one with it.
    first_Outcome :
        (cl found : Option Bytes)
        → length text ≤ int_max
        → strstr first length_key ≡ cl
        → strstr first header_end ≡ found
        → Outcome (
            look_for_length first cl found (record { received = first; content_length = negsuc 0 }))
    unfolding look_for_length store_length
    first_Outcome (some cl) (some found) fits ecl e =
        subst
          (λ o. Outcome (
            store_length (header_size first found) o
              (record { received = first; content_length = negsuc 0 })))
          (sym (
            number_in_first cl found
              (omega (arith, r.body, strstr-length text header_end r.rest r.end_found)) ecl e))
          (tested-Outcome found fits e)
    first_Outcome (some cl) none fits ecl e =
        missing-Outcome header_end r.rest (negsuc 0) (inl refl) e r.end_found
    first_Outcome none found fits ecl e =
        missing-Outcome length_key (length_key ++ (decimal n ++ b'\r' ∷ r.line)) (negsuc 0)
          (inl refl) ecl r.number_found

    next_Outcome :
        (found : Option Bytes)
        → length text ≤ int_max
        → strstr first header_end ≡ found
        → Outcome (look_for_end first found (record { received = first; content_length = pos n }))
    unfolding look_for_end
    next_Outcome (some found) fits e = tested-Outcome found fits e
    next_Outcome none fits e = missing-Outcome header_end r.rest (pos n) (inr refl) e r.end_found

    pub copied-Outcome :
        (z : ℤ)
        → length text ≤ int_max
        → Known n z
        → Outcome (after_copy (some first) (record { received = first; content_length = z }))
    unfolding after_copy
    copied-Outcome z fits (inl e) =
        subst
          (λ z. Outcome (after_copy (some first) (record { received = first; content_length = z })))
          (sym e) (first_Outcome (strstr first length_key) (strstr first header_end) fits refl refl)
    copied-Outcome z fits (inr e) =
        subst
          (λ z. Outcome (after_copy (some first) (record { received = first; content_length = z })))
          (sym e) (rw (not_negative n) (next_Outcome (strstr first header_end) fits refl))
