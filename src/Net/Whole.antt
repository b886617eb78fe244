-- ===== src/Net/Whole.antt =====
-- A response that says how long it is is received whole, however it is cut into pieces.
use mathlib.Core.Path.{subst}
use mathlib.Core.List.{append_assoc, append-nil}
use ikt104_eksamen_oppgave.Base.{
  ℕ, ◌+◌, ◌-◌, ◌<◌, ◌≤◌, pos, ◌≡◌, refl, sym, ap, ◌∙◌, arith, true, false, inl, List, [], ◌∷◌, ◌++◌,
  ltb, Bytes, length, length-append, All,
}
use ikt104_eksamen_oppgave.Net.{
  Event, recv_bytes, Recv, total, Next, break, recv_loop, recv_round, copy_chunk, int_max,
  header_end, no_bytes,
}
use ikt104_eksamen_oppgave.Net.Cut.{strstr-length, c_string-same}
use ikt104_eksamen_oppgave.Net.Bounds.{recv_loop_step, rest_of_loop}
use ikt104_eksamen_oppgave.Net.Response.{IsResponse, Known, lengths, Outcome, copied-Outcome}

-- A piece that `recv` returns has a first byte.
abbrev pub Piece : Type 0
Piece = ℕ × Bytes

abbrev pub arrivals : List Piece → List Event
arrivals [] = []
arrivals ((c, chunk) ∷ pieces) = recv_bytes (c ∷ chunk) ∷ arrivals pieces

abbrev pub joined : List Piece → Bytes
joined [] = []
joined ((c, chunk) ∷ pieces) = c ∷ (chunk ++ joined pieces)

not_past : (size m : ℕ) → m < size → ltb size m ≡ false
not_past size m h = ground arith

going_on : (m k : ℕ) → m < k → ltb m k ≡ true
going_on m k h = ground arith

All-first : (P : ℕ → Type 0) (xs ys : Bytes) → All P (xs ++ ys) → All P xs
All-first P [] ys h = tt
All-first P (x ∷ xs) ys (h, hs) = (h, All-first P xs ys hs)

module _ (size n : ℕ) (text : Bytes) (r : IsResponse n text) (room : length text < size)
    (small : length text ≤ int_max) where
  copy_chunk-Outcome :
      (chunk left : Bytes) (s : Recv)
      → ((cut : (s.received ++ chunk) ++ left ≡ text)
          → Known n s.content_length
          → Outcome n text r (s.received ++ chunk) left cut (copy_chunk size chunk s))
  unfolding copy_chunk
  copy_chunk-Outcome chunk left s cut known =
      let l₁ = lengths n text r (s.received ++ chunk) left cut in
      let l₂ = length-append s.received chunk in
      let fits : ltb size (total s + length chunk) ≡ false =
        not_past size (total s + length chunk) (omega (arith, l₁, l₂)) in
      let string =
        c_string-same (size - (total s + length chunk)) (s.received ++ chunk)
          (omega (arith, l₁, l₂))
          (All-first (λ c. 1 ≤ c) (s.received ++ chunk) left
            (subst (All (λ c. 1 ≤ c)) (sym cut) r.no_nul)) in
      rw (fits, string)
        (copied-Outcome n text r (s.received ++ chunk) left cut s.content_length small known)

  -- A round of the loop whose outcome is known.
  stepped :
      (c : ℕ) (chunk : Bytes) (es : List Event) (s : Recv) (o : Next)
      → total s < size - 1
      → copy_chunk size (c ∷ chunk) s ≡ o
      → recv_loop size (recv_bytes (c ∷ chunk) ∷ es) s ≡ rest_of_loop size es o
  unfolding recv_round
  stepped c chunk es s o h e =
      recv_loop_step size (recv_bytes (c ∷ chunk)) es s
      ∙ rw (going_on (total s) (size - 1) h) (ap (rest_of_loop size es) e)

  before_end :
      (c : ℕ) (chunk left : Bytes) (s : Recv)
      → (s.received ++ c ∷ chunk) ++ left ≡ text
      → total s < size - 1
  before_end c chunk left s cut = omega (
    arith,
    lengths n text r (s.received ++ c ∷ chunk) left cut,
    length-append s.received (c ∷ chunk),
  )

  loop_whole :
      (c : ℕ) (chunk : Bytes) (pieces : List Piece) (es : List Event) (s : Recv)
      → s.received ++ joined ((c, chunk) ∷ pieces) ≡ text
      → Known n s.content_length
      → recv_loop size (recv_bytes (c ∷ chunk) ∷ (arrivals pieces ++ es)) s
        ≡ break (record { received = text; content_length = pos n })
  unfolding Outcome
  loop_whole c chunk [] es s e known =
      let cut = append_assoc s.received (c ∷ chunk) [] ∙ e in
      let (z, k, o, last) = copy_chunk-Outcome (c ∷ chunk) [] s cut known in
      let same = sym (append-nil (s.received ++ c ∷ chunk)) ∙ cut in
      stepped c chunk es s _ (before_end c chunk [] s cut) o ∙ λ i.
      break (record { received = same i; content_length = last refl i })
  loop_whole c chunk ((d, next) ∷ pieces) es s e known =
      let cut = append_assoc s.received (c ∷ chunk) (joined ((d, next) ∷ pieces)) ∙ e in
      let (z, k, o, last) =
        copy_chunk-Outcome (c ∷ chunk) (joined ((d, next) ∷ pieces)) s cut known in
      stepped c chunk (arrivals ((d, next) ∷ pieces) ++ es) s _
        (before_end c chunk (joined ((d, next) ∷ pieces)) s cut) o
      ∙ loop_whole d next pieces es
          (record { received = s.received ++ c ∷ chunk; content_length = z }) cut k

-- A response whose header gives the length of its body, and which is shorter than the buffer, is
-- received whole, however it is cut into pieces and whatever would come behind it: the loop ends
-- with its last piece, and `content_length` is the body's length.
pub recv_loop-IsResponse :
    (size n : ℕ) (pieces : List Piece) (es : List Event)
    → IsResponse n (joined pieces)
    → length (joined pieces) < size
    → length (joined pieces) ≤ int_max
    → recv_loop size (arrivals pieces ++ es) no_bytes
      ≡ break (record { received = joined pieces; content_length = pos n })
recv_loop-IsResponse size n [] es r room small =
    absurd (omega (arith, r.body, strstr-length [] header_end r.rest r.end_found))
recv_loop-IsResponse size n ((c, chunk) ∷ pieces) es r room small =
    loop_whole size n (joined ((c, chunk) ∷ pieces)) r room small c chunk pieces es no_bytes refl
      (inl refl)
