-- ===== src/Syscalls/Words.antt =====
-- The words that carry arguments and results give back what was put into them.
use ikt104_eksamen_oppgave.Base.{
  ℕ, ◌+◌, ◌-◌, ◌*◌, ◌/◌, ◌%◌, ◌<◌, ◌≤◌, ◌≡◌, ap, ◌∙◌, arith, ℤ, pos, negsuc, pos_part, neg_part,
  ltb, if◌then◌else◌,
}
use ikt104_eksamen_oppgave.Syscalls.{word_of_int, int_of_word, word_of_int64, split_lo, split_hi}

-- An `int`, and a count of ticks of 64 bits.
abbrev pub IsInt : ℤ → Type 0
IsInt z = (pos_part z < 2147483648) × (neg_part z ≤ 2147483648)

abbrev pub IsTicks : ℤ → Type 0
IsTicks z = (pos_part z < 9223372036854775808) × (neg_part z ≤ 9223372036854775808)

-- The ticks in two words, as the kernel's side of the union reads them.
unfoldable pub ticks_of_word : ℕ → ℤ
ticks_of_word w = if ltb w 9223372036854775808 then pos w else negsuc (18446744073709551615 - w)

abbrev pub timeout_of_words : ℕ → ℕ → ℤ
timeout_of_words lo hi = ticks_of_word (lo + 4294967296 * hi)

pub int_of_word-word_of_int : (z : ℤ) → IsInt z → int_of_word (word_of_int z) ≡ z
unfolding int_of_word word_of_int
int_of_word-word_of_int (pos n) h = ground arith
int_of_word-word_of_int (negsuc n) h = ground arith

ticks_of_word-word_of_int64 : (z : ℤ) → IsTicks z → ticks_of_word (word_of_int64 z) ≡ z
unfolding ticks_of_word word_of_int64
ticks_of_word-word_of_int64 (pos n) h = ground arith
ticks_of_word-word_of_int64 (negsuc n) h = ground arith

join : (w : ℕ) → w % 4294967296 + 4294967296 * (w / 4294967296) ≡ w
join w = omega arith

pub timeout_of_words-split : (z : ℤ) → IsTicks z → timeout_of_words (split_lo z) (split_hi z) ≡ z
unfolding split_lo split_hi
timeout_of_words-split z h =
    ap ticks_of_word (join (word_of_int64 z)) ∙ ticks_of_word-word_of_int64 z h

pub mod_union : (v rest range : ℕ) → v < range → (v + range * rest) % range ≡ v
mod_union v rest range h = grind arith
