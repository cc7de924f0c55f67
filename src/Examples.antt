-- ===== src/Examples.antt =====
-- The programs under examples/, and what they share of the standard library.
pub mod EchoServer
pub mod EchoClient
mod Tests
use websockets.Prelude.{
  ℕ, ◌+◌, ◌-◌, ◌*◌, ◌%◌, ◌^◌, ◌≡◌, refl, Bool, true, false, ◌||◌, ◌&&◌, Option, none, some, List,
  [], ◌∷◌, ◌==◌, if◌then◌else◌, ltb, leb,
}
use websockets.Text.{Text, codes}

-- A piece that is written to a stream.
pub data Output : Type 0 where
  words : Text → Output
  number : ℕ → Output
  flag : Bool → Output

abbrev is_space : ℕ → Bool
is_space c = c == 32 || (leb 9 c && leb c 13)

abbrev is_digit : ℕ → Bool
is_digit c = leb 48 c && leb c 57

-- The number of the digits at the front, if there is one.
digits : Option ℕ → Text → Option ℕ
digits read [] = read
digits none (c ∷ rest) = if is_digit c then digits (some (c - 48)) rest else none
digits (some n) (c ∷ rest) = if is_digit c then digits (some (n * 10 + (c - 48))) rest else some n

abbrev in_range : (ℕ → ℕ) → Option ℕ → Option ℕ
in_range sign none = none
in_range sign (some n) = if ltb n (2 ^ 64) then some (sign n) else none

abbrev negated : ℕ → ℕ
negated n = (2 ^ 64 - n) % 2 ^ 64

-- `std::stoul` with base 10 on an unsigned long of 64 bits; `none` is an exception.
pub stoul : Text → Option ℕ
unfolding digits
stoul [] = none
stoul (c ∷ rest) =
    let trimmed = stoul rest in
    if is_space c
    then trimmed
    else if c == 45
    then in_range negated (digits none rest)
    else if c == 43
    then in_range (λ n. n) (digits none rest)
    else in_range (λ n. n) (digits none (c ∷ rest))
