-- ===== src/Text.antt =====
-- std::string as the list of its bytes, with the members that the sources call.
-- A position is a number; `npos` is `none`.
pub mod Laws
use Prim.Native.Char.{code}
use Prim.Native.String.{String}
use websockets.Prelude.{
  ℕ, suc, ◌+◌, ◌≡◌, Bool, true, false, ◌&&◌, Option, none, some, List, [], ◌∷◌, ◌==◌, if◌then◌else◌,
  length, take, drop,
}

abbrev pub Text : Type 0
Text = List ℕ

-- The bytes of an ASCII literal.
abbrev pub codes : String → Text
codes String.[] = []
codes (String.◌∷◌ c s) = code c ∷ codes s

-- `a == b` on std::string.
unfoldable pub text_eq : Text → Text → Bool
text_eq [] [] = true
text_eq (a ∷ s) (b ∷ t) = a == b && text_eq s t
text_eq _ _ = false

abbrev pub next : Option ℕ → Option ℕ
next none = none
next (some i) = some (suc i)

-- `s.find(c)`
unfoldable pub find : ℕ → Text → Option ℕ
find c [] = none
find c (x ∷ xs) = if x == c then some 0 else next (find c xs)

abbrev pub shift : ℕ → Option ℕ → Option ℕ
shift k none = none
shift k (some i) = some (k + i)

-- `s.find(c, start)`
unfoldable pub find_from : ℕ → Text → ℕ → Option ℕ
find_from c s start = shift start (find c (drop start s))

-- `s.substr(pos, count)` for `pos <= s.size()`
abbrev pub substr : Text → ℕ → ℕ → Text
substr s pos count = take count (drop pos s)
