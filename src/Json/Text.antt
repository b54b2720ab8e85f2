-- ===== src/Json/Text.antt =====
-- Texts as Python compares them: by code points.
use Prim.Native.Char.{code}
use Prim.Native.String.{String}
use general_agent_platform.Base.{
  ℕ, Bool, true, false, ◌&&◌, ◌||◌, List, [], ◌∷◌, ltb, ◌==◌, if◌then◌else◌, length,
}

-- the code points of a text
abbrev pub codes : String → List ℕ
codes String.[] = []
codes (String.◌∷◌ c s) = code c ∷ codes s

abbrev pub is_prefix : List ℕ → List ℕ → Bool
is_prefix [] ys = true
is_prefix (x ∷ xs) [] = false
is_prefix (x ∷ xs) (y ∷ ys) = x == y && is_prefix xs ys

abbrev pub is_sublist_at : List ℕ → List ℕ → Bool
is_sublist_at xs [] = is_prefix xs []
is_sublist_at xs (y ∷ ys) = is_prefix xs (y ∷ ys) || is_sublist_at xs ys

-- `t in s` for two texts
unfoldable pub is_infix : String → String → Bool
is_infix t s = is_sublist_at (codes t) (codes s)

abbrev pub codes_lt : List ℕ → List ℕ → Bool
codes_lt [] [] = false
codes_lt [] (y ∷ ys) = true
codes_lt (x ∷ xs) [] = false
codes_lt (x ∷ xs) (y ∷ ys) = if x == y then codes_lt xs ys else ltb x y

-- `s < t`
unfoldable pub text_lt : String → String → Bool
text_lt s t = codes_lt (codes s) (codes t)

-- `len(s)`
unfoldable pub text_length : String → ℕ
text_length s = length (codes s)
