-- ===== src/Base/Keys.antt =====
-- Sets of texts (node keys, permissions) as lists, with Python's `in` and `<=`.
use Prim.Native.Nat.{◌≤◌}
use Prim.Native.String.{String}
use mathlib.Core.Path.{◌≡◌, refl}
use mathlib.Core.Bool.{Bool, true, false, ◌||◌}
use mathlib.Core.List.{List, [], ◌∷◌, ◌++◌}
use native.Mathlib.Omega.{arith}
use text.Mathlib.TextEquality.{eq_iff}
pub use text.Mathlib.Text.{◌==◌ as str_eq}
use general_agent_platform.Base.Tests.{if◌then◌else◌}
use general_agent_platform.Base.Lists.{length, all}

-- `k in ks`
abbrev pub mem : String → List String → Bool
mem k [] = false
mem k (x ∷ xs) = str_eq k x || mem k xs

-- `set(xs) <= set(ys)`
abbrev pub subset : List String → List String → Bool
subset xs ys = all (λ x. mem x ys) xs

-- the elements of `set(xs)`
abbrev pub dedup : List String → List String
dedup [] = []
dedup (x ∷ xs) = let rest = dedup xs in if mem x xs then rest else x ∷ rest

-- No text is listed twice.
abbrev pub Distinct : List String → Type 0
Distinct [] = Unit
Distinct (x ∷ xs) = (mem x xs ≡ false) × Distinct xs

pub str_eq_refl : (k : String) → str_eq k k ≡ true
str_eq_refl k = (eq_iff k k).1 refl

pub mem-append : (k : String) (xs ys : List String) → mem k (xs ++ ys) ≡ (mem k xs || mem k ys)
mem-append k [] ys = refl
mem-append k (x ∷ xs) ys = ground (arith, mem-append k xs ys)

pub subset-append_right :
    (xs ys zs : List String) → subset xs ys ≡ true → subset xs (ys ++ zs) ≡ true
subset-append_right [] ys zs h = refl
subset-append_right (x ∷ xs) ys zs h =
    ground (arith, mem-append x ys zs, subset-append_right xs ys zs)

pub mem_of_subset :
    (k : String) (xs ys : List String) → subset xs ys ≡ true → mem k xs ≡ true → mem k ys ≡ true
mem_of_subset k [] ys h m = ground arith
mem_of_subset k (x ∷ xs) ys h m = ground (arith, eq_iff k x, mem_of_subset k xs ys)

pub length-dedup-le : (xs : List String) → length (dedup xs) ≤ length xs
length-dedup-le [] = omega arith
length-dedup-le (x ∷ xs) = ground (arith, length-dedup-le xs)

-- `len(set(xs)) == len(xs)` says that nothing is listed twice.
pub Distinct-of_length-dedup : (xs : List String) → length (dedup xs) ≡ length xs → Distinct xs
Distinct-of_length-dedup [] h = tt
Distinct-of_length-dedup (x ∷ xs) h =
    ground (arith, length-dedup-le xs, Distinct-of_length-dedup xs)
