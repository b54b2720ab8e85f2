-- ===== src/Json.antt =====
-- JSON values, as Python's `json` module reads them, with the comparisons that the runtime makes
-- on them (`==`, `<`, `in`). Floats are left out: a number is an `int`.
pub mod Text
pub mod Redact
pub mod Dict
mod Tests
use general_agent_platform.Base.{
  ℕ, suc, String, Bool, true, false, ◌&&◌, ◌||◌, Option, none, some, ◌==◌, if◌then◌else◌, str_eq,
}
use general_agent_platform.Base.Int.{ℤ, pos, ltb_ℤ, eq_ℤ}
use general_agent_platform.Json.Text.{text_lt, is_infix}

mutual
  pub data Value : Type 0 where
    null : Value
    boolean : Bool → Value
    number : ℤ → Value
    text : String → Value
    array : Items → Value
    object : Fields → Value

  pub data Items : Type 0 where
    nil : Items
    cons : Value → Items → Items

  -- A dict in insertion order.
  pub data Fields : Type 0 where
    end : Fields
    field : String → Value → Fields → Fields

-- `d.get(k)`, with `none` for a key that is absent
abbrev pub get : String → Fields → Option Value
get k end = none
get k (field j v fs) = if str_eq j k then some v else get k fs

-- `k in d`
abbrev pub has : String → Fields → Bool
has k fs = elim (get k fs) [ none ↦ false | some _ ↦ true ]

-- `d.get(k)` where an absent key reads as `None`
abbrev pub get_or_null : String → Fields → Value
get_or_null k fs = elim (get k fs) [ none ↦ null | some v ↦ v ]

abbrev pub size : Fields → ℕ
size end = 0
size (field k v fs) = suc (size fs)

-- `bool` is a subclass of `int`: `True` is 1.
abbrev pub as_number : Value → Option ℤ
as_number (boolean true) = some (pos 1)
as_number (boolean false) = some (pos 0)
as_number (number n) = some n
as_number _ = none

abbrev eq_number : ℤ → Option ℤ → Bool
eq_number m none = false
eq_number m (some n) = eq_ℤ m n

abbrev lt_number : ℤ → Option ℤ → Option Bool
lt_number m none = none
lt_number m (some n) = some (ltb_ℤ m n)

-- `left == right`; the order of the keys of a dict does not matter
unfoldable mutual
  pub value_eq : Value → Value → Bool
  value_eq null null = true
  value_eq null _ = false
  value_eq (boolean b) w = eq_number (if b then pos 1 else pos 0) (as_number w)
  value_eq (number n) w = eq_number n (as_number w)
  value_eq (text s) (text t) = str_eq s t
  value_eq (text s) _ = false
  value_eq (array xs) (array ys) = items_eq xs ys
  value_eq (array xs) _ = false
  value_eq (object fs) (object gs) = size fs == size gs && fields_in fs gs
  value_eq (object fs) _ = false

  pub items_eq : Items → Items → Bool
  items_eq nil nil = true
  items_eq nil (cons y ys) = false
  items_eq (cons x xs) nil = false
  items_eq (cons x xs) (cons y ys) = value_eq x y && items_eq xs ys

  -- every field of the first has an equal field in the second
  pub fields_in : Fields → Fields → Bool
  fields_in end gs = true
  fields_in (field k v fs) gs =
      elim (get k gs) [ none ↦ false | some w ↦ value_eq v w ] && fields_in fs gs

-- `left < right`; `none` is a `TypeError`
unfoldable mutual
  pub value_lt : Value → Value → Option Bool
  value_lt null _ = none
  value_lt (boolean b) w = lt_number (if b then pos 1 else pos 0) (as_number w)
  value_lt (number n) w = lt_number n (as_number w)
  value_lt (text s) (text t) = some (text_lt s t)
  value_lt (text s) _ = none
  value_lt (array xs) (array ys) = items_lt xs ys
  value_lt (array xs) _ = none
  value_lt (object fs) _ = none

  -- lists compare by their first elements that differ
  pub items_lt : Items → Items → Option Bool
  items_lt nil nil = some false
  items_lt nil (cons y ys) = some true
  items_lt (cons x xs) nil = some false
  items_lt (cons x xs) (cons y ys) = if value_eq x y then items_lt xs ys else value_lt x y

-- `right in items`
unfoldable pub item_in : Value → Items → Bool
item_in v nil = false
item_in v (cons x xs) = value_eq x v || item_in v xs

-- `right in left` for a container; `none` is a `TypeError`: a text holds only texts, and a dict
-- looks up only hashable keys
unfoldable pub value_in : Value → Value → Option Bool
unfolding item_in is_infix
value_in (text t) (text s) = some (is_infix t s)
value_in _ (text s) = none
value_in v (array xs) = some (item_in v xs)
value_in (text t) (object fs) = some (has t fs)
value_in (array ys) (object fs) = none
value_in (object gs) (object fs) = none
value_in _ (object fs) = some false
value_in _ _ = none

-- `isinstance(left, (str, list, tuple, set, dict))`
abbrev pub is_container : Value → Bool
is_container (text _) = true
is_container (array _) = true
is_container (object _) = true
is_container _ = false
