-- ===== src/OptionUtil.antt =====
-- `src/option_util.rs`: configuration values of zero, one or several items.
pub mod Views
use shoes_on_shuttle.Common.{
  Bool, true, false, ◌||◌, Option, none, some, List, [], ◌∷◌, map, if◌then◌else◌,
}

pub data NoneOrOne {ℓ} (T : Type ℓ) : Type ℓ where
  unspecified : NoneOrOne T
  nothing : NoneOrOne T
  one : T → NoneOrOne T

pub data NoneOrSome {ℓ} (T : Type ℓ) : Type ℓ where
  unspecified : NoneOrSome T
  nothing : NoneOrSome T
  one : T → NoneOrSome T
  several : List T → NoneOrSome T

pub data OneOrSome {ℓ} (T : Type ℓ) : Type ℓ where
  one : T → OneOrSome T
  several : List T → OneOrSome T

-- The items of a list that pass a test: `Iterator::filter`.
abbrev pub filtered {ℓ} : {T : Type ℓ} → (T → Bool) → List T → List T
filtered f [] = []
filtered f (x ∷ xs) = if f x then x ∷ filtered f xs else filtered f xs

abbrev pub is_unspecified {ℓ} : {T : Type ℓ} → NoneOrOne T → Bool
is_unspecified NoneOrOne.unspecified = true
is_unspecified _ = false

-- `into_option` and `as_option` of `NoneOrOne`.
abbrev pub to_option {ℓ} : {T : Type ℓ} → NoneOrOne T → Option T
to_option (NoneOrOne.one item) = some item
to_option _ = none

-- Where the two nothings differ: `into_option` of `NoneOrSome`.
unfoldable pub into_option {ℓ} : {T : Type ℓ} → NoneOrSome T → Option (List T)
into_option NoneOrSome.unspecified = none
into_option NoneOrSome.nothing = some []
into_option (NoneOrSome.one item) = some (item ∷ [])
into_option (NoneOrSome.several v) = some v

-- `into_vec`, and the items of `iter`, `iter_mut` and `into_iter`, which go over the same items.
unfoldable pub into_vec {ℓ} : {T : Type ℓ} → NoneOrSome T → List T
into_vec NoneOrSome.unspecified = []
into_vec NoneOrSome.nothing = []
into_vec (NoneOrSome.one item) = item ∷ []
into_vec (NoneOrSome.several v) = v

abbrev pub is_nil {ℓ} : {T : Type ℓ} → List T → Bool
is_nil [] = true
is_nil (x ∷ xs) = false

unfoldable pub is_empty {ℓ} : {T : Type ℓ} → NoneOrSome T → Bool
is_empty NoneOrSome.unspecified = true
is_empty NoneOrSome.nothing = true
is_empty (NoneOrSome.one item) = false
is_empty (NoneOrSome.several v) = is_nil v

-- `map` of `NoneOrSome`.
unfoldable pub map_some {ℓ κ} : {T : Type ℓ} {U : Type κ} → (T → U) → NoneOrSome T → NoneOrSome U
map_some f NoneOrSome.unspecified = NoneOrSome.unspecified
map_some f NoneOrSome.nothing = NoneOrSome.nothing
map_some f (NoneOrSome.one item) = NoneOrSome.one (f item)
map_some f (NoneOrSome.several v) = NoneOrSome.several (map f v)

abbrev of_filtered {ℓ} : {T : Type ℓ} → List T → NoneOrSome T
of_filtered [] = NoneOrSome.nothing
of_filtered (x ∷ xs) = NoneOrSome.several (x ∷ xs)

-- `filter` of `NoneOrSome`.
unfoldable pub filter_some {ℓ} : {T : Type ℓ} → (T → Bool) → NoneOrSome T → NoneOrSome T
filter_some f NoneOrSome.unspecified = NoneOrSome.unspecified
filter_some f NoneOrSome.nothing = NoneOrSome.nothing
filter_some f (NoneOrSome.one item) = if f item then NoneOrSome.one item else NoneOrSome.nothing
filter_some f (NoneOrSome.several v) = of_filtered (filtered f v)

-- `into_vec` of `OneOrSome`, and the items of `iter` and `iter_mut`.
unfoldable pub items {ℓ} : {T : Type ℓ} → OneOrSome T → List T
items (OneOrSome.one item) = item ∷ []
items (OneOrSome.several v) = v

-- `map` of `OneOrSome`.
unfoldable pub map_one {ℓ κ} : {T : Type ℓ} {U : Type κ} → (T → U) → OneOrSome T → OneOrSome U
map_one f (OneOrSome.one item) = OneOrSome.one (f item)
map_one f (OneOrSome.several v) = OneOrSome.several (map f v)

abbrev pub any_equal {ℓ} : {T : Type ℓ} → (T → T → Bool) → T → List T → Bool
any_equal eq x [] = false
any_equal eq x (y ∷ ys) = eq y x || any_equal eq x ys

-- `contains` of `OneOrSome`, with the equality of the items.
unfoldable pub contains {ℓ} : {T : Type ℓ} → (T → T → Bool) → OneOrSome T → T → Bool
contains eq (OneOrSome.one item) x = eq item x
contains eq (OneOrSome.several v) x = any_equal eq x v
