-- ===== src/OptionUtil/Views.antt =====
-- The values of `src/option_util.rs` seen as lists.
use shoes_on_shuttle.Common.{Bool, ◌≡◌, refl, arith, Option, none, some, List, [], map}
use shoes_on_shuttle.OptionUtil.{
  NoneOrSome, OneOrSome, filtered, into_vec, into_option, is_empty, is_nil, map_some, filter_some,
  items, map_one, contains, any_equal,
}

abbrev pub option_items {ℓ} : {T : Type ℓ} → Option (List T) → List T
option_items none = []
option_items (some v) = v

-- On the list of its items, `map_some` is the map of lists and `filter_some` their filter; `is_empty`
-- tests that list, and `into_option` gives it, none standing for the empty one.
pub NoneOrSome_views {ℓ κ} :
    {T : Type ℓ} {U : Type κ} (f : T → U) (p : T → Bool) (v : NoneOrSome T)
    → (into_vec (map_some f v) ≡ map f (into_vec v))
      × (into_vec (filter_some p v) ≡ filtered p (into_vec v))
      × (is_empty v ≡ is_nil (into_vec v))
      × (option_items (into_option v) ≡ into_vec v)
unfolding into_vec map_some filter_some is_empty into_option
NoneOrSome_views f p NoneOrSome.unspecified = (refl, refl, refl, refl)
NoneOrSome_views f p NoneOrSome.nothing = (refl, refl, refl, refl)
NoneOrSome_views f p (NoneOrSome.one item) = (refl, ground arith, refl, refl)
NoneOrSome_views f p (NoneOrSome.several v) = (refl, ground arith, refl, refl)

-- On the list of its items, `map_one` is the map of lists, and `contains` looks for an equal item in it.
pub OneOrSome_views {ℓ κ} :
    {T : Type ℓ} {U : Type κ} (f : T → U) (eq : T → T → Bool) (x : T) (v : OneOrSome T)
    → (items (map_one f v) ≡ map f (items v)) × (contains eq v x ≡ any_equal eq x (items v))
unfolding items map_one contains
OneOrSome_views f eq x (OneOrSome.one item) = (refl, ground arith)
OneOrSome_views f eq x (OneOrSome.several v) = (refl, refl)
