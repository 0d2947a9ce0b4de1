-- ===== src/Comparison/Differ/Keys.antt =====
-- The keys that a comparison of two objects visits.
use spectre.Prelude.{
  ◌≡◌, refl, not, ◌||◌, List, [], ◌∷◌, ◌++◌, arith, Text, text_eq, ◌==◌, contains, contains-append,
  contains-select, select, is_some,
}
use spectre.Prelude.Assoc.{lookup, keys}
use spectre.Comparison.Json.{Json}
use spectre.Comparison.Differ.{insert_sorted, sort, sorted_keys}

contains-insert_sorted :
    (a k : Text) (ks : List Text) → contains a (insert_sorted k ks) ≡ (k == a || contains a ks)
unfolding insert_sorted
contains-insert_sorted a k [] = refl
contains-insert_sorted a k (j ∷ js) = ground (arith, contains-insert_sorted a k js)

pub contains-sort : (a : Text) (ks : List Text) → contains a (sort ks) ≡ contains a ks
unfolding sort
contains-sort a [] = refl
contains-sort a (k ∷ ks) = ground (arith, contains-insert_sorted a k (sort ks), contains-sort a ks)

pub contains-keys : (a : Text) (m : List (Text × Json)) → contains a (keys m) ≡ is_some (lookup a m)
unfolding lookup
contains-keys a [] = refl
contains-keys a ((k, v) ∷ m) = ground (arith, contains-keys a m)

-- Each key of either object is visited, and no other.
pub contains-sorted_keys :
    (a : Text) (m n : List (Text × Json))
    → contains a (sorted_keys m n) ≡ (is_some (lookup a m) || is_some (lookup a n))
unfolding sorted_keys
contains-sorted_keys a m n = ground (
  arith,
  contains-sort a (keys m ++ select (λ k. not (contains k (keys m))) (keys n)),
  contains-append a (keys m) (select (λ k. not (contains k (keys m))) (keys n)),
  contains-select (λ k. not (contains k (keys m))) a (keys n),
  contains-keys a m,
  contains-keys a n,
)
