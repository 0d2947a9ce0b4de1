-- ===== src/Comparison/Json/Laws.antt =====
-- Lookups into well-formed JSON, and what `reflect.DeepEqual` says of maps and slices.
use Prim.Native.Nat.{max}
use spectre.Prelude.{
  ℕ, zero, suc, ◌≤◌, ◌<◌, ◌≡◌, refl, Bool, true, false, ◌&&◌, ◌||◌, Option, none, some, arith, Text,
  text_eq, ◌==◌, eq_iff, eq_refl, length, get_elem?, is_some, Bool-cases, Option-cases, inl, inr,
}
use spectre.Prelude.Assoc.{lookup, IsMap, length-le_of_keys}
use spectre.Comparison.Json.{
  Json, null, list, object, Items, nil, cons, Members, end, member, elements, entries, deep_equal,
  equal_items, equal_members, depth, depth_items, depth_members, IsWell, WellItems, WellMembers,
}

-- Two values at one place, either of which may be absent, are the same.
unfoldable pub equal_optional : Option Json → Option Json → Bool
equal_optional none none = true
equal_optional (some a) (some b) = deep_equal a b
equal_optional _ _ = false

pub lookup-WellMembers :
    (k : Text) (v : Json) (ms : Members)
    → WellMembers ms
    → lookup k (entries ms) ≡ some v
    → IsWell v × (depth v ≤ depth_members ms)
unfolding lookup depth
lookup-WellMembers k v end w h = cc
lookup-WellMembers k v (member j u ms) w h = elim (Bool-cases (j == k)) [
  | inl here ↦ ground (arith, here)
  | inr there ↦
      let (well, le) = lookup-WellMembers k v ms w.1 (ground (arith, there)) in (well, omega arith)
]

pub get_elem?-WellItems :
    (i : ℕ) (v : Json) (xs : Items)
    → WellItems xs
    → get_elem? (elements xs) i ≡ some v
    → IsWell v × (depth v ≤ depth_items xs)
unfolding depth
get_elem?-WellItems i v nil w h = cc
get_elem?-WellItems zero v (cons x xs) w h = ground arith
get_elem?-WellItems (suc i) v (cons x xs) w h =
    let (well, le) = get_elem?-WellItems i v xs w.1 h in (well, omega arith)

equal_members-member :
    (k : Text) (v : Json) (ms ns : Members)
    → equal_members (member k v ms) ns
      ≡ (equal_optional (some v) (lookup k (entries ns)) && equal_members ms ns)
unfolding deep_equal equal_optional
equal_members-member k v ms ns = elim (Option-cases (lookup k (entries ns))) [
  | inl e ↦ rw (e, equal_members, equal_optional)
  | inr (w, e) ↦ rw (e, equal_members, equal_optional)
]

equal_members-end : (ns : Members) → equal_members end ns ≡ true
unfolding deep_equal
equal_members-end ns = refl

pub equal_members-of :
    (ms ns : Members)
    → IsMap (entries ms)
    → ((k : Text)
        → is_some (lookup k (entries ms)) ≡ true
        → equal_optional (lookup k (entries ms)) (lookup k (entries ns)) ≡ true)
    → equal_members ms ns ≡ true
unfolding lookup
equal_members-of end ns m same = equal_members-end ns
equal_members-of (member k v ms) ns m same =
    let rest = equal_members-of ms ns m.1 (λ j h. ground (arith, same j, eq_iff k j, m.0)) in
    ground (arith, equal_members-member k v ms ns, same k, eq_refl k, rest)

-- Two maps are equal if they agree at each key of either.
pub equal_object-of :
    (ms ns : Members)
    → IsMap (entries ms)
    → IsMap (entries ns)
    → ((k : Text)
        → (is_some (lookup k (entries ms)) || is_some (lookup k (entries ns))) ≡ true
        → equal_optional (lookup k (entries ms)) (lookup k (entries ns)) ≡ true)
    → deep_equal (object ms) (object ns) ≡ true
unfolding deep_equal equal_optional
equal_object-of ms ns m n same =
    let le = length-le_of_keys (entries ms) (entries ns) m n (λ k h. ground (arith, same k)) in
    let ge = length-le_of_keys (entries ns) (entries ms) n m (λ k h. ground (arith, same k)) in
    ground (arith, equal_members-of ms ns m (λ k h. same k (ground (arith, h))))

equal_items-of :
    (xs ys : Items)
    → ((i : ℕ)
        → i < max (length (elements xs)) (length (elements ys))
        → equal_optional (get_elem? (elements xs) i) (get_elem? (elements ys) i) ≡ true)
    → equal_items xs ys ≡ true
unfolding deep_equal equal_optional
equal_items-of nil nil same = refl
equal_items-of nil (cons y ys) same = absurd (ground (arith, same 0))
equal_items-of (cons x xs) nil same = absurd (ground (arith, same 0))
equal_items-of (cons x xs) (cons y ys) same =
    ground (arith, same 0, equal_items-of xs ys (λ i h. same (suc i) (omega arith)))

-- Two slices are equal if they agree at each index of either.
pub equal_list-of :
    (xs ys : Items)
    → ((i : ℕ)
        → i < max (length (elements xs)) (length (elements ys))
        → equal_optional (get_elem? (elements xs) i) (get_elem? (elements ys) i) ≡ true)
    → deep_equal (list xs) (list ys) ≡ true
unfolding deep_equal
equal_list-of xs ys same = equal_items-of xs ys same

pub deep_equal-null : deep_equal null null ≡ true
unfolding deep_equal
deep_equal-null = refl
