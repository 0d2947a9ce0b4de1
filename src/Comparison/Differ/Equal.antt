-- ===== src/Comparison/Differ/Equal.antt =====
-- A comparison reports nothing exactly if the payloads are equal.
use Prim.Native.Nat.{max}
use spectre.Prelude.{
  ℕ, zero, suc, ◌+◌, ◌≤◌, ◌<◌, ◌≡◌, ◌↔◌, refl, true, false, Option, none, some, List, [], ◌∷◌,
  arith, Text, text_eq, eq_iff, ◌==◌, contains, length, leb, get_elem?, if◌then◌else◌, Bool-cases,
  Option-cases, inl, inr, ℕ_discrete,
}
use spectre.Prelude.Assoc.{lookup}
use spectre.Model.{Change, Retype}
use spectre.Schema.{Schema, Value}
use spectre.Comparison.Json.{
  Json, null, list, object, Items, Members, elements, entries, deep_equal, json_type, depth, IsWell,
  WellItems, WellMembers,
}
use spectre.Comparison.Json.Laws.{
  equal_optional, lookup-WellMembers, get_elem?-WellItems, deep_equal-null, equal_object-of,
  equal_list-of,
}
use spectre.Comparison.Path.{DocumentPath, ReportedPath, append_part, index}
use spectre.Comparison.Differ.{
  RawDifference, is_retyped, Differ, new_differ, max_differences, add_difference, add, member,
  list_element, sorted_keys, Comparer, diff_item, diff_keys, diff_indexes, diff_unequal, diff,
  collect, optional_depth,
}
use spectre.Comparison.Differ.Keys.{contains-sorted_keys}

-- Nothing has been reported.
pub record IsClean (d : Differ) : Type 0 where
  pub none_listed : d.differences ≡ []
  pub none_left_out : d.truncated ≡ false

add_difference-nonempty :
    (ds : List RawDifference) (path : ReportedPath) (change : Change) (retype : Option Retype)
    → ¬ (add_difference ds path change retype ≡ [])
unfolding add_difference
add_difference-nonempty [] path _ retype h = cc
add_difference-nonempty (d ∷ ds) path _ retype h = ground arith

add-unclean :
    (d : Differ) (path : ReportedPath) (change : Change) (r c : Json)
    → ¬ IsClean (add d path change r c)
unfolding add
add-unclean d path change r c v =
    let types : Retype = record { reference = json_type r; candidate = json_type c } in
    add_difference-nonempty d.differences path change
      (if is_retyped change then some types else none) v.none_listed

-- A value, if there is one, is well-formed and nests less deep than `n`.
abbrev pub WellBelow : ℕ → Option Json → Type 0
WellBelow n none = Unit
WellBelow n (some r) = IsWell r × (depth r < n)

abbrev pub WellOptional : Option Json → Type 0
WellOptional none = Unit
WellOptional (some c) = IsWell c

well-below :
    {n : ℕ} (k : Text) (ms : Members)
    → WellMembers ms
    → depth (object ms) ≤ n
    → WellBelow n (lookup k (entries ms))
unfolding depth
well-below {n} k ms w le = elim (Option-cases (lookup k (entries ms))) [
  | inl e ↦ rw e tt
  | inr (v, e) ↦ let (well, below) = lookup-WellMembers k v ms w e in rw e (well, omega arith)
]

well-optional : (k : Text) (ns : Members) → WellMembers ns → WellOptional (lookup k (entries ns))
well-optional k ns w = elim (Option-cases (lookup k (entries ns))) [
  | inl e ↦ rw e tt
  | inr (v, e) ↦ rw e (lookup-WellMembers k v ns w e).0
]

items-below :
    {n : ℕ} (i : ℕ) (xs : Items)
    → WellItems xs
    → depth (list xs) ≤ n
    → WellBelow n (get_elem? (elements xs) i)
unfolding depth
items-below {n} i xs w le = elim (Option-cases (get_elem? (elements xs) i)) [
  | inl e ↦ rw e tt
  | inr (v, e) ↦ let (well, below) = get_elem?-WellItems i v xs w e in rw e (well, omega arith)
]

items-optional : (i : ℕ) (ys : Items) → WellItems ys → WellOptional (get_elem? (elements ys) i)
items-optional i ys w = elim (Option-cases (get_elem? (elements ys) i)) [
  | inl e ↦ rw e tt
  | inr (v, e) ↦ rw e (get_elem?-WellItems i v ys w e).0
]

module _ (quote : Text → Text) (loaded : Option Schema) where
  abbrev Result : Differ → Option Json → Option Json → Type 0
  Result d r c = IsClean d × (equal_optional r c ≡ true)

  -- What a comparer of values nested less deep than `n` must satisfy.
  abbrev IsSound : ℕ → Comparer quote loaded → Type 0
  IsSound n rec =
      (d : Differ) (r c : Json) (p : DocumentPath) (v : Option Value)
      → IsWell r
      → (depth r < n)
      → IsWell c
      → IsClean (rec d r c p v)
      → IsClean d × (deep_equal r c ≡ true)

  module _ (n : ℕ) (rec : Comparer quote loaded) (sound : IsSound n rec) where
    item_sound :
        (0 < n)
        → (d : Differ) (r c : Option Json) (p : DocumentPath) (v : Option Value) → WellBelow n r
        → WellOptional c
        → IsClean (diff_item quote loaded rec d r c p v)
        → Result d r c
    unfolding diff_item equal_optional depth
    item_sound pos d none none p v wr wc h = ((sound d null null p v tt pos tt h).0, refl)
    item_sound pos d none (some c) p v wr wc h = absurd (add-unclean _ _ _ _ _ h)
    item_sound pos d (some r) none p v wr wc h = absurd (add-unclean _ _ _ _ _ h)
    item_sound pos d (some r) (some c) p v wr wc h = sound d r c p v wr.0 wr.1 wc h

    keys_sound :
        (0 < n)
        → (ks : List Text) (d : Differ) (ms ns : List (Text × Json)) (p : DocumentPath)
          (v : Option Value)
        → ((k : Text) → WellBelow n (lookup k ms))
        → ((k : Text) → WellOptional (lookup k ns))
        → IsClean (diff_keys quote loaded rec ks d ms ns p v)
        → IsClean d
          × ((k : Text) → contains k ks ≡ true → equal_optional (lookup k ms) (lookup k ns) ≡ true)
    unfolding diff_keys
    keys_sound pos [] d ms ns p v wm wn h = (h, λ k e. cc)
    keys_sound pos (j ∷ ks) d ms ns p v wm wn h =
        let (q, w) = member loaded p v j in
        let (clean, rest) = keys_sound pos ks _ ms ns p v wm wn h in
        let (before, here) = item_sound pos d (lookup j ms) (lookup j ns) q w (wm j) (wn j) clean in
        (
          before,
          λ k e. elim (Bool-cases (j == k)) [
            | inl same ↦ rw (← ((eq_iff j k).0 same)) here
            | inr other ↦ rest k (ground (arith, e, other))
          ],
        )

    indexes_sound :
        (0 < n)
        → (rounds i : ℕ) (d : Differ) (xs ys : List Json) (p : DocumentPath) (w : Option Value)
        → ((j : ℕ) → WellBelow n (get_elem? xs j))
        → ((j : ℕ) → WellOptional (get_elem? ys j))
        → IsClean (diff_indexes quote loaded rec rounds i d xs ys p w)
        → IsClean d
          × ((j : ℕ)
              → i ≤ j
              → j < i + rounds
              → equal_optional (get_elem? xs j) (get_elem? ys j) ≡ true)
    unfolding diff_indexes
    indexes_sound pos zero i d xs ys p w wx wy h = (h, λ j le lt. absurd (omega arith))
    indexes_sound pos (suc rounds) i d xs ys p w wx wy h =
        let (clean, rest) = indexes_sound pos rounds (suc i) _ xs ys p w wx wy h in
        let (before, here) =
          item_sound pos d (get_elem? xs i) (get_elem? ys i) (append_part p (index i)) w (wx i)
            (wy i) clean in
        (
          before,
          λ j le lt. elim (ℕ_discrete i j) [
            | yes same ↦ rw (← same) here
            | no other ↦ rest j (omega arith) (omega arith)
          ],
        )

    unequal_sound :
        (d : Differ) (r c : Json) (p : DocumentPath) (v : Option Value)
        → IsWell r
        → (depth r ≤ n)
        → IsWell c
        → IsClean (diff_unequal quote loaded rec d r c p v)
        → IsClean d × (deep_equal r c ≡ true)
    unfolding diff_unequal depth
    unequal_sound d (object ms) (object ns) p v wr le wc h =
        let (clean, same) =
          keys_sound (omega arith) (sorted_keys (entries ms) (entries ns)) d (entries ms)
            (entries ns) p v (λ k. well-below k ms wr.1 le) (λ k. well-optional k ns wc.1) h in
        (
          clean,
          equal_object-of ms ns wr.0 wc.0
              (λ k e. same k (ground (arith, e, contains-sorted_keys k (entries ms) (entries ns)))),
        )
    unequal_sound d (list xs) (list ys) p v wr le wc h =
        let (clean, same) =
          indexes_sound (omega arith) (max (length (elements xs)) (length (elements ys))) 0 d
            (elements xs) (elements ys) p (list_element v) (λ i. items-below i xs wr le)
            (λ i. items-optional i ys wc) h in
        (clean, equal_list-of xs ys (λ i lt. same i (omega arith) (omega arith)))
    unequal_sound d r c p v wr le wc h = absurd (add-unclean _ _ _ _ _ h)

  pub diff-IsSound : (fuel : ℕ) → IsSound fuel (diff quote loaded fuel)
  unfolding diff
  diff-IsSound zero d r c p v wr below wc h = absurd (omega arith)
  diff-IsSound (suc fuel) d r c p v wr below wc h =
      elim (Bool-cases (leb max_differences (length d.differences))) [
        | inl full ↦ absurd (ground (arith, full, h.none_listed))
        | inr room ↦ elim (Bool-cases (deep_equal r c)) [
          | inl same ↦ ground (arith, room, same)
          | inr other ↦
              unequal_sound fuel (diff quote loaded fuel) (diff-IsSound fuel) d r c p v wr
                (omega arith) wc (rw (room, other, diff) at h)
        ]
      ]

  well-optional_below :
      (r : Option Json) → WellOptional r → WellBelow (suc (optional_depth quote loaded r)) r
  well-optional_below none w = tt
  well-optional_below (some r) w = (w, omega arith)

  collect-equal :
      (root : Option Value) (r c : Option Json)
      → equal_optional r c ≡ true
      → IsClean (collect quote loaded root r c)
  unfolding collect diff_item diff equal_optional
  collect-equal root none none e =
      rw (deep_equal-null, diff) (record { none_listed = refl; none_left_out = refl })
  collect-equal root none (some c) e = cc
  collect-equal root (some r) none e = cc
  collect-equal root (some r) (some c) e =
      rw (e, diff) (record { none_listed = refl; none_left_out = refl })

  -- What the comparison collects is nothing exactly if the payloads are equal. The depth of the
  -- reference is fuel enough.
  pub collect-IsClean :
      (root : Option Value) (r c : Option Json)
      → WellOptional r
      → WellOptional c
      → IsClean (collect quote loaded root r c) ↔ (equal_optional r c ≡ true)
  unfolding collect
  collect-IsClean root r c wr wc = (
    λ h.
        (item_sound (suc (optional_depth quote loaded r))
          (diff quote loaded (suc (optional_depth quote loaded r)))
          (diff-IsSound (suc (optional_depth quote loaded r))) (omega arith) new_differ r c [] root
          (well-optional_below r wr) wc h).1,
    collect-equal root r c,
  )
