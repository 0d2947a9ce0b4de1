-- ===== src/Comparison/Json.antt =====
-- Decoded JSON, which the source holds in values of type `any`. A number is the code of its Go type
-- and value, since the source only tests numbers for equality.
pub mod Laws
use spectre.Prelude.{
  ℕ, suc, Bool, true, false, ◌&&◌, Option, none, some, List, [], ◌∷◌, Text, text_eq, nat_eq, ◌==◌,
  nat_beq, length,
}
use Prim.Native.Nat.{max}
use spectre.Prelude.Assoc.{lookup, IsMap}
use spectre.Model.{JsonType}

mutual
  pub data Json : Type 0 where
    null : Json
    boolean : Bool → Json
    number : ℕ → Json
    string : Text → Json
    list : Items → Json
    object : Members → Json

  pub data Items : Type 0 where
    nil : Items
    cons : Json → Items → Items

  pub data Members : Type 0 where
    end : Members
    member : Text → Json → Members → Members

-- A slice and a map of the values.
abbrev pub elements : Items → List Json
elements nil = []
elements (cons x xs) = x ∷ elements xs

abbrev pub entries : Members → List (Text × Json)
entries end = []
entries (member k v ms) = (k, v) ∷ entries ms

abbrev pub to_items : List Json → Items
to_items [] = nil
to_items (x ∷ xs) = cons x (to_items xs)

abbrev pub to_members : List (Text × Json) → Members
to_members [] = end
to_members ((k, v) ∷ ms) = member k v (to_members ms)

-- `reflect.DeepEqual` on decoded JSON: slices element by element, maps by their lengths and the
-- entries of the first.
unfoldable mutual
  pub deep_equal : Json → Json → Bool
  deep_equal null null = true
  deep_equal (boolean true) (boolean true) = true
  deep_equal (boolean false) (boolean false) = true
  deep_equal (number a) (number b) = nat_beq a b
  deep_equal (string s) (string t) = s == t
  deep_equal (list xs) (list ys) = equal_items xs ys
  deep_equal (object ms) (object ns) =
      nat_beq (length (entries ms)) (length (entries ns)) && equal_members ms ns
  deep_equal _ _ = false

  pub equal_items : Items → Items → Bool
  equal_items nil nil = true
  equal_items (cons x xs) (cons y ys) = deep_equal x y && equal_items xs ys
  equal_items _ _ = false

  pub equal_members : Members → Members → Bool
  equal_members end ns = true
  equal_members (member k v ms) ns =
      (elim (lookup k (entries ns)) [ none ↦ false | some w ↦ deep_equal v w ])
      && equal_members ms ns

-- How deep the values nest.
unfoldable mutual
  pub depth : Json → ℕ
  depth null = 0
  depth (boolean b) = 0
  depth (number n) = 0
  depth (string s) = 0
  depth (list xs) = suc (depth_items xs)
  depth (object ms) = suc (depth_members ms)

  pub depth_items : Items → ℕ
  depth_items nil = 0
  depth_items (cons x xs) = max (depth x) (depth_items xs)

  pub depth_members : Members → ℕ
  depth_members end = 0
  depth_members (member k v ms) = max (depth v) (depth_members ms)

-- Every object is a map: no key stands twice.
abbrev mutual
  pub IsWell : Json → Type 0
  IsWell (list xs) = WellItems xs
  IsWell (object ms) = IsMap (entries ms) × WellMembers ms
  IsWell _ = Unit

  pub WellItems : Items → Type 0
  WellItems nil = Unit
  WellItems (cons x xs) = IsWell x × WellItems xs

  pub WellMembers : Members → Type 0
  WellMembers end = Unit
  WellMembers (member k v ms) = IsWell v × WellMembers ms

-- `jsonType`.
unfoldable pub json_type : Json → JsonType
json_type null = JsonType.null
json_type (boolean b) = JsonType.boolean
json_type (number n) = JsonType.number
json_type (string s) = JsonType.string
json_type (list xs) = JsonType.list
json_type (object ms) = JsonType.object
