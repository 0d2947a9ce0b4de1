-- ===== src/Server/Storage/Quotes.antt =====
-- A concrete quoting, which escapes the quote and the backslash alone.
use spectre.Prelude.{
  ℕ, ◌≡◌, refl, Bool, true, false, Option, none, some, [], ◌∷◌, ◌++◌, arith, Text, nat_beq,
  if◌then◌else◌, ◌||◌, Bool-cases, inl, inr,
}
use spectre.Server.Storage.{Quoting}

abbrev pub escape : ℕ → Text
escape c = if nat_beq c 34 || nat_beq c 92 then 92 ∷ c ∷ [] else c ∷ []

abbrev pub escaped : Text → Text
escaped [] = []
escaped (c ∷ cs) = escape c ++ escaped cs

abbrev pub quoted : Text → Text
quoted s = 34 ∷ (escaped s ++ (34 ∷ []))

abbrev pub prepend : ℕ → Option (Text × Text) → Option (Text × Text)
prepend c none = none
prepend c (some (s, rest)) = some (c ∷ s, rest)

-- `true` once a backslash has been read.
unfoldable pub parse : Bool → Text → Option (Text × Text)
parse b [] = none
parse true (c ∷ cs) = prepend c (parse false cs)
parse false (c ∷ cs) =
    let plain = prepend c (parse false cs) in
    let literal = parse true cs in
    if nat_beq c 34 then some ([], cs) else if nat_beq c 92 then literal else plain

abbrev pub unquoted : Text → Option (Text × Text)
unquoted [] = none
unquoted (c ∷ cs) = parse false cs

pub parse-escaped :
    (s rest : Text) → parse false ((escaped s ++ (34 ∷ [])) ++ rest) ≡ some (s, rest)
unfolding parse
parse-escaped [] rest = refl
parse-escaped (c ∷ cs) rest = elim (Bool-cases (nat_beq c 34 || nat_beq c 92)) [
  | inl special ↦ rw special (ground (arith, special, parse-escaped cs rest))
  | inr plain ↦ rw plain (ground (arith, plain, parse-escaped cs rest))
]

abbrev pub backslashes : Quoting
backslashes = record { quote = quoted; unquote = unquoted; unquote-quote = parse-escaped }
