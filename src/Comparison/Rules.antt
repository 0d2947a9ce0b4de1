-- ===== src/Comparison/Rules.antt =====
-- internal/comparison/javascript/rule.go: the rules that decide how responses are compared. A header
-- is what `Values` returns for each name.
pub mod Selection
pub mod First
pub mod Same
pub mod Tests
use spectre.Prelude.{
  ℕ, Bool, true, false, not, ◌&&◌, Option, none, some, List, [], ◌∷◌, ◌++◌, map, Text, text,
  text_eq, ◌==◌, Eq, any, is_some, option_beq, ◌↔◌, ◌≡◌, eq_iff, arith,
}
use spectre.Prelude.Ints.{ℤ, int_eq, itoa}
use spectre.Model.{Protocol, join}
use spectre.Schema.{TypeRef}

abbrev pub Header : Type 0
Header = Text → List Text

-- `joinedHeader`.
abbrev pub joined : List Text → Option Text
joined [] = none
joined (v ∷ values) = some (join (text ", ") (v ∷ values))

unfoldable pub joined_header : Header → Text → Option Text
joined_header header name = joined (header name)

pub data RequestSelector : Type 0 where
  request_pattern : Text → RequestSelector
  request_script : RequestSelector

pub data StatusSelector : Type 0 where
  status_any : StatusSelector
  status_codes : List ℤ → StatusSelector
  status_script : StatusSelector

-- A header's name, with its joined value or a function.
pub data HeaderSelector : Type 0 where
  header_value : Text → Text → HeaderSelector
  header_script : Text → HeaderSelector

pub data Action : Type 0 where
  action_ignore : Action
  -- The type, and whether a normaliser follows.
  action_match : Option TypeRef → Bool → Action

pub record Rule : Type 0 where
  pub index : ℕ
  pub protocol : Protocol
  pub request : RequestSelector
  pub status : StatusSelector
  pub request_headers : List HeaderSelector
  pub response_headers : List HeaderSelector
  pub action : Action

-- `Response` and `Request`.
pub record RuleResponse : Type 0 where
  pub status : ℤ
  pub header : Header

pub record RuleRequest : Type 0 where
  pub method : Text
  pub path : Text
  pub header : Header

-- `HeaderValue.Selects`.
abbrev pub value_selects : Text → Option Text → Bool
value_selects value none = false
value_selects value (some present) = present == value

unfoldable pub refuses : Header → HeaderSelector → Bool
unfolding joined_header
refuses header (header_value name value) = not (value_selects value (joined_header header name))
refuses header (header_script name) = false

-- `SelectsRequestHeaders`.
unfoldable pub selects_request_headers : Rule → Header → Bool
unfolding refuses
selects_request_headers r header = not (any (refuses header) r.request_headers)

abbrev pub is_script : HeaderSelector → Bool
is_script (header_script name) = true
is_script (header_value name value) = false

abbrev pub is_any : StatusSelector → Bool
is_any status_any = true
is_any _ = false

abbrev pub is_empty {ℓ} : {A : Type ℓ} → List A → Bool
is_empty [] = true
is_empty (x ∷ xs) = false

-- `SelectsEveryResponse`.
unfoldable pub selects_every_response : Rule → Bool
selects_every_response r =
    is_any r.status && (not (any is_script r.request_headers) && is_empty r.response_headers)

-- The names of the methods in a script, and `%q` of a text.
module _ (quote : Text → Text) where
  abbrev header_text : Text → HeaderSelector → Text
  header_text method (header_value name value) =
      text "." ++ (method ++ (text "(" ++ (quote name ++ (text ", " ++ (quote value ++ text ")")))))
  header_text method (header_script name) =
      text "." ++ (method ++ (text "(" ++ (quote name ++ text ", <function>)")))

  -- `writeHeaders`.
  unfoldable pub write_headers : Text → List HeaderSelector → Text
  write_headers method [] = []
  write_headers method (h ∷ hs) = header_text method h ++ write_headers method hs

  abbrev request_text : Protocol → RequestSelector → Text
  request_text protocol (request_pattern pattern) =
      protocol ++ (text "(" ++ (quote pattern ++ text ")"))
  request_text protocol request_script = protocol ++ text "(<function>)"

  abbrev status_text : StatusSelector → Text
  status_text status_any = []
  status_text (status_codes codes) =
      text ".status(" ++ (join (text ", ") (map itoa codes) ++ text ")")
  status_text status_script = text ".status(<function>)"

  -- `Rule.String`.
  unfoldable pub rule_string : Text → Text → Rule → Text
  unfolding write_headers
  rule_string request_method response_method r =
      request_text r.protocol r.request
      ++ (write_headers request_method r.request_headers
          ++ (status_text r.status ++ write_headers response_method r.response_headers))

-- `slices.Equal`.
abbrev pub list_beq {ℓ} : {A : Type ℓ} ⦃e : Eq A⦄ → List A → List A → Bool
list_beq [] [] = true
list_beq (x ∷ xs) (y ∷ ys) = x == y && list_beq xs ys
list_beq _ _ = false

abbrev pub same_value : HeaderSelector → HeaderSelector → Bool
same_value (header_value name value) (header_value other_name other) =
    name == other_name && value == other
same_value _ _ = false

-- `sameHeaderValues`.
unfoldable pub same_header_values : List HeaderSelector → List HeaderSelector → Bool
same_header_values [] [] = true
same_header_values (h ∷ hs) (o ∷ others) = same_value h o && same_header_values hs others
same_header_values _ _ = false

abbrev pub same_pattern : RequestSelector → RequestSelector → Bool
same_pattern (request_pattern pattern) (request_pattern other) = pattern == other
same_pattern _ _ = false

abbrev pub same_status : StatusSelector → StatusSelector → Bool
same_status status_any status_any = true
same_status (status_codes codes) (status_codes other) = list_beq codes other
same_status _ _ = false

-- `sameSelectors`.
unfoldable pub same_selectors : Rule → Rule → Bool
unfolding same_header_values
same_selectors r other =
    r.protocol == other.protocol
    && (same_pattern r.request other.request
        && (same_status r.status other.status
            && (same_header_values r.request_headers other.request_headers
                && same_header_values r.response_headers other.response_headers)))
