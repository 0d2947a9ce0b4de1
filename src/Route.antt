-- ===== src/Route.antt =====
-- internal/httpserver/route: the rules and endpoints that scripts declare, matched with requests. The
-- patterns of net/http are given as an interface, as is the table of endpoints built on them.
pub mod Declared
pub mod Refused
pub mod Selected
pub mod Tests
use spectre.Prelude.{
  ℕ, Bool, true, false, not, ◌&&◌, ◌||◌, Option, none, some, List, [], ◌∷◌, ◌++◌, Text, text,
  length, nat_beq, is_some, if◌then◌else◌, Result, ok, failed, select, map, text_eq,
}
use spectre.Schema.{TypeRef}
use spectre.Comparison.Rules.{
  Rule, Header, RequestSelector, request_pattern, request_script, Action, action_ignore,
  action_match, selects_request_headers, selects_every_response,
}

-- `Request`, a declared endpoint.
pub record Request : Type 0 where
  pub pattern : Text
  pub type : TypeRef

-- `NewPattern` and `Pattern.Match`, and a map of requests with `Add` and `Match`, over `http.ServeMux`.
pub record Mux : Type 1 where
  pub Pattern : Type 0
  pub new_pattern : Text → Result Text Pattern
  pub pattern_matches : Pattern → Text → Text → Text → Bool
  pub Routes : Type 0
  pub no_routes : Routes
  pub add_route : Routes → Text → Request → Routes × Result Text (Unit {0})
  pub match_route : Routes → Text → Text → Text → Option (Request × List (Text × Text))

-- `protocol.Declaration`.
pub data Declaration : Type 0 where
  declaration_request : Text → TypeRef → Declaration
  declaration_rule : Rule → Declaration

-- `rule.Action().(javascript.ActionIgnore)`.
abbrev pub ignores : Action → Bool
ignores action_ignore = true
ignores (action_match type normalises) = false

module _ (mux : Mux) where
  open mux use {Pattern, new_pattern, pattern_matches, Routes, no_routes, add_route, match_route}

  pub record DeclaredRule : Type 0 where
    pub rule : Rule
    pub pattern : Option Pattern

  pub record Matcher : Type 0 where
    pub requests : Routes
    pub declared : List Request
    pub rules : List DeclaredRule

  -- `NewMatcher`.
  unfoldable pub new_matcher : Matcher
  new_matcher = record { requests = no_routes; declared = []; rules = [] }

  abbrev pub with_rule : Matcher → Rule → Option Pattern → Matcher
  with_rule m rule pattern = record m {
    rules = m.rules ++ record { rule = rule; pattern = pattern } ∷ [];
  }

  abbrev pub declare_patterned :
      Matcher → Rule → Result Text Pattern → Matcher × Result Text (Unit {0})
  declare_patterned m rule (failed e) = (m, failed e)
  declare_patterned m rule (ok pattern) = (with_rule m rule (some pattern), ok tt)

  abbrev pub declare_rule : Matcher → Rule → RequestSelector → Matcher × Result Text (Unit {0})
  declare_rule m rule (request_pattern pattern) = declare_patterned m rule (new_pattern pattern)
  declare_rule m rule request_script = (with_rule m rule none, ok tt)

  abbrev pub declare_added :
      Matcher → Request → Routes × Result Text (Unit {0}) → Matcher × Result Text (Unit {0})
  declare_added m request (routes, failed e) = (record m { requests = routes }, failed e)
  declare_added m request (routes, ok done) =
      (record m { requests = routes; declared = m.declared ++ request ∷ [] }, ok tt)

  -- `Declare`.
  unfoldable pub declare : Matcher → Declaration → Matcher × Result Text (Unit {0})
  declare m (declaration_request pattern type) =
      let request : Request = record { pattern = pattern; type = type } in
      declare_added m request (add_route m.requests pattern request)
  declare m (declaration_rule rule) = declare_rule m rule rule.request

  -- `Request`.
  unfoldable pub find_request : Matcher → Text → Text → Text → Option (Request × List (Text × Text))
  find_request m method host path = match_route m.requests method host path

  abbrev pub pattern_fits : Option Pattern → Text → Text → Bool
  pattern_fits none method path = true
  pattern_fits (some pattern) method path = pattern_matches pattern method [] path

  -- The test with which the loop of `Responses` goes on.
  abbrev pub skips : DeclaredRule → Text → Text → Header → Bool
  skips d method path header =
      not (pattern_fits d.pattern method path) || not (selects_request_headers d.rule header)

  -- A rule after which no later one applies.
  abbrev pub is_last : DeclaredRule → Bool
  is_last d = is_some d.pattern && selects_every_response d.rule

  module _ (rule_text : Rule → Text) where
    abbrev pub ended : Rule → List Rule → List Rule × Option Text
    ended rule rules =
        if ignores rule.action && nat_beq (length rules) 1
        then ([], some (text "rule " ++ (rule_text rule ++ text " ignores the request")))
        else (rules, none)

    -- The loop of `Responses`, with the rules so far.
    unfoldable pub responses_from :
        List DeclaredRule → List Rule → Text → Text → Header → List Rule × Option Text
    responses_from [] rules method path header = (rules, none)
    responses_from (d ∷ ds) rules method path header =
        let next = rules ++ d.rule ∷ [] in
        let skipped = responses_from ds rules method path header in
        let taken = responses_from ds next method path header in
        if skips d method path header
        then skipped
        else if is_last d
        then ended d.rule next
        else taken

    -- `Responses`.
    unfoldable pub responses : Matcher → Text → Text → Header → List Rule × Option Text
    unfolding responses_from
    responses m method path header = responses_from m.rules [] method path header
