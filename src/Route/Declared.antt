-- ===== src/Route/Declared.antt =====
-- internal/httpserver/route/matcher.go, `Declare`: the pattern of each declared rule.
use spectre.Prelude.{
  ◌≡◌, refl, true, false, Option, none, some, Text, text_eq, Result, ok, failed, All, All-last,
}
use spectre.Comparison.Rules.{RequestSelector, request_pattern, request_script}
use spectre.Route.{
  Mux, Declaration, declaration_request, declaration_rule, DeclaredRule, Matcher, declare,
  declare_rule, declare_patterned, declare_added,
}

module _ (mux : Mux) where
  open mux use {Pattern, new_pattern, pattern_matches, Routes}

  -- A declared rule has a pattern just when it selects requests by one.
  abbrev pub HasItsPattern : RequestSelector → Option Pattern → Type 0
  HasItsPattern (request_pattern text_of) (some pattern) = new_pattern text_of ≡ ok pattern
  HasItsPattern request_script none = Unit
  HasItsPattern _ _ = true ≡ false

  abbrev pub IsDeclared : DeclaredRule mux → Type 0
  IsDeclared d = HasItsPattern d.rule.request d.pattern

  abbrev pub AreDeclared : Matcher mux → Type 0
  AreDeclared m = All IsDeclared m.rules

  -- `Declare` keeps that each rule has the pattern that it selects requests by.
  pub declare-AreDeclared :
      (m : Matcher mux) (declaration : Declaration)
      → AreDeclared m
      → AreDeclared (declare mux m declaration).0
  unfolding declare
  declare-AreDeclared m (declaration_request pattern type) h =
      added (mux.add_route m.requests pattern (record { pattern = pattern; type = type }))
    where
      added :
          (tried : Routes × Result Text (Unit {0}))
          → AreDeclared (declare_added mux m (record { pattern = pattern; type = type }) tried).0
      added (routes, ok done) = h
      added (routes, failed e) = h
  declare-AreDeclared m (declaration_rule rule) h = by_selector rule.request refl
    where
      patterned :
          (p : Text) (tried : Result Text Pattern)
          → rule.request ≡ request_pattern p
          → new_pattern p ≡ tried
          → AreDeclared (declare_patterned mux m rule tried).0
      patterned p (failed e) is tries = h
      patterned p (ok pattern) is tries = All-last IsDeclared m.rules _ (rw is tries) h

      by_selector :
          (s : RequestSelector) → rule.request ≡ s → AreDeclared (declare_rule mux m rule s).0
      by_selector (request_pattern p) is = patterned p (new_pattern p) is refl
      by_selector request_script is = All-last IsDeclared m.rules _ (rw is tt) h
