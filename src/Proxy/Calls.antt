-- ===== src/Proxy/Calls.antt =====
-- internal/proxy/calls.go: how many requests the ingress proxy received on each route. Each method
-- runs under the counter's lock, so a history is a sequence of calls. A count is a uint64.
pub mod Laws
pub mod Tests
use spectre.Prelude.{
  ℕ, ◌+◌, ◌%◌, ◌^◌, Bool, ◌||◌, Option, none, some, List, [], ◌∷◌, text_eq, length, ltb, is_some,
  if◌then◌else◌,
}
use spectre.Prelude.Assoc.{lookup, insert}
use spectre.Model.{Route, Calls}

abbrev pub max_counted_routes : ℕ
max_counted_routes = 100

-- `x++` on a uint64.
unfoldable pub increment : ℕ → ℕ
increment n = (n + 1) % 2 ^ 64

unfoldable pub new_call_counter : Calls
new_call_counter = record { routes = []; other = 0 }

-- A missing key reads as 0.
abbrev pub count_of : Option ℕ → ℕ
count_of none = 0
count_of (some n) = n

-- `CallCounter.Count`.
unfoldable pub count : Calls → Route → Calls
count c route =
    if is_some (lookup route c.routes) || ltb (length c.routes) max_counted_routes
    then record c { routes = insert route (increment (count_of (lookup route c.routes))) c.routes }
    else record c { other = increment c.other }

-- `CallCounter.Calls`: a copy, whose map stays nil while no route is tracked.
unfoldable pub calls : Calls → Calls
calls c = record { routes = if ltb 0 (length c.routes) then c.routes else []; other = c.other }

-- A history of requests, the latest first.
unfoldable pub count_all : List Route → Calls
unfolding new_call_counter
count_all [] = new_call_counter
count_all (route ∷ earlier) = count (count_all earlier) route
