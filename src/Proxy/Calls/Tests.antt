-- ===== src/Proxy/Calls/Tests.antt =====
-- Counters at concrete histories.
use spectre.Prelude.{◌-◌, ◌≡◌, ◌^◌, refl, List, [], ◌∷◌, some, text, text_eq, arith}
use spectre.Prelude.Assoc.{lookup, insert}
use spectre.Model.{Route}
use spectre.Proxy.Calls.{count, count_all, calls, increment}
use spectre.Proxy.Calls.Laws.{Counts, count_all-Counts}

abbrev users : Route
users = text "GET /v1/users"

abbrev orders : Route
orders = text "GET /v1/orders"

abbrev history : List Route
history = users ∷ orders ∷ users ∷ []

counts_twice : lookup users (calls (count_all history)).routes ≡ some 2
unfolding count_all count calls increment lookup insert
counts_twice = refl

-- A count wraps at 2^64.
count_wraps : increment (2 ^ 64 - 1) ≡ 0
unfolding increment
count_wraps = refl

count_all-Counts_example : Counts (count_all history) history
count_all-Counts_example = count_all-Counts history (omega arith)
