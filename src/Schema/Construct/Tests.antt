-- ===== src/Schema/Construct/Tests.antt =====
-- Schemas that `New` accepts and refuses.
use spectre.Prelude.{◌≡◌, refl, true, [], ◌∷◌, text, text_eq, is_some, ok, failed}
use spectre.Prelude.Assoc.{lookup, insert}
use spectre.Comparison.Json.{null}
use spectre.Schema.{find_type}
use spectre.Schema.Validate.{validate}
use spectre.Schema.Validate.Tests.{user, users}
use spectre.Schema.Construct.{
  new_schema, index_types, index_operations, check_types, check_fields, check_operations,
  check_value, type_declared_twice,
}
use spectre.Schema.Construct.Closed.{IsClosed, new-IsClosed}
use spectre.Schema.Construct.Mild.{IsMild, validate-IsMild}

users_accepted : new_schema (user ∷ []) [] ≡ ok users
unfolding new_schema index_types index_operations check_types check_fields check_operations
    check_value lookup insert
users_accepted = refl

twice_refused : new_schema (user ∷ user ∷ []) [] ≡ failed (type_declared_twice (text "User"))
unfolding new_schema index_types lookup insert
twice_refused = refl

user_found : is_some (find_type users (text "User")) ≡ true
unfolding lookup
user_found = refl

new-IsClosed_example : IsClosed users
new-IsClosed_example = new-IsClosed (user ∷ []) [] users users_accepted

validate-IsMild_example : IsMild (validate users 3 (text "User") null)
validate-IsMild_example =
    validate-IsMild (user ∷ []) [] users 3 (text "User") null users_accepted user_found
