-- ===== src/Names/Tests.antt =====
-- Runs of crates/specforge-ts/src/name.rs.
use specforge_openapi_sdk_co.Prelude.{
  ◌≡◌, ◌≢◌, refl, true, false, some, none, codes, [], ◌++◌, inl, inr,
}
use specforge_openapi_sdk_co.Names.Words.{reserved, builtin_types}
use specforge_openapi_sdk_co.Names.{
  pascal_loop, pascal, camel, property_key, string_literal, is_reserved, is_valid_identifier,
  escape_quotes, safe_model_name, is_ts_sdk_builtin_type,
}
use specforge_openapi_sdk_co.Names.Identifiers.{
  pascal-camel-valid, safe_model_name-not_builtin, safe_model_name_collides,
}
use specforge_openapi_sdk_co.Names.Literals.{
  read_literal, read_word, bare_key, read_key, string_literal-read, string_literal-line_end,
  property_key-read,
}

pascal_runs :
    (pascal (codes "pet-event") ≡ codes "PetEvent")
    × (pascal (codes "123abc") ≡ codes "_123abc")
    × (pascal [] ≡ codes "_")
    × (camel (codes "list-pets") ≡ codes "listPets")
    × (property_key (codes "default") ≡ codes "\"default\"")
    × (string_literal (codes "a\"b\\") ≡ codes "\"a\\\"b\\\\\"")
unfolding pascal camel pascal_loop property_key string_literal is_reserved reserved
    is_valid_identifier escape_quotes
pascal_runs = (refl, refl, refl, refl, refl, refl)

pascal-camel-valid_example :
    (is_valid_identifier (pascal (codes "pet-event")) ≡ true)
    × (is_reserved (pascal (codes "pet-event")) ≡ false)
    × (is_valid_identifier (camel (codes "pet-event")) ≡ true)
pascal-camel-valid_example = pascal-camel-valid (codes "pet-event")

-- `camel` does give reserved words.
camel_reserved : is_reserved (camel (codes "Delete")) ≡ true
unfolding camel pascal pascal_loop is_reserved reserved
camel_reserved = refl

safe_model_name-not_builtin_example :
    is_ts_sdk_builtin_type (safe_model_name (codes "Logger")) ≡ false
safe_model_name-not_builtin_example = safe_model_name-not_builtin (codes "Logger")

logger_builtin : is_ts_sdk_builtin_type (codes "Logger") ≡ true
unfolding is_ts_sdk_builtin_type builtin_types
logger_builtin = refl

safe_model_name_collides_example :
    (safe_model_name (codes "Logger") ≡ safe_model_name (codes "Logger" ++ codes "Model"))
    × (codes "Logger" ≢ codes "Logger" ++ codes "Model")
safe_model_name_collides_example = safe_model_name_collides (codes "Logger") logger_builtin

string_literal-read_example :
    read_literal (string_literal (codes "a\"b") ++ codes ";") ≡ some (codes "a\"b", codes ";")
string_literal-read_example =
    string_literal-read (codes "a\"b") (codes ";") (refl, (refl, (refl, tt)))

string_literal-line_end_example : read_literal (string_literal (codes "a\n") ++ codes ";") ≡ none
string_literal-line_end_example = string_literal-line_end (codes "a\n") (codes ";") (inr (inl refl))

property_key-read_example :
    read_key (property_key (codes "x_y") ++ codes ":z") ≡ some (codes "x_y", codes "z")
property_key-read_example = property_key-read (codes "x_y") (codes "z") (refl, (refl, (refl, tt)))

-- Bare, a name with a minus sign and a keyword are no keys.
read_key_refuses : (read_key (codes "x-y:") ≡ none) × (read_key (codes "class:") ≡ none)
unfolding read_key read_word bare_key
read_key_refuses = (refl, refl)
