-- ===== src/Generation/Examples.antt =====
-- Generation names and migrations on concrete inputs (rust/crates/vocoder-session/src/lib.rs).
use dsh_rs.Base.{
  ℕ, ◌≤◌, ◌<◌, ◌≡◌, ◌⊎◌, ◌↔◌, ◌>>=◌, inl, inr, refl, String, some, none, List, [], ◌∷◌, ◌++◌, value,
  Bool, true, ok, arith,
}
use dsh_rs.Base.Decimal.{low_value}
use dsh_rs.Json.{string}
use dsh_rs.Generation.{
  Bytes, codes, u32_mod, generation_filename, extension, parse_generation_filename, parse_version,
  parse_u32,
}
use dsh_rs.Generation.Names.{parse-generation_filename, parse_generation_filename_sound}
use dsh_rs.Generation.Latest.{Has}
use dsh_rs.Generation.Migration.{Rows, MigrationStep, compose, compose_loop, Chain}
use dsh_rs.Generation.Compose.{compose_iff, compose-compose}

abbrev twelfth : Bytes
twelfth = codes "session.v12.jsonl.zstd"

twelve_fits : 12 < u32_mod
twelve_fits = omega arith

parse-generation_filename_example :
    parse_generation_filename (generation_filename 12 true) ≡ some 12
parse-generation_filename_example = parse-generation_filename 12 true twelve_fits

abbrev twelve : ℕ
twelve = 12

parse-twelfth : parse_generation_filename twelfth ≡ some 12
unfolding parse_generation_filename parse_version parse_u32 value low_value
parse-twelfth = refl

parse_generation_filename_sound_example :
    (12 < u32_mod)
    × (compressed : Bool) × ((twelfth ≡ generation_filename 12 compressed)
        ⊎ ((twelve ≡ 0) × (twelfth ≡ codes "session.v0" ++ extension compressed)))
parse_generation_filename_sound_example = parse_generation_filename_sound twelfth 12 parse-twelfth

-- `session.v0.jsonl` is read as version 0, which writes `session.jsonl`.
parse-zeroth : parse_generation_filename (codes "session.v0.jsonl") ≡ some 0
unfolding parse_generation_filename parse_version parse_u32 value low_value
parse-zeroth = refl

parse-leading_zero : parse_generation_filename (codes "session.v01.jsonl") ≡ none
unfolding parse_generation_filename parse_version
parse-leading_zero = refl

abbrev directory : List Bytes
directory = codes "notes.txt" ∷ twelfth ∷ codes "session.jsonl" ∷ []

directory-Has : Has 12 directory
directory-Has = inr (inl parse-twelfth)

-- Each step adds a row, and version 2 has no step.
abbrev added : String → ℕ → MigrationStep
added label from = record { from = from; migrate = λ rows. ok (string label ∷ rows) }

abbrev steps : List MigrationStep
steps = added "one" 1 ∷ added "zero" 0 ∷ added "three" 3 ∷ []

abbrev lifted : Rows
lifted = string "one" ∷ string "zero" ∷ []

compose-lifted : compose steps 0 2 [] ≡ ok lifted
unfolding compose compose_loop
compose-lifted = refl

compose_iff_example : (compose steps 0 2 [] ≡ ok lifted) ↔ Chain steps 2 0 [] lifted
compose_iff_example = compose_iff steps 0 2 [] lifted

zero_le_one : 0 ≤ 1
zero_le_one = omega arith

one_le_two : 1 ≤ 2
one_le_two = omega arith

zero_le_two : 0 ≤ 2
zero_le_two = omega arith

two_lt_four : 2 < 4
two_lt_four = omega arith

compose-compose_example :
    compose steps 0 2 [] ≡ (compose steps 0 1 [] >>= λ mid. compose steps 1 2 mid)
compose-compose_example = compose-compose steps 0 1 2 [] zero_le_one one_le_two
