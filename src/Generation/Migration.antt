-- ===== src/Generation/Migration.antt =====
-- `compose`: lifting a generation's rows through adjacent migration steps.
use dsh_rs.Base.{
  ℕ, zero, suc, ◌+◌, ◌-◌, ◌≤◌, ◌<◌, ◌≡◌, Option, none, some, List, [], ◌∷◌, String, Result, ok, err,
  ◌>>=◌, ltb, ◌==◌, if◌then◌else◌,
}
use dsh_rs.Json.{Value}

pub data SessionError : Type 0 where
  empty : SessionError
  bad_json : ℕ → SessionError
  io zstd committed : String → SessionError
  no_migration : ℕ → ℕ → SessionError

abbrev pub Rows : Type 0
Rows = List Value

-- A step from version `from` to `from + 1`.
pub record MigrationStep : Type 0 where
  pub from : ℕ
  pub migrate : Rows → Result SessionError Rows

abbrev pub find : ℕ → List MigrationStep → Option MigrationStep
find current [] = none
find current (s ∷ steps) = if s.from == current then some s else find current steps

-- `step.migrate(rows)?`, for the step that was found
abbrev pub migrate_with : ℕ → Option MigrationStep → Rows → Result SessionError Rows
migrate_with current none rows = err (no_migration current (current + 1))
migrate_with current (some s) rows = s.migrate rows

-- The loop, with the rounds that are left.
unfoldable pub compose_loop : ℕ → List MigrationStep → ℕ → ℕ → Rows → Result SessionError Rows
compose_loop zero steps current to rows = ok rows
compose_loop (suc rounds) steps current to rows =
    let lifted = migrate_with current (find current steps) rows >>= λ next.
    compose_loop rounds steps (current + 1) to next in
    if ltb current to then lifted else ok rows

unfoldable pub compose : List MigrationStep → ℕ → ℕ → Rows → Result SessionError Rows
unfolding compose_loop
compose steps from to rows = compose_loop (to - from) steps from to rows

-- `out` is what the adjacent steps from version `v` make of the rows at version `w`.
pub data Chain (steps : List MigrationStep) (w : ℕ) : ℕ → Rows → Rows → Type 0 where
  done : {v : ℕ} {rows : Rows} → w ≤ v → Chain steps w v rows rows
  step :
      {v : ℕ} {rows next out : Rows} (s : MigrationStep)
      → v < w
      → find v steps ≡ some s
      → s.migrate rows ≡ ok next
      → Chain steps w (v + 1) next out
      → Chain steps w v rows out
