-- ===== src/Validate/Ends.antt =====
-- The check against a schema without references ends (rust/crates/vocoderd/src/validate.rs).
use dsh_rs.Base.{◌≡◌, Option, some, Bool}

-- A check that has an answer.
abbrev pub Answers : Option Bool → Type 0
Answers o = (b : Bool) × (o ≡ some b)
