-- ===== src/Sandbox.antt =====
-- Confinement of the filesystem tools: the modes, the ladder and the fence
-- (rust/crates/vocoderd/src/machines/sandbox.rs). A refusal is the Denial that Err holds.
pub mod Paths
pub mod Roots
pub mod Place
pub mod Below
pub mod Fencing
mod Examples
use dsh_rs.Base.{
  String, concat, Option, none, some, List, [], ◌∷◌, ◌++◌, Bool, true, false, not, str_eq,
}
use dsh_rs.Base.{if◌then◌else◌, ltb, ℕ}
use dsh_rs.Base.Text.{join}
use dsh_rs.Sandbox.Paths.{contains}
use dsh_rs.Sandbox.Roots.{any, sort, dedup}

pub data Mode : Type 0 where
  read_only : Mode
  workspace_write : Mode
  danger_full_access : Mode

abbrev pub mode_as_str : Mode → String
mode_as_str Mode.read_only = "read-only"
mode_as_str Mode.workspace_write = "workspace-write"
mode_as_str Mode.danger_full_access = "danger-full-access"

unfoldable pub parse_mode : String → Option Mode
parse_mode s =
    if str_eq s "read-only"
    then some Mode.read_only
    else if str_eq s "workspace-write"
    then some Mode.workspace_write
    else if str_eq s "danger-full-access"
    then some Mode.danger_full_access
    else none

abbrev pub default_mode : Mode
default_mode = Mode.workspace_write

abbrev pub targets : List Mode
targets = Mode.workspace_write ∷ Mode.danger_full_access ∷ []

pub data Escape : Type 0 where
  wider : Escape
  same : Escape
  narrower : Escape

abbrev pub rank : Mode → ℕ
rank Mode.read_only = 0
rank Mode.workspace_write = 1
rank Mode.danger_full_access = 2

unfoldable pub widening : Mode → Mode → Escape
widening from to =
    if ltb (rank from) (rank to)
    then Escape.wider
    else if ltb (rank to) (rank from)
    then Escape.narrower
    else Escape.same

pub data Policy : Type 0 where
  ask : Policy
  never : Policy

abbrev pub parse_policy : String → Option Policy
parse_policy s =
    if str_eq s "ask" then some Policy.ask else if str_eq s "never" then some Policy.never else none

pub record Denial : Type 0 where
  pub mode : Mode
  pub path : String
  pub reason : String

-- `super::tool::escalation_hint`
abbrev pub escalation_hint : String → String
escalation_hint subject =
    concat (concat "[sandbox: escalation available — retry this exact " subject)
      " once with sandbox_permissions (the narrowest wider mode that suffices) + justification; the approval prompt asks the user]"

abbrev pub message : Denial → String
message d = concat (concat "[sandbox: file access denied under " (mode_as_str d.mode)) (
    concat (concat " mode]\n" (concat d.path (concat ": " d.reason)))
      (concat "\n" (escalation_hint "operation")))

pub record Fence : Type 0 where
  pub mode : Mode
  pub root : String
  pub confined : Bool

abbrev is_danger : Mode → Bool
is_danger Mode.danger_full_access = true
is_danger _ = false

abbrev pub fence : Mode → String → Fence
fence mode root = record { mode = mode; root = root; confined = not (is_danger mode) }

abbrev with_temp : String → List String → List String
with_temp tmp roots = if any (λ r. str_eq r tmp) roots then roots else roots ++ tmp ∷ []

-- `tmp` is the host's temporary directory, `std::env::temp_dir()`.
unfoldable pub writable_roots_for : String → Mode → String → List String
writable_roots_for tmp Mode.workspace_write root = dedup (sort (with_temp tmp (root ∷ "/tmp" ∷ [])))
writable_roots_for tmp _ root = []

abbrev pub writable_roots : String → Fence → List String
writable_roots tmp f = writable_roots_for tmp f.mode f.root

unfoldable pub allows : String → Fence → String → Bool
allows tmp f target =
    if f.confined then any (λ root. contains root target) (writable_roots tmp f) else true

abbrev pub denied_reason : String → Fence → Mode → String
denied_reason tmp f Mode.read_only = "the session is read-only, so no mutation is permitted"
denied_reason tmp f _ =
    concat "it is outside the writable roots ("
      (concat (join ", " (writable_roots tmp f)) "), and no wider mode is available on this host")

-- The refusal, when there is one.
abbrev pub check : String → Fence → String → String → Option Denial
check tmp f target display =
    if allows tmp f target
    then none
    else some (record { mode = f.mode; path = display; reason = denied_reason tmp f f.mode })
