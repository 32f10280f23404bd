-- ===== src/Workspace.antt =====
-- The workspaces: their records and their order, and what the followers are told
-- (rust/crates/vocoderd/src/machines/workspace.rs, and the data of registry.rs). `persist` writes
-- the data to the registry's file and answers the error, when there is one.
pub mod Calls
pub mod Requests
pub mod Counts
pub mod Order
mod Examples
use dsh_rs.Base.{
  ℕ, zero, suc, String, concat, Option, none, some, List, [], ◌∷◌, ◌++◌, map, Bool, true, false,
  not, ◌&&◌, ◌||◌, str_eq, if◌then◌else◌, length,
}
use dsh_rs.Base.Dict.{Dict, lookup, insert, erase}
use dsh_rs.Json.{Value, number, float, string, array, to_items, json}
use dsh_rs.Router.Messages.{MachineOut}
use dsh_rs.Rpc.Reply

-- A point in time is the 64 bits of a float.
pub record WorkspaceRecord : Type 0 where
  pub path : String
  pub title : String
  pub session_ids : List String
  pub created_at : ℕ
  pub updated_at : ℕ

pub record WorkspaceRegistryData : Type 0 where
  pub initialized : Bool
  pub workspace_ids : List String
  pub archived_session_ids : List String
  pub records : Dict WorkspaceRecord

abbrev pub texts : List String → Value
texts ss = array (to_items (map string ss))

abbrev pub view_of : String → WorkspaceRecord → Value
view_of id r = json (
    ("workspaceId", string id)
    ∷ ("path", string r.path)
    ∷ ("title", string r.title)
    ∷ ("sessionIds", texts r.session_ids)
    ∷ ("createdAt", number (float r.created_at))
    ∷ ("updatedAt", number (float r.updated_at))
    ∷ [])

pub record MutateOutcome : Type 0 where
  pub outs : List MachineOut
  pub broadcast : Bool
  pub registry : WorkspaceRegistryData

abbrev pub ok_broadcast : List MachineOut → WorkspaceRegistryData → MutateOutcome
ok_broadcast outs d = record { outs = outs; broadcast = true; registry = d }

abbrev pub refused : List MachineOut → WorkspaceRegistryData → MutateOutcome
refused outs d = record { outs = outs; broadcast = false; registry = d }

abbrev pub broadcast : List String → Value → List MachineOut
broadcast streams increment = map (λ id. Reply.stream_item id increment) streams

abbrev pub broadcast_all : List String → List Value → List MachineOut
broadcast_all streams [] = []
broadcast_all streams (v ∷ vs) = broadcast streams v ++ broadcast_all streams vs

-- The data stays as mutated when it could not be written.
abbrev pub settled :
    List String
    → MutateOutcome
    → (WorkspaceRegistryData → List Value)
    → Option String
    → List MachineOut × WorkspaceRegistryData
settled streams o increments (some e) =
    (Reply.err "gateway/internal" (concat "persisting workspace registry: " e), o.registry)
settled streams o increments none = (
  (if o.broadcast then o.outs ++ broadcast_all streams (increments o.registry) else o.outs),
  o.registry,
)

unfoldable pub mutate_and_broadcast :
    (WorkspaceRegistryData → Option String)
    → List String
    → MutateOutcome
    → (WorkspaceRegistryData → List Value)
    → List MachineOut × WorkspaceRegistryData
mutate_and_broadcast persist streams o increments =
    settled streams o increments (persist o.registry)

unfoldable pub contains : List String → String → Bool
contains [] id = false
contains (x ∷ xs) id = str_eq x id || contains xs id

-- `ids.retain(|w| *w != id)`
unfoldable pub retain_others : String → List String → List String
retain_others id [] = []
retain_others id (x ∷ xs) = let rest = retain_others id xs in if str_eq x id then rest else x ∷ rest

abbrev next : Option ℕ → Option ℕ
next none = none
next (some n) = some (suc n)

unfoldable pub position : List String → String → Option ℕ
position [] b = none
position (x ∷ xs) b = let rest = next (position xs b) in if str_eq x b then some 0 else rest

unfoldable pub insert_at : ℕ → String → List String → List String
insert_at zero id xs = id ∷ xs
insert_at (suc n) id [] = id ∷ []
insert_at (suc n) id (x ∷ xs) = x ∷ insert_at n id xs

abbrev pub place : List String → Option String → ℕ
place ids none = length ids
place ids (some b) = elim (position ids b) [ none ↦ length ids | some n ↦ n ]

-- An id taken out and put in again before another, or at the end.
abbrev pub moved : String → Option String → List String → List String
moved id before ids = let others = retain_others id ids in insert_at (place others before) id others

abbrev pub not_found : String → List MachineOut
not_found id =
    Reply.err_details "workspace/not-found" (concat "no such workspace: " id)
      (json (("workspaceId", string id) ∷ []))

abbrev pub has : Option String → List String → Bool
has none ids = true
has (some b) ids = contains ids b
