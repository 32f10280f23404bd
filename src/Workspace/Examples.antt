-- ===== src/Workspace/Examples.antt =====
-- Two workspaces, the second moved before the first, on a disk that is full
-- (rust/crates/vocoderd/src/machines/workspace.rs).
use dsh_rs.Base.{
  ◌≡◌, refl, subst, inl, inr, Bool-cases, String, Option, some, [], ◌∷◌, true, arith, str_eq,
  eq_iff,
}
use dsh_rs.Base.Dict.{lookup}
use dsh_rs.Workspace.{
  WorkspaceRecord, WorkspaceRegistryData, mutate_and_broadcast, contains, retain_others, position,
  insert_at,
}
use dsh_rs.Workspace.Calls.{Request, mutate, increments}
use dsh_rs.Workspace.Counts.{count}
use dsh_rs.Workspace.Order.{IsOrdered, once, mutate-IsOrdered}

abbrev at : String → WorkspaceRecord
at path = record { path = path; title = path; session_ids = []; created_at = 1; updated_at = 1 }

abbrev two : WorkspaceRegistryData
two = record {
  initialized = true;
  workspace_ids = "w-1" ∷ "w-2" ∷ [];
  archived_session_ids = [];
  records = ("w-1", at "/a") ∷ ("w-2", at "/b") ∷ [];
}

abbrev full : WorkspaceRegistryData → Option String
full d = some "no space left"

two-IsOrdered : IsOrdered two
unfolding count lookup
two-IsOrdered id = elim (Bool-cases (str_eq "w-1" id)) [
  | inl t ↦
      subst (λ k. count k two.workspace_ids ≡ once (lookup k two.records)) ((eq_iff "w-1" id).0 t)
        refl
  | inr f ↦ ground arith
]

mutate-IsOrdered_example :
    IsOrdered
      (mutate_and_broadcast full []
        (mutate two (Request.move_before "w-2" (some "w-1")) "w-3" 7)
        (increments (Request.move_before "w-2" (some "w-1")) "w-3")).1
unfolding lookup
mutate-IsOrdered_example =
    mutate-IsOrdered full [] two (Request.move_before "w-2" (some "w-1")) "w-3" 7 two-IsOrdered refl

-- A workspace moved before itself goes to the end.
before_itself :
    (mutate_and_broadcast full []
      (mutate two (Request.move_before "w-1" (some "w-1")) "w-3" 7)
      (increments (Request.move_before "w-1" (some "w-1")) "w-3")).1.workspace_ids
    ≡ "w-2" ∷ "w-1" ∷ []
unfolding mutate_and_broadcast mutate contains retain_others position insert_at
before_itself = refl
