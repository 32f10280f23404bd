-- ===== src/Workspace/Calls.antt =====
-- The calls that change the registry, once what they ask of the file system is known
-- (rust/crates/vocoderd/src/machines/workspace.rs). New ids, times and the last part of a path are
-- arguments.
use dsh_rs.Base.{
  ℕ, String, concat, Option, none, some, List, [], ◌∷◌, ◌++◌, Bool, true, false, not, ◌&&◌, str_eq,
  if◌then◌else◌,
}
use dsh_rs.Base.Dict.{Dict, lookup, insert, erase}
use dsh_rs.Json.{Value, bool, string, json}
use dsh_rs.Rpc.Reply
use dsh_rs.Workspace.{
  WorkspaceRecord, WorkspaceRegistryData, MutateOutcome, ok_broadcast, refused, view_of, texts,
  contains, retain_others, moved, not_found, has,
}

unfoldable pub find_path : Dict WorkspaceRecord → String → Option (String × WorkspaceRecord)
find_path [] path = none
find_path ((id, r) ∷ rest) path =
    let later = find_path rest path in if str_eq r.path path then some (id, r) else later

abbrev pub add_record : WorkspaceRegistryData → String → WorkspaceRecord → WorkspaceRegistryData
add_record d id r = record d {
  initialized = true;
  workspace_ids = d.workspace_ids ++ id ∷ [];
  records = insert id r d.records;
}

abbrev new_record : String → String → ℕ → WorkspaceRecord
new_record path title now = record {
  path = path;
  title = title;
  session_ids = [];
  created_at = now;
  updated_at = now;
}

abbrev pub created :
    WorkspaceRegistryData
    → String
    → String
    → String
    → ℕ
    → Option (String × WorkspaceRecord)
    → MutateOutcome
created d path title new_id now (some (id, r)) =
    refused (Reply.ok (json (("created", bool false) ∷ ("workspace", view_of id r) ∷ []))) d
created d path title new_id now none =
    let r = new_record path title now in
    ok_broadcast (Reply.ok (json (("created", bool true) ∷ ("workspace", view_of new_id r) ∷ [])))
      (add_record d new_id r)

-- `create`, the path being that of a directory
abbrev pub create : WorkspaceRegistryData → String → String → String → ℕ → MutateOutcome
create d path title new_id now = created d path title new_id now (find_path d.records path)

unfoldable pub has_title : Dict WorkspaceRecord → String → String → Bool
has_title [] id title = false
has_title ((other, r) ∷ rest) id title =
    let later = has_title rest id title in
    if not (str_eq other id) && str_eq r.title title then true else later

abbrev retitled : WorkspaceRegistryData → String → String → ℕ → WorkspaceRecord → MutateOutcome
retitled d id title now r =
    if str_eq r.title title
    then refused (Reply.ok (json (("workspace", view_of id r) ∷ []))) d
    else let r' = record r { title = title; updated_at = now } in
      ok_broadcast (Reply.ok (json (("workspace", view_of id r') ∷ [])))
        (record d { records = insert id r' d.records })

-- `rename` to a title that was trimmed and is not blank
abbrev pub rename : WorkspaceRegistryData → String → String → ℕ → MutateOutcome
rename d id title now = elim (lookup id d.records) [
  | none ↦ refused (not_found id) d
  | some r ↦
      if has_title d.records id title
      then refused
          (Reply.err_details "workspace/name-conflict"
            (concat "a workspace named " (concat title " already exists"))
            (json (("name", string title) ∷ [])))
          d
      else retitled d id title now r
]

abbrev pub delete : WorkspaceRegistryData → String → MutateOutcome
delete d id = elim (lookup id d.records) [
  | none ↦ refused (not_found id) d
  | some r ↦
      ok_broadcast (Reply.ok (json (("deleted", bool true) ∷ []))) (record d {
        workspace_ids = retain_others id d.workspace_ids;
        records = erase id d.records;
      })
]

abbrev missing_one : Option String → String
missing_one none = ""
missing_one (some b) = b

abbrev pub insert_before : WorkspaceRegistryData → String → Option String → MutateOutcome
insert_before d id before =
    if not (contains d.workspace_ids id)
    then refused (not_found id) d
    else if not (has before d.workspace_ids)
    then refused (not_found (missing_one before)) d
    else let ids = moved id before d.workspace_ids in
      ok_broadcast (Reply.ok (json (("workspaceIds", texts ids) ∷ [])))
        (record d { workspace_ids = ids })

-- A session that is not listed is put in front first, so that it is taken out again.
abbrev pub insert_session_before :
    WorkspaceRegistryData → String → String → Option String → ℕ → MutateOutcome
insert_session_before d id session before now = elim (lookup id d.records) [
  | none ↦ refused (not_found id) d
  | some r ↦
      let listed =
        if contains r.session_ids session then r.session_ids else session ∷ r.session_ids in
      let r' = record r { session_ids = moved session before listed; updated_at = now } in
      ok_broadcast (Reply.ok (json (("workspace", view_of id r') ∷ [])))
        (record d { records = insert id r' d.records })
]

-- `archive_session` for a session that exists
abbrev pub archive_session : WorkspaceRegistryData → String → MutateOutcome
archive_session d session =
    let archived =
      if contains d.archived_session_ids session
      then d.archived_session_ids
      else d.archived_session_ids ++ session ∷ [] in
    ok_broadcast (Reply.ok (json (("archivedSessionIds", texts archived) ∷ [])))
      (record d { archived_session_ids = archived })

-- What is told after each call, of the data as it is then.
abbrev pub upsert : String → WorkspaceRegistryData → List Value
upsert id d = elim (lookup id d.records) [
  | none ↦ []
  | some r ↦ json (("type", string "upsert") ∷ ("workspace", view_of id r) ∷ []) ∷ []
]

abbrev pub order : WorkspaceRegistryData → List Value
order d = json (("type", string "order") ∷ ("workspaceIds", texts d.workspace_ids) ∷ []) ∷ []

abbrev pub removed : String → WorkspaceRegistryData → List Value
removed id d = json (("type", string "remove") ∷ ("workspaceId", string id) ∷ []) ∷ order d

abbrev pub archived : WorkspaceRegistryData → List Value
archived d =
    json (("type", string "archived") ∷ ("archivedSessionIds", texts d.archived_session_ids) ∷ [])
    ∷ []

pub data Request : Type 0 where
  create_at : String → String → Request
  rename_to : String → String → Request
  delete_one : String → Request
  move_before : String → Option String → Request
  session_before : String → String → Option String → Request
  archive : String → Request

-- The mutation of a call, and what is told after it.
unfoldable pub mutate : WorkspaceRegistryData → Request → String → ℕ → MutateOutcome
mutate d (Request.create_at path title) new_id now = create d path title new_id now
mutate d (Request.rename_to id title) new_id now = rename d id title now
mutate d (Request.delete_one id) new_id now = delete d id
mutate d (Request.move_before id before) new_id now = insert_before d id before
mutate d (Request.session_before id session before) new_id now =
    insert_session_before d id session before now
mutate d (Request.archive session) new_id now = archive_session d session

abbrev pub increments : Request → String → WorkspaceRegistryData → List Value
increments (Request.create_at path title) new_id = upsert new_id
increments (Request.rename_to id title) new_id = upsert id
increments (Request.delete_one id) new_id = removed id
increments (Request.move_before id before) new_id = order
increments (Request.session_before id session before) new_id = upsert id
increments (Request.archive session) new_id = archived
