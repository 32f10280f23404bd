-- ===== src/Workspace/Requests.antt =====
-- The requests of the workspace namespace, and its followers
-- (rust/crates/vocoderd/src/machines/workspace.rs). `create` and `archiveSession` go on in
-- Workspace.Calls once the file system has answered, which is not modelled.
use dsh_rs.Base.{
  ℕ, String, concat, Option, none, some, List, [], ◌∷◌, ◌++◌, ◌||◌, Result, ok, err, ◌>>=◌, str_eq,
  if◌then◌else◌,
}
use dsh_rs.Base.Dict.{lookup}
use dsh_rs.Json.{Value, string, array, to_items, json, get_as, as_str, unwrap_or}
use dsh_rs.Router.Messages.{MachineOut}
use dsh_rs.Rpc.Reply
use dsh_rs.Commands.Parse.{trim}
use dsh_rs.Workspace.{WorkspaceRegistryData, mutate_and_broadcast, retain_others, view_of, texts}
use dsh_rs.Workspace.Calls.{Request, mutate, increments}

abbrev required : Value → String → Result (List MachineOut) String
required req key = elim (get_as as_str req key) [
  | none ↦ err (Reply.err "gateway/bad-request" (concat "missing " key))
  | some s ↦ ok s
]

abbrev not_blank : String → Result (List MachineOut) (Unit {0})
not_blank title =
    if str_eq title ""
    then err (
        Reply.err_details "gateway/bad-request" "blank workspace title"
          (json (("issues", texts ("title must not be blank" ∷ [])) ∷ [])))
    else ok tt

abbrev pub rename_request : Value → Result (List MachineOut) Request
rename_request req = do
  id ← required req "workspaceId"
  let title = trim (unwrap_or (get_as as_str req "title") "")
  _ ← not_blank title
  ok (Request.rename_to id title)

abbrev pub delete_request : Value → Result (List MachineOut) Request
delete_request req = do id ← required req "workspaceId"; ok (Request.delete_one id)

abbrev pub insert_before_request : Value → Result (List MachineOut) Request
insert_before_request req = do
  id ← required req "workspaceId"
  ok (Request.move_before id (get_as as_str req "beforeWorkspaceId"))

abbrev pub insert_session_before_request : Value → Result (List MachineOut) Request
insert_session_before_request req = do
  id ← required req "workspaceId"
  session ← required req "sessionId"
  ok (Request.session_before id session (get_as as_str req "beforeSessionId"))

-- The view of every workspace in the order, as far as it has a record.
unfoldable pub items : WorkspaceRegistryData → List String → List Value
items d [] = []
items d (id ∷ ids) =
    let rest = items d ids in
    elim (lookup id d.records) [ none ↦ rest | some r ↦ view_of id r ∷ rest ]

abbrev pub baseline : WorkspaceRegistryData → Value
baseline d = json (
    ("type", string "baseline")
    ∷ (
      "value",
      json (
          ("items", array (to_items (items d d.workspace_ids)))
          ∷ ("archivedSessionIds", texts d.archived_session_ids)
          ∷ []),
    )
    ∷ [])

abbrev pub follow_snapshot : WorkspaceRegistryData → List MachineOut
follow_snapshot d = Reply.ok (baseline d)

-- A follower is added, and told how things stand.
abbrev pub stream_open :
    List String → WorkspaceRegistryData → String → List MachineOut × List String
stream_open streams d id = (Reply.stream_item id (baseline d) ∷ [], streams ++ id ∷ [])

abbrev pub stream_close : List String → String → List String
stream_close streams id = retain_others id streams

abbrev answered :
    (WorkspaceRegistryData → Option String)
    → List String
    → WorkspaceRegistryData
    → String
    → ℕ
    → Result (List MachineOut) Request
    → List MachineOut × WorkspaceRegistryData
answered persist streams d new_id now (err outs) = (outs, d)
answered persist streams d new_id now (ok r) =
    mutate_and_broadcast persist streams (mutate d r new_id now) (increments r new_id)

-- `asking` answers the two methods that ask something of the file system first.
unfoldable pub run :
    (WorkspaceRegistryData → Option String)
    → (String → Value → List MachineOut × WorkspaceRegistryData)
    → List String
    → WorkspaceRegistryData
    → String
    → Value
    → String
    → ℕ
    → List MachineOut × WorkspaceRegistryData
run persist asking streams d method req new_id now =
    if str_eq method "create" || str_eq method "archiveSession"
    then asking method req
    else if str_eq method "rename"
    then answered persist streams d new_id now (rename_request req)
    else if str_eq method "delete"
    then answered persist streams d new_id now (delete_request req)
    else if str_eq method "insertBefore"
    then answered persist streams d new_id now (insert_before_request req)
    else if str_eq method "insertSessionBefore"
    then answered persist streams d new_id now (insert_session_before_request req)
    else if str_eq method "follow"
    then (follow_snapshot d, d)
    else (Reply.err "gateway/bad-request" (concat "unsupported workspace method: " method), d)
