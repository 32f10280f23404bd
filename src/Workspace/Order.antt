-- ===== src/Workspace/Order.antt =====
-- The order lists every workspace once (rust/crates/vocoderd/src/machines/workspace.rs).
use dsh_rs.Base.{
  ℕ, ◌≡◌, ◌+◌, ◌≤◌, refl, sym, ap, ◌∙◌, subst, inl, inr, String, Option, none, some, List, Bool,
  true, false, not, str_eq, eq_iff, if◌then◌else◌, Bool-cases, Option-cases, arith,
}
use dsh_rs.Base.Dict.{lookup, insert, erase, lookup-insert, lookup-erase}
use dsh_rs.Json.{Value}
use dsh_rs.Workspace.{
  WorkspaceRecord, WorkspaceRegistryData, MutateOutcome, settled, mutate_and_broadcast, contains,
  retain_others, moved, has,
}
use dsh_rs.Workspace.Counts.{count, count-append, count-retain_others, contains-count, count-moved}
use dsh_rs.Workspace.Calls.{
  Request, find_path, has_title, add_record, created, create, rename, mutate, increments,
}

abbrev pub once : Option WorkspaceRecord → ℕ
once none = 0
once (some r) = 1

-- A workspace that has a record is listed once, and no other.
abbrev pub IsOrdered : WorkspaceRegistryData → Type 0
IsOrdered d = (id : String) → count id d.workspace_ids ≡ once (lookup id d.records)

one_more : 0 + 1 ≡ 1
one_more = omega arith

-- A record changed under an id that has one keeps the order.
updated-IsOrdered :
    (d : WorkspaceRegistryData) (id : String) (r r' : WorkspaceRecord)
    → IsOrdered d
    → lookup id d.records ≡ some r
    → IsOrdered (record d { records = insert id r' d.records })
updated-IsOrdered d id r r' h e j =
    let (same, apart) = lookup-insert d.records id r' j in
    elim (Bool-cases (str_eq id j)) [
      | inl t ↦
          h j
          ∙ ap (λ k. once (lookup k d.records)) (sym ((eq_iff id j).0 t))
          ∙ ap once e
          ∙ ap once (sym (same t))
      | inr f ↦ h j ∙ ap once (sym (apart f))
    ]

added-IsOrdered :
    (d : WorkspaceRegistryData) (id : String) (r : WorkspaceRecord)
    → IsOrdered d
    → lookup id d.records ≡ none
    → IsOrdered (add_record d id r)
added-IsOrdered d id r h fresh j =
    let (same, apart) = lookup-insert d.records id r j in
    count-append j id d.workspace_ids ∙ elim (Bool-cases (str_eq id j)) [
      | inl t ↦
          ap (λ b. count j d.workspace_ids + (if b then 1 else 0)) t
          ∙ ap (λ n. n + 1)
              (h j ∙ ap (λ k. once (lookup k d.records)) (sym ((eq_iff id j).0 t)) ∙ ap once fresh)
          ∙ one_more
          ∙ ap once (sym (same t))
      | inr f ↦
          ap (λ b. count j d.workspace_ids + (if b then 1 else 0)) f
          ∙ omega (arith, h j, ap once (apart f))
    ]

deleted-IsOrdered :
    (d : WorkspaceRegistryData) (id : String)
    → IsOrdered d
    → IsOrdered (record d {
      workspace_ids = retain_others id d.workspace_ids;
      records = erase id d.records;
    })
deleted-IsOrdered d id h j =
    count-retain_others j id d.workspace_ids ∙ elim (Bool-cases (str_eq id j)) [
      | inl t ↦
          ap (λ b. if b then 0 else count j d.workspace_ids) t
          ∙ sym (
              ap once
                (lookup-erase d.records id j ∙ ap (λ b. if b then none else lookup j d.records) t))
      | inr f ↦
          ap (λ b. if b then 0 else count j d.workspace_ids) f
          ∙ h j
          ∙ sym (
              ap once
                (lookup-erase d.records id j ∙ ap (λ b. if b then none else lookup j d.records) f))
    ]

once-le : (o : Option WorkspaceRecord) → once o ≤ 1
once-le none = omega arith
once-le (some r) = omega arith

moved-IsOrdered :
    (d : WorkspaceRegistryData) (id : String) (before : Option String)
    → IsOrdered d
    → contains d.workspace_ids id ≡ true
    → IsOrdered (record d { workspace_ids = moved id before d.workspace_ids })
moved-IsOrdered d id before h e j =
    count-moved j id before d.workspace_ids
      (omega (arith, contains-count id d.workspace_ids e, h id, once-le (lookup id d.records)))
    ∙ h j

if-IsOrdered :
    (b : Bool) (x y : MutateOutcome)
    → (b ≡ true → IsOrdered x.registry)
    → (b ≡ false → IsOrdered y.registry)
    → IsOrdered (if b then x else y).registry
if-IsOrdered true x y hx hy = hx refl
if-IsOrdered false x y hx hy = hy refl

-- A change to a workspace that may have no record.
of_lookup :
    (d : WorkspaceRegistryData) (id : String) (P : MutateOutcome → Type 0) (x : MutateOutcome)
    (f : WorkspaceRecord → MutateOutcome)
    → P x
    → ((r : WorkspaceRecord) → lookup id d.records ≡ some r → P (f r))
    → P (elim (lookup id d.records) [ none ↦ x | some r ↦ f r ])
of_lookup d id P x f hx hf = elim (Option-cases (lookup id d.records)) [
  | inl e ↦ subst (λ o. P (elim o [ none ↦ x | some r ↦ f r ])) (sym e) hx
  | inr (r, e) ↦ subst (λ o. P (elim o [ none ↦ x | some r ↦ f r ])) (sym e) (hf r e)
]

abbrev Keeps : MutateOutcome → Type 0
Keeps o = IsOrdered o.registry

create-IsOrdered :
    (d : WorkspaceRegistryData) (path title new_id : String) (now : ℕ)
    → IsOrdered d
    → lookup new_id d.records ≡ none
    → Keeps (create d path title new_id now)
create-IsOrdered d path title new_id now h fresh = elim (Option-cases (find_path d.records path)) [
  | inl e ↦
      subst (λ o. Keeps (created d path title new_id now o)) (sym e)
        (added-IsOrdered d new_id _ h fresh)
  | inr ((id, r), e) ↦ subst (λ o. Keeps (created d path title new_id now o)) (sym e) h
]

rename-IsOrdered :
    (d : WorkspaceRegistryData) (id title : String) (now : ℕ)
    → IsOrdered d
    → Keeps (rename d id title now)
rename-IsOrdered d id title now h = of_lookup d id Keeps _ _ h (λ r e.
    if-IsOrdered (has_title d.records id title) _ _ (λ _. h)
      (λ _. if-IsOrdered (str_eq r.title title) _ _ (λ _. h) (λ _. updated-IsOrdered d id r _ h e)))

settled-IsOrdered :
    (streams : List String) (o : MutateOutcome) (f : WorkspaceRegistryData → List Value)
    (e : Option String)
    → Keeps o
    → IsOrdered (settled streams o f e).1
settled-IsOrdered streams o f none h = h
settled-IsOrdered streams o f (some e) h = h

calls-IsOrdered :
    (d : WorkspaceRegistryData) (request : Request) (new_id : String) (now : ℕ)
    → IsOrdered d
    → lookup new_id d.records ≡ none
    → Keeps (mutate d request new_id now)
unfolding mutate
calls-IsOrdered d (Request.create_at path title) new_id now h fresh =
    create-IsOrdered d path title new_id now h fresh
calls-IsOrdered d (Request.rename_to id title) new_id now h fresh =
    rename-IsOrdered d id title now h
calls-IsOrdered d (Request.delete_one id) new_id now h fresh =
    of_lookup d id Keeps _ _ h (λ r e. deleted-IsOrdered d id h)
calls-IsOrdered d (Request.move_before id before) new_id now h fresh =
    if-IsOrdered (not (contains d.workspace_ids id)) _ _ (λ _. h)
      (λ listed.
        if-IsOrdered (not (has before d.workspace_ids)) _ _ (λ _. h)
          (λ _. moved-IsOrdered d id before h (ground arith)))
calls-IsOrdered d (Request.session_before id session before) new_id now h fresh =
    of_lookup d id Keeps _ _ h (λ r e. updated-IsOrdered d id r _ h e)
calls-IsOrdered d (Request.archive session) new_id now h fresh = h

-- Whatever call is made, and whether or not the registry can be written, the order goes on to list
-- exactly the workspaces that have a record, each once, if a new id is that of no workspace.
pub mutate-IsOrdered :
    (persist : WorkspaceRegistryData → Option String) (streams : List String)
    (d : WorkspaceRegistryData) (request : Request) (new_id : String) (now : ℕ)
    → IsOrdered d
    → lookup new_id d.records ≡ none
    → IsOrdered
        (mutate_and_broadcast persist streams
          (mutate d request new_id now)
          (increments request new_id)).1
unfolding mutate_and_broadcast
mutate-IsOrdered persist streams d request new_id now h fresh =
    settled-IsOrdered streams (mutate d request new_id now) (increments request new_id) _
      (calls-IsOrdered d request new_id now h fresh)
