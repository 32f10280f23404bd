-- ===== src/Settings/Writes.antt =====
-- The calls that read and write the settings document
-- (rust/crates/vocoderd/src/machines/settings.rs).
use dsh_rs.Base.{
  ℕ, String, concat, Option, none, some, List, [], ◌∷◌, map, true, false, Result, ok, err, ◌>>=◌,
  and_then, if◌then◌else◌, str_eq, ◌==◌, u64_succ,
}
use dsh_rs.Base.Dict.{Dict, lookup, insert, keys}
use dsh_rs.Json.{
  Value, null, bool, string, array, object, to_items, Fields, fields, end, field, json, u64, get,
  get_as, as_str, as_array, as_u64, unwrap_or,
}
use dsh_rs.Json.Same.{same}
use dsh_rs.Router.Effects.{EffectResult, RealizeRequest, WriteExpect, message}
use dsh_rs.Router.Messages.{MachineIn, MachineOut}
use dsh_rs.Rpc.{deep_merge, apply_mutate_op, is_object}
use dsh_rs.Rpc.Reply
use dsh_rs.Settings.{catalog, is_some, is_registered, Document, Settings}
use dsh_rs.Settings.Redact.{view_of}

abbrev sections_from : Fields → Dict Value
sections_from end = []
sections_from (field k section rest) = insert k section (sections_from rest)

abbrev revisions_from : Fields → Dict ℕ
revisions_from end = []
revisions_from (field k r rest) = elim (as_u64 r) [
  | none ↦ revisions_from rest
  | some n ↦ insert k n (revisions_from rest)
]

abbrev fields_at : Value → String → Fields
fields_at v k = elim (get v k) [ some (object fs) ↦ fs | _ ↦ end ]

abbrev document_from : Option Value → Document
document_from none = record { sections = []; revisions = [] }
document_from (some v) = record {
  sections = sections_from (fields_at v "sections");
  revisions = revisions_from (fields_at v "revisions");
}

-- `SettingsMachine::new`, given the path of the document and the parser of JSON.
unfoldable pub new : (String → Option Value) → String → Option String → Settings
new parse file contents = record {
  file = file;
  document = document_from (and_then contents parse);
  bases = [];
  has_document = is_some contents;
  effects = 0;
  pending_write = none;
}

abbrev pub numbers : Dict ℕ → Dict Value
numbers = map λ e. (e.0, u64 e.1)

abbrev no_namespace : List MachineOut
no_namespace =
    Reply.err_details "gateway/bad-request" "settings ns must be non-empty"
      (json (("issues", array (to_items (string "ns must be a non-empty string" ∷ []))) ∷ []))

abbrev unregistered : String → List MachineOut
unregistered ns =
    Reply.err_details "settings/rejected"
      (concat "settings namespace \"" (concat ns "\" is not registered"))
      (json (("ns", string ns) ∷ []))

abbrev pub conflict : String → ℕ → ℕ → List MachineOut
conflict ns want actual =
    Reply.err_details "settings/conflict" (concat "settings conflict on " ns)
      (json (("ns", string ns) ∷ ("expected", u64 want) ∷ ("actual", u64 actual) ∷ []))

abbrev refused : String → String → List MachineOut
refused ns message =
    Reply.err_details "settings/rejected" message
      (json (("ns", string ns) ∷ ("message", string message) ∷ []))

abbrev pub revision_of : Settings → String → ℕ
revision_of m ns = unwrap_or (lookup ns m.document.revisions) 0

abbrev pub section_of : Settings → String → Value
section_of m ns = unwrap_or (lookup ns m.document.sections) (json [])

abbrev pub check_revision : Option ℕ → String → ℕ → Result (List MachineOut) (Unit {0})
check_revision none ns current = ok tt
check_revision (some want) ns current =
    if want == current then ok tt else err (conflict ns want current)

abbrev pub check_ns : String → Result (List MachineOut) (Unit {0})
check_ns ns =
    if str_eq ns ""
    then err no_namespace
    else if is_registered ns
    then ok tt
    else err (unregistered ns)

abbrev pub check_write : Result String Value → String → Result (List MachineOut) Value
check_write (ok section) ns = ok section
check_write (err message) ns = err (refused ns message)

-- The section that a write leaves, or the refusal.
unfoldable pub written :
    Settings → String → Option ℕ → (Value → Result String Value) → Result (List MachineOut) Value
written m ns expected write = do
  _ ← check_ns ns
  _ ← check_revision expected ns (revision_of m ns)
  check_write (write (section_of m ns)) ns

abbrev pub arg_or_empty : Value → String → Value
arg_or_empty args key = unwrap_or (get args key) (json [])

abbrev pub ns_of : Value → String
ns_of args = unwrap_or (Reply.arg_str args "ns") ""

abbrev not_object : String → String → List MachineOut
not_object ns message =
    Reply.err_details "settings/rejected" message (json (("ns", string ns) ∷ []))

-- The operations of a `mutate`, one after the other, up to the first that fails.
unfoldable pub apply_ops : List Value → Value → Result String Value
apply_ops [] section = ok section
apply_ops (op ∷ ops) section = apply_mutate_op section op >>= apply_ops ops

-- A `BTreeSet` of the names to describe.
abbrev add_all : List String → Dict (Unit {0}) → Dict (Unit {0})
add_all [] names = names
add_all (n ∷ ns) names = add_all ns (insert n tt names)

abbrev described : Settings → List String
described m = keys (
    add_all (map (λ e. e.ns) catalog)
      (add_all (keys m.bases) (add_all (keys m.document.sections) [])))

abbrev pub describe : Settings → Value
describe m = json (
    ("writable", bool true)
    ∷ ("hasDocument", bool m.has_document)
    ∷ ("namespaces", array (to_items (map (view_of m) (described m))))
    ∷ [])

abbrev pub committed : Settings → String → Value → Settings
committed m ns section = record m {
  document = record {
    sections = insert ns section m.document.sections;
    revisions = insert ns (u64_succ (revision_of m ns)) m.document.revisions;
  };
}

-- `pretty` is serde_json's printer.
module _ (pretty : Value → String) where
  unfoldable pub persist : Settings → String → List MachineOut × Settings
  persist m ns =
      let body = json (
        ("sections", object (fields m.document.sections))
        ∷ ("revisions", object (fields (numbers m.document.revisions)))
        ∷ []) in
      (
        Reply.effect m.effects (RealizeRequest.write_text m.file (pretty body) WriteExpect.any)
            ∷ [],
        record m { effects = u64_succ m.effects; pending_write = some (m.effects, ns) },
      )

  -- A write that changes nothing succeeds and keeps the revision.
  abbrev pub finish :
      Settings → String → Result (List MachineOut) Value → List MachineOut × Settings
  finish m ns (err outs) = (outs, m)
  finish m ns (ok section) =
      if same section (section_of m ns)
      then (Reply.ok (view_of m ns), m)
      else persist (committed m ns section) ns

  unfoldable pub apply_write :
      Settings → String → Option ℕ → (Value → Result String Value) → List MachineOut × Settings
  apply_write m ns expected write = finish m ns (written m ns expected write)

  abbrev pub update : Settings → Value → List MachineOut × Settings
  update m args =
      let patch = arg_or_empty args "patch" in
      if is_object patch
      then apply_write m (ns_of args) (Reply.arg_u64 args "expectedRevision")
          (λ section. ok (deep_merge section patch))
      else (not_object (ns_of args) "update patch must be a plain object", m)

  abbrev pub replace : Settings → Value → List MachineOut × Settings
  replace m args =
      let section = arg_or_empty args "section" in
      if is_object section
      then apply_write m (ns_of args) (Reply.arg_u64 args "expectedRevision") (λ _. ok section)
      else (not_object (ns_of args) "replace section must be a plain object", m)

  abbrev pub mutate_with : Settings → Value → Option (List Value) → List MachineOut × Settings
  mutate_with m args none = (not_object (ns_of args) "mutate ops must be an array", m)
  mutate_with m args (some ops) =
      apply_write m (ns_of args) (Reply.arg_u64 args "expectedRevision") (apply_ops ops)

  abbrev pub mutate : Settings → Value → List MachineOut × Settings
  mutate m args = mutate_with m args (get_as as_array args "ops")

  unfoldable pub call : Settings → String → Value → List MachineOut × Settings
  call m method args =
      if str_eq method "describe"
      then (Reply.ok (describe m), m)
      else if str_eq method "update"
      then update m args
      else if str_eq method "replace"
      then replace m args
      else if str_eq method "mutate"
      then mutate m args
      else if str_eq method "openSettingsDocument"
      then (Reply.ok (json (("opened", bool false) ∷ [])), m)
      else if str_eq method "canOpenAgentPresetDirectory"
      then (Reply.ok (bool false), m)
      else if str_eq method "openAgentPresetDirectory"
      then (
        Reply.err_details "agent-preset/not-found" "no agent preset directory available" (
            json (
              ("agentPreset", unwrap_or (get args "agentPreset") null)
              ∷ ("available", array (to_items []))
              ∷ [])),
        m,
      )
      else (Reply.err "gateway/bad-request" (concat "unsupported settings method: " method), m)

  -- What the answer to a write makes of the call that waits for it.
  abbrev pub confirm : Settings → String → EffectResult → List MachineOut × Settings
  confirm m ns EffectResult.done =
      let m' = record m { has_document = true } in (Reply.ok (view_of m' ns), m')
  confirm m ns (EffectResult.failed e) =
      (Reply.err "gateway/internal" (concat "persisting settings: " (message e)), m)
  confirm m ns _ = (Reply.err "gateway/internal" "settings write got an odd effect result", m)

  abbrev pub resume : Settings → Option (ℕ × String) → EffectResult → List MachineOut × Settings
  resume m none result = ([], m)
  resume m (some (id, ns)) result = confirm (record m { pending_write = none }) ns result

  -- `SettingsMachine::handle`
  unfoldable pub handle : Settings → MachineIn → List MachineOut × Settings
  handle m (MachineIn.effect_result id result) = resume m m.pending_write result
  handle m (MachineIn.event name payload) =
      let method = unwrap_or (get_as as_str payload "method") "" in
      let called = call m method (unwrap_or (get payload "args") null) in
      if str_eq name (Reply.call_event "settings") then called else ([], m)
  handle m _ = ([], m)
