-- ===== src/Tool/Edit.antt =====
-- The `write` and `edit` tools: their requests, and the edit of a text
-- (rust/crates/vocoderd/src/machines/tool.rs). The diffs are those of `hunk_diffs`.
use Prim.Native.Char.{code}
use dsh_rs.Base.{
  ℕ, zero, suc, ◌-◌, String, concat, Option, none, some, [], ◌∷◌, Bool, false, not, ◌&&◌, Result,
  ok, err, ◌>>=◌, and_then, str_eq, ◌==◌, ltb, if◌then◌else◌, show,
}
use dsh_rs.Base.Text.{is_nil}
use dsh_rs.Json.{Value, bool, json, lookup, unwrap_or}
use dsh_rs.Tool.{Arguments, text_arg, Outcome, text, with_meta}
use dsh_rs.Tool.Read.{display_path, required, file_path}
use dsh_rs.Tool.Page.{chars}

pub record WriteRequest : Type 0 where
  pub path : String
  pub contents : String

unfoldable pub write_request : Arguments → String → Result String WriteRequest
write_request arguments root = do
  (args, raw) ← file_path arguments
  contents ← required (text_arg args "content") "content must be a string"
  ok (record { path = display_path root raw; contents = contents })

abbrev enveloped : String → String → String
enveloped display verb =
    concat (concat "<path>" (concat display "</path>\n<type>file</type>\n<content>\n"))
      (concat verb " file\n</content>")

abbrev pub write_outcome : String → String → Option String → String → Value → Outcome
write_outcome display operation before after diffs =
    let verb = if str_eq operation "create" then "Created" else "Updated" in
    with_meta (text (enveloped display verb)) (json (("diffs", diffs) ∷ []))

pub record EditRequest : Type 0 where
  pub path : String
  pub old : String
  pub new : String
  pub replace_all : Bool

abbrev as_bool : Value → Option Bool
as_bool (bool b) = some b
as_bool _ = none

-- What both requests and their refusals say of the two texts.
abbrev distinct : String → String → Result String (Unit {0})
distinct old new = if str_eq old new then err "old_string and new_string must differ" else ok tt

abbrev non_empty : String → Result String (Unit {0})
non_empty old = if is_nil old then err "old_string must be a non-empty string" else ok tt

unfoldable pub edit_request : Arguments → String → Result String EditRequest
edit_request arguments root = do
  (args, raw) ← file_path arguments
  old ← required (text_arg args "old_string") "old_string must be a non-empty string"
  _ ← non_empty old
  new ← required (text_arg args "new_string") "new_string must be a string"
  _ ← distinct old new
  let all = unwrap_or (and_then (lookup "replace_all" args) as_bool) false
  ok (record { path = display_path root raw; old = old; new = new; replace_all = all })

pub record Edited : Type 0 where
  pub before : String
  pub after : String

-- `text.strip_prefix(old)`
unfoldable pub strip : String → String → Option String
strip String.[] s = some s
strip (String.◌∷◌ c old) String.[] = none
strip (String.◌∷◌ c old) (String.◌∷◌ d s) =
    let rest = strip old s in if code c == code d then rest else none

-- `text.matches(old).count()`, the first `skip` characters belonging to the match before them. A
-- request's `old` is not empty.
unfoldable pub matches : String → ℕ → String → ℕ
unfolding strip
matches old skip String.[] = zero
matches old (suc skip) (String.◌∷◌ c s) = matches old skip s
matches old zero (String.◌∷◌ c s) = elim (strip old (String.◌∷◌ c s)) [
  | none ↦ matches old zero s
  | some _ ↦ suc (matches old (chars old - 1) s)
]

-- `text.replacen(old, new, times)`, in the same way.
unfoldable pub replacen : String → String → ℕ → ℕ → String → String
unfolding strip
replacen old new times skip String.[] = ""
replacen old new times (suc skip) (String.◌∷◌ c s) = replacen old new times skip s
replacen old new zero zero (String.◌∷◌ c s) = String.◌∷◌ c s
replacen old new (suc times) zero (String.◌∷◌ c s) = elim (strip old (String.◌∷◌ c s)) [
  | none ↦ String.◌∷◌ c (replacen old new (suc times) zero s)
  | some _ ↦ concat new (replacen old new times (chars old - 1) s)
]

-- `text.replace(old, new)` replaces as many as there are.
abbrev pub apply_edit : String → EditRequest → Result String Edited
apply_edit s r =
    let count = matches r.old 0 s in
    if count == 0
    then err (concat "old_string was not found in \"" (concat r.path "\""))
    else if ltb 1 count && not r.replace_all
    then err (
        concat (concat "old_string matched " (concat (show count) " times in \""))
          (concat r.path "\"; provide a more specific old_string or set replace_all to true"))
    else ok (record {
      before = s;
      after = replacen r.old r.new (if r.replace_all then count else 1) 0 s;
    })

abbrev pub edit_outcome : String → Bool → String → String → Value → Outcome
edit_outcome display all before after diffs =
    with_meta
      (text (
        concat (concat "The file " display) (
          if all
          then " has been updated. All occurrences were successfully replaced."
          else " has been updated successfully.")))
      (json (("diffs", diffs) ∷ []))
