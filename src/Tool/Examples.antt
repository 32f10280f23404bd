-- ===== src/Tool/Examples.antt =====
-- A file of three lines read, edited, and a wider mode asked for
-- (rust/crates/vocoderd/src/machines/tool.rs).
use text.Mathlib.TextLemmas.{cons-ne-nil}
use dsh_rs.Base.{◌≡◌, ◌⊎◌, refl, String, List, [], ◌∷◌, true, false, ok, err, ◌≤◌, arith}
use dsh_rs.Base.{◌<◌, ℕ, suc, take, drop, length}
use dsh_rs.Json.{string, fields}
use dsh_rs.Sandbox.{Mode, fence, widening, parse_mode}
use dsh_rs.Teams.{is_blank}
use dsh_rs.Tool.{Arguments, Gate, gate}
use dsh_rs.Tool.Gating.{Asks, gate-Asks}
use dsh_rs.Tool.Read.{ReadWindow, read_max_bytes}
use dsh_rs.Tool.Weight.{page_bytes}
use dsh_rs.Tool.Page.{page}
use dsh_rs.Tool.Pages.{page_lem, pages, pages_lem}
use dsh_rs.Tool.Scan.{numbered}
use dsh_rs.Tool.Edit.{EditRequest, Edited, apply_edit, matches, replacen, strip}
use dsh_rs.Tool.Replaced.{IsEdit, apply_edit_lem}
use dsh_rs.Tool.Page.{chars}

abbrev three : List String
three = "one" ∷ "two" ∷ "three" ∷ []

pages_lem_example :
    pages 4 (record { path = "/w/a"; offset = 1; limit = 2 }) three ≡ numbered 1 three
pages_lem_example = pages_lem "/w/a" 2 three (omega arith)

abbrev second : ReadWindow
second = record { path = "/w/a"; offset = 2; limit = 1 }

page_lem_example :
    (k : ℕ) × ((page second three).0 ≡ numbered 2 (take k (drop 1 three)))
    × (k ≤ 1)
    × (k ≤ 2)
    × (2 ≤ length three → 1 ≤ k)
    × ((page second three).1 ≡ true → k < 2)
    × (page_bytes (take k (drop 1 three)) ≤ read_max_bytes)
    × ((page second three).1 ≡ true → read_max_bytes < page_bytes (take (suc k) (drop 1 three)))
    × ((page second three).1 ≡ false → (k ≡ 1) ⊎ (k ≡ 2))
page_lem_example = page_lem second three (omega arith, omega arith)

abbrev request : EditRequest
request = record { path = "/w/a"; old = "ab"; new = "c"; replace_all = true }

edited : apply_edit "xabyab" request ≡ ok (record { before = "xabyab"; after = "xcyc" })
unfolding matches replacen strip chars
edited = refl

apply_edit_lem_example :
    ((d : Edited) × (apply_edit "xabyab" request ≡ ok d) × IsEdit request "xabyab" d)
    ⊎ ((message : String) × (apply_edit "xabyab" request ≡ err message)
        × ((matches "ab" 0 "xabyab" ≡ 0) ⊎ ((2 ≤ matches "ab" 0 "xabyab") × (true ≡ false))))
apply_edit_lem_example = apply_edit_lem "xabyab" request (λ e. cons-ne-nil _ _ e)

abbrev escalation : Arguments
escalation = Arguments.an_object (
    fields (
      ("sandbox_permissions", string "danger-full-access")
      ∷ ("justification", string "deploy")
      ∷ []))

asked :
    gate "bash" escalation (fence Mode.workspace_write "/w")
    ≡ Gate.ask "escalate sandbox to danger-full-access: deploy"
unfolding gate parse_mode widening is_blank
asked = refl

gate-Asks_example : Asks escalation (fence Mode.workspace_write "/w")
gate-Asks_example = gate-Asks "bash" escalation Mode.workspace_write "/w" _ asked
