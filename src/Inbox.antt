-- ===== src/Inbox.antt =====
-- The agent inbox: pending input as a fold over durable splices
-- (rust/crates/vocoderd/src/machines/agent_inbox.rs).
mod Examples
pub mod Identity
pub mod Replay
pub mod Claim
pub mod Journal
use dsh_rs.Base.{
  ℕ, suc, ◌+◌, String, Option, none, some, List, [], ◌∷◌, ◌++◌, Bool, true, false, ◌||◌, Result, ok,
  err, ◌>>=◌, length, take, drop, str_eq, ltb, if◌then◌else◌, ℤ, pos, negsuc, is_negative, as_usize,
}
use dsh_rs.Json.{
  Value, null, string, array, to_items, json, u64, get, get_as, as_str, as_i64, as_array, unwrap_or,
}

pub data InboxTarget : Type 0 where
  next_turn next_step : InboxTarget

abbrev pub target_as_str : InboxTarget → String
target_as_str next_turn = "next-turn"
target_as_str next_step = "next-step"

abbrev pub parse_target : String → Option InboxTarget
parse_target s =
    if str_eq s "next-turn"
    then some next_turn
    else if str_eq s "next-step"
    then some next_step
    else none

pub data FoldError : Type 0 where
  unknown_target : String → FoldError
  -- start, removed, the length of the list
  bad_range : ℤ → ℤ → ℕ → FoldError
  duplicate_id : String → FoldError

pub record Inbox : Type 0 where
  pub next_turn : List Value
  pub next_step : List Value

abbrev pub new : Inbox
new = record { next_turn = []; next_step = [] }

-- The list that a target addresses, and a write to it.
abbrev pub list_of : Inbox → InboxTarget → List Value
list_of s next_turn = s.next_turn
list_of s next_step = s.next_step

abbrev pub with_list : Inbox → InboxTarget → List Value → Inbox
with_list s next_turn l = record s { next_turn = l }
with_list s next_step l = record s { next_step = l }

abbrev pub id_of : Value → String
id_of message = unwrap_or (get_as as_str message "id") ""

abbrev pub contains : List String → String → Bool
contains [] id = false
contains (s ∷ seen) id = str_eq s id || contains seen id

unfoldable pub check_ids : List String → List Value → Result FoldError (Unit {0})
check_ids seen [] = ok tt
check_ids seen (m ∷ ms) =
    let id = id_of m in
    let unidentified = check_ids seen ms in
    let identified = check_ids (id ∷ seen) ms in
    if str_eq id ""
    then unidentified
    else if contains seen id
    then err (duplicate_id id)
    else identified

-- No message may be pending twice, across either list.
unfoldable pub check_identities : Inbox → Result FoldError (Unit {0})
unfolding check_ids
check_identities s = check_ids [] (s.next_turn ++ s.next_step)

-- `list.splice(start..start + removed, inserted)`
abbrev pub splice_list : List Value → ℕ → ℕ → List Value → List Value
splice_list list start removed inserted = take start list ++ inserted ++ drop (start + removed) list

abbrev out_of_range : ℤ → ℤ → ℕ → Bool
out_of_range start removed len =
    is_negative start
    || is_negative removed
    || ltb len (as_usize start)
    || ltb len (as_usize start + as_usize removed)

-- One splice, once its row is read. A failed splice ends the fold, so the list is not kept.
unfoldable pub splice_at : Inbox → InboxTarget → ℤ → ℤ → List Value → Result FoldError Inbox
splice_at s target start removed inserted =
    let list = list_of s target in
    if out_of_range start removed (length list)
    then err (bad_range start removed (length list))
    else do
      let spliced =
          with_list s target (splice_list list (as_usize start) (as_usize removed) inserted)
      _ ← check_identities spliced
      ok spliced

-- The target that a row names, and a splice at it.
abbrev pub target_of : Value → Option InboxTarget
target_of payload = elim (get_as as_str payload "target") [ none ↦ none | some t ↦ parse_target t ]

unfoldable pub splice_named :
    Inbox → Option InboxTarget → String → ℤ → ℤ → List Value → Result FoldError Inbox
splice_named s none name start removed inserted = err (unknown_target name)
splice_named s (some target) name start removed inserted = splice_at s target start removed inserted

unfoldable pub apply_splice : Inbox → Value → Result FoldError Inbox
apply_splice s payload =
    splice_named s (target_of payload) (unwrap_or (get_as as_str payload "target") "")
      (unwrap_or (get_as as_i64 payload "start") (negsuc 0))
      (unwrap_or (get_as as_i64 payload "removedCount") (pos 0))
      (unwrap_or (get_as as_array payload "inserted") [])

abbrev pub is_splice_type : Option String → Bool
is_splice_type none = false
is_splice_type (some ty) = str_eq ty "agent/inbox/spliced"

abbrev pub is_splice : Value → Bool
is_splice row = is_splice_type (get_as as_str row "type")

unfoldable pub fold_from : Inbox → List Value → Result FoldError Inbox
fold_from s [] = ok s
fold_from s (row ∷ rows) =
    let skipped = fold_from s rows in
    let applied = apply_splice s (unwrap_or (get row "data") null) >>= λ t. fold_from t rows in
    if is_splice row then applied else skipped

-- Rebuild pending input from a session log.
pub fold : List Value → Result FoldError Inbox
fold rows = fold_from new rows

pub has_pending : Inbox → Bool
has_pending s = elim s.next_turn [
  | [] ↦ (elim s.next_step [ [] ↦ false | _ ∷ _ ↦ true ])
  | _ ∷ _ ↦ true
]

pub record Splice : Type 0 where
  pub target : InboxTarget
  pub start : ℕ
  pub removed : ℕ
  pub inserted : List Value

-- The row data as the log records it; `removedCount` is left out at zero.
unfoldable pub to_data : Splice → Value
to_data p =
    let head = λ (rest : List (String × Value)). json (
      ("target", string (target_as_str p.target))
      ∷ ("start", u64 p.start)
      ∷ ("inserted", array (to_items p.inserted))
      ∷ rest) in
    if ltb 0 p.removed then head (("removedCount", u64 p.removed) ∷ []) else head []

abbrev pub cut : InboxTarget → ℕ → ℕ → Splice
cut target start removed = record {
  target = target;
  start = start;
  removed = removed;
  inserted = [];
}

-- The claimed messages, the splices to record and the inbox that is left, for the two lists.
abbrev pub Claimed : Type 0
Claimed = List Value × List Splice × Inbox

abbrev pub claim_steps : List Value → List Value → Claimed
claim_steps turns steps =
    (steps, cut next_step 0 (length steps) ∷ [], record { next_turn = turns; next_step = [] })

abbrev pub claim_lists : List Value → List Value → InboxTarget → Claimed
claim_lists turns steps next_step = claim_steps turns steps
claim_lists [] steps next_turn = claim_steps [] steps
claim_lists (queued ∷ later) steps next_turn = (
  steps ++ queued ∷ [],
  cut next_step 0 (length steps) ∷ cut next_turn 0 1 ∷ [],
  record { next_turn = later; next_step = [] },
)

-- Take the batch that one step runs on; the turn number is not read.
unfoldable pub claim : Inbox → InboxTarget → ℕ → Claimed
claim s target _ = claim_lists s.next_turn s.next_step target

unfoldable pub append : Inbox → InboxTarget → Value → Splice × Inbox
append s target message =
    let list = list_of s target in
    (
      record { target = target; start = length list; removed = 0; inserted = message ∷ [] },
      with_list s target (list ++ message ∷ []),
    )

-- `m.get("id").and_then(Value::as_str) == Some(message_id)`
abbrev pub has_id : String → Value → Bool
has_id message_id m = elim (get_as as_str m "id") [ none ↦ false | some id ↦ str_eq id message_id ]

abbrev pub later : Option ℕ → Option ℕ
later none = none
later (some i) = some (suc i)

abbrev pub index_of : String → List Value → Option ℕ
index_of message_id [] = none
index_of message_id (m ∷ ms) =
    if has_id message_id m then some 0 else later (index_of message_id ms)

abbrev pub remove_at : ℕ → List Value → List Value
remove_at i list = take i list ++ drop (i + 1) list

abbrev pub removal : Inbox → InboxTarget → ℕ → Splice × Inbox
removal s target i = (cut target i 1, with_list s target (remove_at i (list_of s target)))

abbrev pub remove_found : Inbox → Option ℕ → Option ℕ → Option (Splice × Inbox)
remove_found s (some i) _ = some (removal s next_step i)
remove_found s none (some i) = some (removal s next_turn i)
remove_found s none none = none

-- Remove the first message with an identity, from the steps before the turns.
unfoldable pub remove : Inbox → String → Option (Splice × Inbox)
remove s message_id =
    remove_found s (index_of message_id s.next_step) (index_of message_id s.next_turn)
