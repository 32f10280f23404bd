-- ===== src/Inbox/Examples.antt =====
-- The inbox on concrete messages (rust/crates/vocoderd/src/machines/agent_inbox.rs).
use dsh_rs.Base.{◌≡◌, refl, String, List, [], ◌∷◌, ok, err, eq_iff, arith}
use dsh_rs.Json.{Value, string, json}
use dsh_rs.Inbox.{
  Inbox, next_turn, next_step, new, duplicate_id, check_ids, check_identities, splice_at,
  splice_named, apply_splice, fold_from, Splice, to_data, cut, claim, append, remove,
}
use dsh_rs.Inbox.Identity.{IsUnique, fold_from-IsUnique}
use dsh_rs.Inbox.Journal.{
  Op, appends, claims, removes, perform, after, journal, AllAdmitted, Recorded, done, row, other,
  fold_from-journal,
}

abbrev message : String → Value
message id = json (("id", string id) ∷ [])

abbrev splice_row : Splice → Value
splice_row p = json (("type", string "agent/inbox/spliced") ∷ ("data", to_data p) ∷ [])

abbrev turn_row : Value
turn_row = json (("type", string "turn/start") ∷ [])

abbrev two_queued : Inbox
two_queued = record { next_turn = message "a" ∷ message "b" ∷ []; next_step = message "c" ∷ [] }

abbrev repeated : Inbox
repeated = record { next_turn = message "a" ∷ []; next_step = message "a" ∷ [] }

check-repeated : check_identities repeated ≡ err (duplicate_id "a")
unfolding check_identities check_ids
check-repeated = refl

-- Append two messages, take one back, and claim the other.
abbrev ops : List Op
ops =
    appends next_turn (message "a")
    ∷ appends next_step (message "b")
    ∷ removes "b"
    ∷ claims next_turn 1
    ∷ []

after-ops : after new ops ≡ new
unfolding after perform append remove claim
after-ops = refl

new-IsUnique : IsUnique new
new-IsUnique = tt

ops-AllAdmitted : AllAdmitted new ops
unfolding perform append remove claim
ops-AllAdmitted = ground (arith, eq_iff "a" "b")

abbrev ops_log : List Value
ops_log =
    splice_row (append new next_turn (message "a")).0
    ∷ turn_row
    ∷ splice_row
        (record { target = next_step; start = 0; removed = 0; inserted = message "b" ∷ [] })
    ∷ splice_row (cut next_step 0 1)
    ∷ splice_row (cut next_step 0 0)
    ∷ splice_row (cut next_turn 0 1)
    ∷ []

ops-Recorded : Recorded (journal new ops) ops_log
unfolding journal perform append remove claim
ops-Recorded = row _ _ refl refl (
    other _ refl
      (row _ _ refl refl (row _ _ refl refl (row _ _ refl refl (row _ _ refl refl done)))))

fold_from-journal_example : fold_from new ops_log ≡ ok (after new ops)
fold_from-journal_example =
    fold_from-journal new ops ops_log new-IsUnique ops-AllAdmitted ops-Recorded

folded : fold_from new ops_log ≡ ok new
unfolding fold_from apply_splice splice_named splice_at check_identities check_ids to_data append
folded = refl

fold_from-IsUnique_example : IsUnique new
fold_from-IsUnique_example = fold_from-IsUnique new new ops_log new-IsUnique folded
