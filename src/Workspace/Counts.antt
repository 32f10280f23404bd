-- ===== src/Workspace/Counts.antt =====
-- How often an id stands in an order (rust/crates/vocoderd/src/machines/workspace.rs).
use dsh_rs.Base.{
  ℕ, zero, suc, ◌≡◌, ◌+◌, ◌≤◌, String, Option, List, [], ◌∷◌, ◌++◌, true, str_eq, eq_iff,
  if◌then◌else◌, arith,
}
use dsh_rs.Workspace.{contains, retain_others, insert_at, place, moved}

-- How often an id is listed.
unfoldable pub count : String → List String → ℕ
count id [] = 0
count id (x ∷ xs) = let rest = count id xs in if str_eq x id then suc rest else rest

pub count-append :
    (j id : String) (ids : List String)
    → count j (ids ++ id ∷ []) ≡ count j ids + (if str_eq id j then 1 else 0)
unfolding count
count-append j id [] = ground arith
count-append j id (x ∷ xs) = ground (arith, count-append j id xs)

pub count-retain_others :
    (j id : String) (ids : List String)
    → count j (retain_others id ids) ≡ (if str_eq id j then 0 else count j ids)
unfolding count retain_others
count-retain_others j id [] = ground arith
count-retain_others j id (x ∷ xs) =
    ground (arith, count-retain_others j id xs, eq_iff x id, eq_iff x j, eq_iff id j)

count-insert_at :
    (j : String) (n : ℕ) (id : String) (ids : List String)
    → count j (insert_at n id ids) ≡ count j ids + (if str_eq id j then 1 else 0)
unfolding count insert_at
count-insert_at j zero id ids = ground arith
count-insert_at j (suc n) id [] = ground arith
count-insert_at j (suc n) id (x ∷ xs) = ground (arith, count-insert_at j n id xs)

pub contains-count : (id : String) (ids : List String) → contains ids id ≡ true → 1 ≤ count id ids
unfolding contains count
contains-count id [] e = ground arith
contains-count id (x ∷ xs) e = ground (arith, contains-count id xs)

-- A move keeps how often each id is listed, if the one moved is listed once.
pub count-moved :
    (j id : String) (before : Option String) (ids : List String)
    → count id ids ≡ 1
    → count j (moved id before ids) ≡ count j ids
count-moved j id before ids h = ground (
  arith,
  count-insert_at j (place (retain_others id ids) before) id (retain_others id ids),
  count-retain_others j id ids,
  eq_iff id j,
)
