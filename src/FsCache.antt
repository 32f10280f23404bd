-- ===== src/FsCache.antt =====
-- The read-through cache of files that machines resume from
-- (rust/crates/vocoderd/src/machines/readcache.rs).
pub mod Absorb
pub mod Resume
pub mod Examples
use Prim.Native.Char.{Char, code}
use text.Mathlib.TextBridge.{to_list}
use dsh_rs.Base.{
  ℕ, ◌+◌, ◌*◌, ◌/◌, ◌%◌, String, concat, Option, none, some, List, [], ◌∷◌, ◌++◌, Bool, true, false,
  Result, ok, err, ltb, u64_succ, if◌then◌else◌,
}
use dsh_rs.Base.Dict.{Dict, lookup, insert, erase}
use dsh_rs.Json.{Value}
use dsh_rs.Router.Effects.{EffectId, Bytes, EffectError, DirEntry, EffectResult, RealizeRequest}
use dsh_rs.Router.Messages.{MachineOut}

-- What the one outstanding effect is for: a path, or the key of a cached answer.
pub data InFlight : Type 0 where
  read stat range dir_detailed : String → InFlight
  write : InFlight

-- `BTreeSet<String>` is a map to the unit type.
abbrev pub Keys : Type 0
Keys = Dict (Unit {0})

pub record FsCache : Type 0 where
  pub tree : Option (List String)
  pub root : Option String
  pub files : Dict Bytes
  pub requested : Keys
  pub failed : Dict EffectError
  pub in_flight : Option InFlight
  pub stats : Dict EffectResult
  pub ranges : Dict EffectResult
  pub dirs : Dict (List DirEntry)
  pub published : Keys
  pub chosen_write : Option (String × Bytes)
  pub chosen : Dict Value

abbrev pub default : FsCache
default = record {
  tree = none;
  root = none;
  files = [];
  requested = [];
  failed = [];
  in_flight = none;
  stats = [];
  ranges = [];
  dirs = [];
  published = [];
  chosen_write = none;
  chosen = [];
}

-- A suspended operation.
pub record Pending : Type 0 where
  pub effect : Option EffectId
  pub method : String
  pub req : Value

-- The cache with what its methods borrow beside it: the pending call and the effect counter.
pub record Borrowed : Type 0 where
  pub cache : FsCache
  pub pending : Option Pending
  pub effects : ℕ

abbrev pub Answered : Type 0 → Type 0
Answered A = Result (List MachineOut) A × Borrowed

abbrev pub is_some : {V : Type 0} → Option V → Bool
is_some none = false
is_some (some _) = true

abbrev pub has_key : {V : Type 0} → String → Dict V → Bool
has_key key m = is_some (lookup key m)

module _ {T : Type 0} (from_value : Value → Option T) (to_value : T → Option Value) where
  abbrev decided : FsCache → String → T → T × FsCache
  decided c key v = elim (to_value v) [
    | none ↦ (v, c)
    | some json ↦ (v, record c { chosen = insert key json c.chosen })
  ]

  -- `choose`, given the codec of the value: a value decided once is kept.
  unfoldable pub choose : FsCache → String → T → T × FsCache
  choose c key decide = elim (lookup key c.chosen) [
    | none ↦ decided c key decide
    | some json ↦ elim (from_value json) [ none ↦ decided c key decide | some v ↦ (v, c) ]
  ]

unfoldable pub end_operation : FsCache → FsCache
end_operation c = record c { chosen_write = none; chosen = [] }

-- The walk root is no longer requested.
abbrev pub unrequest_root : FsCache → FsCache
unrequest_root c = elim c.root [
  | none ↦ c
  | some root ↦ record c { requested = erase root c.requested }
]

unfoldable pub invalidate_tree : FsCache → FsCache
invalidate_tree c = unrequest_root (record c { tree = none })

unfoldable pub remember_pending : FsCache → String → Value → FsCache
remember_pending c key value = record c { chosen = insert key value c.chosen }

unfoldable pub recall_pending : FsCache → String → Option Value
recall_pending c key = lookup key c.chosen

abbrev armed : EffectId → Option Pending → Option Pending
armed id none = none
armed id (some p) = some (record p { effect = some id })

unfoldable pub next_effect : Borrowed → EffectId × Borrowed
next_effect b =
    (b.effects, record b { pending = armed b.effects b.pending; effects = u64_succ b.effects })

unfoldable pub tree : String → Borrowed → Answered (List String)
unfolding next_effect
tree root b = elim b.cache.tree [
  | some paths ↦ (ok paths, b)
  | none ↦
      let marked = record b.cache {
        root = some root;
        requested = insert root tt b.cache.requested;
      } in
      let (id, b') = next_effect (record b { cache = marked }) in
      if has_key root b.cache.requested
      then (ok [], b)
      else (err (MachineOut.realize id (RealizeRequest.list_tree root) ∷ []), b')
]

unfoldable pub request_write : String → Bytes → Borrowed → List MachineOut × Borrowed
unfolding next_effect
request_write path contents b =
    let (id, b') = next_effect b in
    (
      MachineOut.realize id (RealizeRequest.write_bytes path contents) ∷ [],
      record b' {
        cache = record b'.cache {
          published = insert path tt b'.cache.published;
          in_flight = some InFlight.write;
        };
      },
    )

unfoldable pub write_target : String × Bytes → FsCache → (String × Bytes) × FsCache
write_target decide c = elim c.chosen_write [
  | some chosen ↦ (chosen, c)
  | none ↦ (decide, record c { chosen_write = some decide })
]

unfoldable pub request_read : String → Borrowed → List MachineOut × Borrowed
unfolding next_effect
request_read path b =
    let (id, b') = next_effect b in
    (
      MachineOut.realize id (RealizeRequest.read_bytes path) ∷ [],
      record b' { cache = record b'.cache { in_flight = some (InFlight.read path) } },
    )

abbrev pub stat_key : String → String
stat_key path = concat "stat:" path

-- The path of a `Stat` answer.
abbrev pub canonical_of : Option EffectResult → Option String
canonical_of (some (EffectResult.stat canonical _ _ _)) = some canonical
canonical_of _ = none

-- The answer that is known, none for a path that failed or was asked for, or else to ask.
abbrev pub resolve :
    Option String → Bool → Bool → Borrowed → Answered (Option String) → Answered (Option String)
resolve (some canonical) failed requested b ask = (ok (some canonical), b)
resolve none true requested b ask = (ok none, b)
resolve none false true b ask = (ok none, b)
resolve none false false b ask = ask

unfoldable pub canonicalize : String → Borrowed → Answered (Option String)
unfolding next_effect
canonicalize path b =
    let key = stat_key path in
    let c = b.cache in
    let marked = record c {
      requested = insert key tt c.requested;
      in_flight = some (InFlight.stat key);
    } in
    let (id, b') = next_effect (record b { cache = marked }) in
    resolve (canonical_of (lookup key c.stats)) (has_key key c.failed) (has_key key c.requested) b
      (err (MachineOut.realize id (RealizeRequest.stat path) ∷ []), b')
