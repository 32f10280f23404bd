-- ===== src/FsCache/Resume.antt =====
-- What a run that is resumed after an answer finds in the cache
-- (rust/crates/vocoderd/src/machines/readcache.rs).
use dsh_rs.Base.{
  ℕ, ◌≡◌, ◌≢◌, inl, inr, refl, sym, ap, ◌∙◌, subst, String, Option, none, some, List, [], ◌∷◌, Bool,
  true, false, ok, err, str_eq, eq_iff, eq_refl, arith, Bool-cases,
}
use dsh_rs.Base.Dict.{lookup, erase, lookup-insert, lookup-erase}
use dsh_rs.Router.Effects.{EffectError, EffectResult, RealizeRequest}
use dsh_rs.Router.Messages.{MachineOut}
use dsh_rs.FsCache.{
  FsCache, Borrowed, Keys, InFlight, Answered, resolve, is_some, has_key, unrequest_root, tree,
  canonicalize, canonical_of, stat_key, request_write,
}
use dsh_rs.FsCache.Absorb.{absorb}

-- The answers that arrive, first to last.
abbrev pub absorb_all : List EffectResult → FsCache → FsCache
absorb_all [] c = c
absorb_all (r ∷ rs) c = absorb_all rs (absorb r c).1

abbrev pub with_cache : FsCache → Borrowed → Borrowed
with_cache c b = record b { cache = c }

-- The key is requested, and it is not the walk root's.
abbrev Asked : String → FsCache → Type 0
Asked key c = (has_key key c.requested ≡ true) × (c.root ≢ some key)

unrequest_root-Asked : (key : String) (c : FsCache) → Asked key c → Asked key (unrequest_root c)
unrequest_root-Asked key c (k, n) =
    elim c.root
        as (λ o.
          c.root ≡ o
          → Asked key
              (elim o [ none ↦ c | some root ↦ record c { requested = erase root c.requested } ])) [
                | none ↦ λ e. (k, n)
                | some root ↦ λ e. elim (Bool-cases (str_eq root key)) [
                  | inl same ↦ elim (n (e ∙ ap some ((eq_iff root key).0 same))) [ ]
                  | inr apart ↦
                      (ap is_some (lookup-erase c.requested root key ∙ rw apart refl) ∙ k, n)
                ]
              ]
      refl

absorb-Asked :
    (key : String) (r : EffectResult) (c : FsCache) → Asked key c → Asked key (absorb r c).1
unfolding absorb
absorb-Asked key r c (k, n) =
    ground (arith, unrequest_root-Asked key (record c { tree = none; in_flight = none }))

absorb_all-Asked :
    (key : String) (rs : List EffectResult) (c : FsCache)
    → Asked key c
    → Asked key (absorb_all rs c)
absorb_all-Asked key [] c a = a
absorb_all-Asked key (r ∷ rs) c a = absorb_all-Asked key rs _ (absorb-Asked key r c a)

resolve_returns :
    (known : Option String) (failed : Bool) (b : Borrowed) (ask : Answered (Option String))
    → (found : Option String) × ((resolve known failed true b ask).0 ≡ ok found)
resolve_returns (some canonical) failed b ask = (some canonical, refl)
resolve_returns none true b ask = (none, refl)
resolve_returns none false b ask = (none, refl)

resolve_asks :
    (known : Option String) (failed requested : Bool) (b : Borrowed)
    (ask : Answered (Option String)) (outs : List MachineOut)
    → (resolve known failed requested b ask).0 ≡ err outs
    → resolve known failed requested b ask ≡ ask
resolve_asks (some canonical) failed requested b ask outs e = cc e
resolve_asks none true requested b ask outs e = cc e
resolve_asks none false true b ask outs e = cc e
resolve_asks none false false b ask outs e = refl

canonicalize_asks :
    (path : String) (b : Borrowed) (outs : List MachineOut)
    → b.cache.root ≢ some (stat_key path)
    → (canonicalize path b).0 ≡ err outs
    → Asked (stat_key path) (canonicalize path b).1.cache
unfolding canonicalize
canonicalize_asks path b outs n e =
    let key = stat_key path in
    let asked = resolve_asks _ _ _ b _ outs e in
    subst (λ (o : Answered (Option String)). Asked key o.1.cache) (sym asked)
      (ap is_some ((lookup-insert b.cache.requested key tt key).0 (eq_refl key)), n)

canonicalize_returns :
    (path : String) (b : Borrowed)
    → has_key (stat_key path) b.cache.requested ≡ true
    → (found : Option String) × ((canonicalize path b).0 ≡ ok found)
unfolding canonicalize
canonicalize_returns path b k = rw k (resolve_returns _ _ b _)

-- After a resolution of a path that asked the driver, whatever answers arrive, the resolution of
-- the same path returns a result, as long as the path's key is not the walk root.
pub canonicalize_asks_once :
    (path : String) (b : Borrowed) (outs : List MachineOut) (rs : List EffectResult)
    → b.cache.root ≢ some (stat_key path)
    → (canonicalize path b).0 ≡ err outs
    → let b' = (canonicalize path b).1 in
      (found : Option String) × ((canonicalize path (with_cache (absorb_all rs b'.cache) b')).0
        ≡ ok found)
canonicalize_asks_once path b outs rs n e =
    canonicalize_returns path _
      (absorb_all-Asked (stat_key path) rs _ (canonicalize_asks path b outs n e)).0

resolve_unknown :
    (known : Option String) (failed requested : Bool) (b : Borrowed)
    (ask : Answered (Option String)) (outs : List MachineOut)
    → (resolve known failed requested b ask).0 ≡ err outs
    → known ≡ none
resolve_unknown none failed requested b ask outs e = refl
resolve_unknown (some canonical) failed requested b ask outs e = cc e

asked :
    (path : String) (b : Borrowed) (outs : List MachineOut)
    → (canonicalize path b).0 ≡ err outs
    → ((canonicalize path b).1.cache.in_flight ≡ some (InFlight.stat (stat_key path)))
      × (canonical_of (lookup (stat_key path) (canonicalize path b).1.cache.stats) ≡ none)
unfolding canonicalize
asked path b outs e =
    let key = stat_key path in
    let same = resolve_asks _ _ _ b _ outs e in
    (
      ap (λ (o : Answered (Option String)). o.1.cache.in_flight) same,
      ap (λ (o : Answered (Option String)). canonical_of (lookup key o.1.cache.stats)) same
          ∙ resolve_unknown _ _ _ b _ outs e,
    )

canonicalize_known :
    (path canonical : String) (b : Borrowed)
    → canonical_of (lookup (stat_key path) b.cache.stats) ≡ some canonical
    → (canonicalize path b).0 ≡ ok (some canonical)
unfolding canonicalize
canonicalize_known path canonical b e = rw e refl

canonicalize_failed :
    (path : String) (b : Borrowed)
    → canonical_of (lookup (stat_key path) b.cache.stats) ≡ none
    → has_key (stat_key path) b.cache.failed ≡ true
    → (canonicalize path b).0 ≡ ok none
unfolding canonicalize
canonicalize_failed path b e f = rw (e, f) refl

-- After a resolution of a path that asked the driver, a `Stat` answer makes it return the canonical
-- path of the answer, and a failure makes it return none.
pub canonicalize_answered :
    (path : String) (b : Borrowed) (outs : List MachineOut)
    → (canonicalize path b).0 ≡ err outs
    → let b' = (canonicalize path b).1 in
      ((canonical version : String) (is_dir : Bool) (size : ℕ)
        → (canonicalize path
            (with_cache (absorb (EffectResult.stat canonical is_dir size version) b'.cache).1 b')).0
          ≡ ok (some canonical))
      × ((e : EffectError)
          → (canonicalize path (with_cache (absorb (EffectResult.failed e) b'.cache).1 b')).0
            ≡ ok none)
unfolding absorb
canonicalize_answered path b outs e =
    let (flight, unknown) = asked path b outs e in
    (
      λ canonical version is_dir size. canonicalize_known path canonical _ (
          rw flight (
            ap canonical_of
              ((lookup-insert _ (stat_key path) _ (stat_key path)).0 (eq_refl (stat_key path))))),
      λ e. canonicalize_failed path _ (rw flight unknown) (
          rw flight (
            ap is_some
              ((lookup-insert _ (stat_key path) _ (stat_key path)).0 (eq_refl (stat_key path))))),
    )

tree_unrequested :
    (root : String) (b : Borrowed)
    → b.cache.tree ≡ none
    → has_key root b.cache.requested ≡ false
    → (tree root b).0 ≡ err (MachineOut.realize b.effects (RealizeRequest.list_tree root) ∷ [])
unfolding tree
tree_unrequested root b e k = rw (e, k) refl

has_key-erase : (root : String) (keys : Keys) → has_key root (erase root keys) ≡ false
has_key-erase root keys = rw (has_key, lookup-erase keys root root) (rw (eq_refl root) refl)

-- A write of a machine that walked a tree: when the write is done the next walk asks the driver
-- again, and when it failed the failure is reported and the walk that is cached stays.
pub tree_after_write :
    (path root : String) (contents : List ℕ) (b : Borrowed)
    → b.cache.root ≡ some root
    → let b' = (request_write path contents b).1 in
      ((tree root (with_cache (absorb EffectResult.done b'.cache).1 b')).0
        ≡ err (MachineOut.realize b'.effects (RealizeRequest.list_tree root) ∷ []))
      × ((e : EffectError)
          → ((absorb (EffectResult.failed e) b'.cache).0 ≡ true)
            × ((absorb (EffectResult.failed e) b'.cache).1.tree ≡ b.cache.tree))
unfolding absorb request_write
tree_after_write path root contents b e = (
  tree_unrequested root _ (rw e refl) (rw e (has_key-erase root b.cache.requested)),
  λ _. (refl, refl),
)
