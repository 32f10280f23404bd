-- ===== src/FsCache/Examples.antt =====
-- A cache that is asked for one path (rust/crates/vocoderd/src/machines/readcache.rs).
use dsh_rs.Base.{◌≡◌, ◌≢◌, refl, String, Option, none, some, List, [], ◌∷◌, ok, err}
use dsh_rs.Base.Dict.{lookup}
use dsh_rs.Router.Effects.{EffectResult, RealizeRequest}
use dsh_rs.Router.Messages.{MachineOut}
use dsh_rs.FsCache.{Borrowed, default, canonicalize, stat_key}
use dsh_rs.FsCache.Resume.{absorb_all, with_cache, canonicalize_asks_once}

abbrev fresh : Borrowed
fresh = record { cache = record default { root = some "/sessions" }; pending = none; effects = 7 }

abbrev outs : List MachineOut
outs = MachineOut.realize 7 (RealizeRequest.stat "/a") ∷ []

fresh-asks : (canonicalize "/a" fresh).0 ≡ err outs
unfolding canonicalize lookup
fresh-asks = refl

fresh-root : fresh.cache.root ≢ some (stat_key "/a")
fresh-root e = cc e

canonicalize_asks_once_example :
    (found : Option String) × ((canonicalize "/a" (
        with_cache
          (absorb_all
            (EffectResult.done ∷ EffectResult.text "x" ∷ [])
            (canonicalize "/a" fresh).1.cache)
          (canonicalize "/a" fresh).1)).0
      ≡ ok found)
canonicalize_asks_once_example =
    canonicalize_asks_once "/a" fresh outs (EffectResult.done ∷ EffectResult.text "x" ∷ [])
      fresh-root fresh-asks
