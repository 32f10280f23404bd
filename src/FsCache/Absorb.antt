-- ===== src/FsCache/Absorb.antt =====
-- What the cache makes of the driver's answers
-- (rust/crates/vocoderd/src/machines/readcache.rs).
use Prim.Native.Char.{Char, code}
use text.Mathlib.TextBridge.{to_list}
use dsh_rs.Base.{
  ℕ, ◌+◌, ◌/◌, ◌%◌, String, Option, none, some, List, [], ◌∷◌, ◌++◌, Bool, true, false, ltb,
  if◌then◌else◌,
}
use dsh_rs.Base.Dict.{insert}
use dsh_rs.Router.Effects.{Bytes, EffectError, DirEntry, EffectResult}
use dsh_rs.FsCache.{FsCache, InFlight, unrequest_root}

-- `String::into_bytes`: the UTF-8 bytes of a text.
abbrev utf8 : ℕ → Bytes
utf8 n =
    let low = 128 + n % 64 in
    let mid = 128 + n / 64 % 64 in
    let high = 128 + n / 4096 % 64 in
    if ltb n 128
    then n ∷ []
    else if ltb n 2048
    then (192 + n / 64) ∷ low ∷ []
    else if ltb n 65536
    then (224 + n / 4096) ∷ mid ∷ low ∷ []
    else (240 + n / 262144) ∷ high ∷ mid ∷ low ∷ []

abbrev encode : List Char → Bytes
encode [] = []
encode (c ∷ cs) = utf8 (code c) ++ encode cs

unfoldable pub into_bytes : String → Bytes
into_bytes s = encode (to_list s)

abbrev pub taken : FsCache → FsCache
taken c = record c { in_flight = none }

abbrev read_answer : Option InFlight → Bytes → FsCache → FsCache
read_answer (some (InFlight.read path)) content c = record c { files = insert path content c.files }
read_answer _ content c = c

abbrev stat_answer : Option InFlight → EffectResult → FsCache → FsCache
stat_answer (some (InFlight.stat key)) r c = record c { stats = insert key r c.stats }
stat_answer _ r c = c

abbrev range_answer : Option InFlight → EffectResult → FsCache → FsCache
range_answer (some (InFlight.range key)) r c = record c { ranges = insert key r c.ranges }
range_answer _ r c = c

abbrev dir_answer : Option InFlight → List DirEntry → FsCache → FsCache
dir_answer (some (InFlight.dir_detailed dir)) entries c = record c {
  dirs = insert dir entries c.dirs;
}
dir_answer _ entries c = c

abbrev note_failed : String → EffectError → FsCache → FsCache
note_failed key e c = record c { failed = insert key e c.failed }

abbrev failed_answer : Option InFlight → EffectError → FsCache → Bool × FsCache
failed_answer (some (InFlight.read path)) e c = (false, note_failed path e c)
failed_answer (some (InFlight.stat key)) e c = (false, note_failed key e c)
failed_answer (some (InFlight.range key)) e c = (false, note_failed key e c)
failed_answer (some (InFlight.dir_detailed key)) e c = (false, note_failed key e c)
failed_answer (some InFlight.write) e c = (true, c)
failed_answer none e c = (true, c)

abbrev done_answer : Option InFlight → FsCache → FsCache
done_answer (some InFlight.write) c = unrequest_root (record c { tree = none })
done_answer _ c = c

-- Record an answer; `true` is a failure that belongs to no read.
unfoldable pub absorb : EffectResult → FsCache → Bool × FsCache
unfolding into_bytes
absorb (EffectResult.paths paths) c = (false, record c { tree = some paths })
absorb (EffectResult.text text) c = (false, read_answer c.in_flight (into_bytes text) (taken c))
absorb (EffectResult.bytes content) c = (false, read_answer c.in_flight content (taken c))
absorb (EffectResult.stat canonical is_dir size version) c =
    (false, stat_answer c.in_flight (EffectResult.stat canonical is_dir size version) (taken c))
absorb (EffectResult.range content eof) c =
    (false, range_answer c.in_flight (EffectResult.range content eof) (taken c))
absorb (EffectResult.dir_entries entries) c = (false, dir_answer c.in_flight entries (taken c))
absorb (EffectResult.failed e) c = failed_answer c.in_flight e (taken c)
absorb EffectResult.done c = (false, done_answer c.in_flight (taken c))
absorb (EffectResult.http_response _ _) c = (true, c)
absorb _ c = (false, c)
