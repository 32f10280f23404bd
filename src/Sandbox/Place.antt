-- ===== src/Sandbox/Place.antt =====
-- Where the text of a path leads from the root, and how its components lead there
-- (rust/crates/vocoderd/src/machines/sandbox.rs).
use dsh_rs.Base.{
  ◌≡◌, inl, inr, refl, sym, ap, ◌∙◌, subst, String, ◌==◌, ◌||◌, List, [], ◌∷◌, ◌++◌, append_assoc,
  append-nil, map, Bool, true, false, str_eq, eq_iff, if◌then◌else◌, All, Bool-cases, arith,
}
use Prim.Native.Char.{Char, code}
use text.Mathlib.TextLemmas.{cons-ne-nil}
use dsh_rs.Base.Text.{split, push_front}
use dsh_rs.Sandbox.Paths.{
  Component, components, parts, part, of_parts, normal_components, resolve, pop, reverse_onto,
}

-- The text begins with a `/`.
abbrev pub is_absolute : String → Bool
is_absolute String.[] = false
is_absolute (String.◌∷◌ c s) = code c == b'/'

abbrev pub IsAbsolute : String → Type 0
IsAbsolute path = is_absolute path ≡ true

abbrev parent : List String → List String
parent [] = []
parent (n ∷ []) = []
parent (n ∷ m ∷ ms) = n ∷ parent (m ∷ ms)

-- Where the parts of a path lead from a directory, which is given by the names down from `/`: an
-- empty part and `.` stay, `..` climbs but not above `/`, and any other part enters.
unfoldable pub follow : List String → List String → List String
follow at [] = at
follow at (s ∷ ss) =
    if str_eq s "" || str_eq s "."
    then follow at ss
    else if str_eq s ".."
    then follow (parent at) ss
    else follow (at ++ s ∷ []) ss

-- Where a path leads from `/`.
abbrev pub place : String → List String
place path = follow [] (split b'/' path)

abbrev pub names : List String → List Component
names = map Component.normal

abbrev rev : List String → List String
rev [] = []
rev (n ∷ ns) = rev ns ++ n ∷ []

parent-snoc : (ns : List String) (n : String) → parent (ns ++ n ∷ []) ≡ ns
parent-snoc [] n = refl
parent-snoc (m ∷ []) n = refl
parent-snoc (m ∷ k ∷ ks) n = ap (λ l. m ∷ l) (parent-snoc (k ∷ ks) n)

abbrev root : List Component
root = Component.root_dir ∷ []

reverse_onto-root :
    (ns ms : List String)
    → reverse_onto (names ns ++ root) (names ms) ≡ Component.root_dir ∷ names (rev ns ++ ms)
reverse_onto-root [] ms = refl
reverse_onto-root (n ∷ ns) ms =
    reverse_onto-root ns (n ∷ ms)
    ∙ ap (λ l. Component.root_dir ∷ names l) (sym (append_assoc (rev ns) (n ∷ []) ms))

-- `..` after the names `ns` climbs from the last of them.
resolve-climb :
    (ss : List String)
    → ((ms : List String)
        → resolve (names ms ++ root) (parts ss) ≡ Component.root_dir ∷ names (follow (rev ms) ss))
    → (ns : List String)
    → resolve (pop (names ns ++ root)) (parts ss)
      ≡ Component.root_dir ∷ names (follow (parent (rev ns)) ss)
resolve-climb ss ih [] = ih []
resolve-climb ss ih (n ∷ ns) =
    ih ns ∙ ap (λ at. Component.root_dir ∷ names (follow at ss)) (sym (parent-snoc (rev ns) n))

resolve-follow :
    (ss ns : List String)
    → resolve (names ns ++ root) (parts ss) ≡ Component.root_dir ∷ names (follow (rev ns) ss)
unfolding resolve follow
resolve-follow [] ns =
    reverse_onto-root ns [] ∙ ap (λ l. Component.root_dir ∷ names l) (append-nil (rev ns))
resolve-follow (s ∷ ss) ns = ground (
  arith,
  resolve-follow ss ns,
  resolve-climb ss (resolve-follow ss) ns,
  resolve-follow ss (s ∷ ns),
)

-- A step from a directory: up, or into an entry.
abbrev IsStep : Component → Type 0
IsStep Component.parent_dir = Unit
IsStep (Component.normal s) = Unit
IsStep _ = ⊥

if_steps :
    (b : Bool) (cs ds : List Component)
    → All IsStep cs
    → All IsStep ds
    → All IsStep (if b then cs else ds)
if_steps true cs ds hc hd = hc
if_steps false cs ds hc hd = hd

part_steps : (s : String) (rest : List Component) → All IsStep rest → All IsStep (part s rest)
part_steps s rest h =
    if_steps (str_eq s "") _ _ h
      (if_steps (str_eq s ".") _ _ h (if_steps (str_eq s "..") _ _ (tt, h) (tt, h)))

parts_steps : (ss : List String) → All IsStep (parts ss)
parts_steps [] = tt
parts_steps (s ∷ ss) = part_steps s (parts ss) (parts_steps ss)

reverse_onto-names :
    (ns ms : List String) → (ks : List String) × (reverse_onto (names ns) (names ms) ≡ names ks)
reverse_onto-names [] ms = (ms, refl)
reverse_onto-names (n ∷ ns) ms = reverse_onto-names ns (n ∷ ms)

-- Names alone, with no root before them.
abbrev pub IsPlain : List Component → Type 0
IsPlain out = (ks : List String) × (out ≡ names ks)

resolve-IsPlain :
    (ns : List String) (cs : List Component) → All IsStep cs → IsPlain (resolve (names ns) cs)
unfolding resolve
resolve-IsPlain ns [] h = reverse_onto-names ns []
resolve-IsPlain ns (Component.normal s ∷ cs) (_, h) = resolve-IsPlain (s ∷ ns) cs h
resolve-IsPlain [] (Component.parent_dir ∷ cs) (_, h) = resolve-IsPlain [] cs h
resolve-IsPlain (n ∷ ns) (Component.parent_dir ∷ cs) (_, h) = resolve-IsPlain ns cs h
resolve-IsPlain ns (Component.root_dir ∷ cs) (h, _) = absurd h
resolve-IsPlain ns (Component.cur_dir ∷ cs) (h, _) = absurd h

cur_dir-IsPlain :
    (cs : List Component) → All IsStep cs → IsPlain (resolve [] (Component.cur_dir ∷ cs))
unfolding resolve
cur_dir-IsPlain cs h = resolve-IsPlain [] cs h

if-IsPlain :
    (b : Bool) (cs ds : List Component)
    → IsPlain (resolve [] cs)
    → IsPlain (resolve [] ds)
    → IsPlain (resolve [] (if b then cs else ds))
if-IsPlain true cs ds hc hd = hc
if-IsPlain false cs ds hc hd = hd

-- What the split of a path begins with: an empty part, and another, exactly after a `/`.
abbrev Begins : Bool → List String → Type 0
Begins true ss = (t : String) × (ts : List String) × (ss ≡ "" ∷ t ∷ ts)
Begins false [] = ⊥
Begins false (s ∷ []) = Unit
Begins false (s ∷ t ∷ ts) = str_eq s "" ≡ false

split-some : (path : String) → (t : String) × (ts : List String) × (split b'/' path ≡ t ∷ ts)
unfolding split
split-some String.[] = ("", [], refl)
split-some (String.◌∷◌ c s) =
    let (t, ts, e) = split-some s in
    elim (Bool-cases (code c == b'/')) [
      | inl slash ↦ ("", split b'/' s, ground arith)
      | inr other ↦ (String.◌∷◌ c t, ts, ground arith)
    ]

if-Begins :
    (slash : Bool) (c : Char) (t : String) (ts : List String)
    → Begins slash (if slash then "" ∷ t ∷ ts else push_front c (t ∷ ts))
if-Begins true c t ts = (t, ts, refl)
if-Begins false c t [] = tt
if-Begins false c t (u ∷ us) = ground (arith, eq_iff (String.◌∷◌ c t) "", cons-ne-nil c t)

split-Begins : (path : String) → Begins (is_absolute path) (split b'/' path)
unfolding split
split-Begins String.[] = tt
split-Begins (String.◌∷◌ c s) =
    let (t, ts, e) = split-some s in
    subst (λ r. Begins (code c == b'/') (if code c == b'/' then "" ∷ r else push_front c r)) (sym e)
      (if-Begins (code c == b'/') c t ts)

of_parts-IsPlain : (ss : List String) → Begins false ss → IsPlain (resolve [] (of_parts ss))
of_parts-IsPlain [] h = absurd h
of_parts-IsPlain (s ∷ []) h =
    if-IsPlain (str_eq s ".") _ _ (cur_dir-IsPlain [] tt)
      (resolve-IsPlain [] _ (part_steps s [] tt))
of_parts-IsPlain (s ∷ t ∷ ts) h =
    subst
      (λ b. IsPlain (
        resolve [] (
          if b
          then Component.root_dir ∷ parts (t ∷ ts)
          else (if str_eq s "."
              then Component.cur_dir ∷ parts (t ∷ ts)
              else part s (parts (t ∷ ts))))))
      (sym h)
      (if-IsPlain (str_eq s ".") _ _ (cur_dir-IsPlain _ (parts_steps (t ∷ ts)))
        (resolve-IsPlain [] _ (part_steps s _ (parts_steps (t ∷ ts)))))

pub relative-IsPlain : (path : String) → is_absolute path ≡ false → IsPlain (normal_components path)
unfolding components
relative-IsPlain path r =
    of_parts-IsPlain (split b'/' path)
      (subst (λ b. Begins b (split b'/' path)) r (split-Begins path))

of_parts-follow :
    (ss : List String)
    → Begins true ss
    → resolve [] (of_parts ss) ≡ Component.root_dir ∷ names (follow [] ss)
unfolding resolve follow
of_parts-follow ss (t, ts, e) =
    ap (λ ss. resolve [] (of_parts ss)) e
    ∙ resolve-follow (t ∷ ts) []
    ∙ ap (λ ss. Component.root_dir ∷ names (follow [] ss)) (sym e)

pub absolute-place :
    (path : String)
    → IsAbsolute path
    → normal_components path ≡ Component.root_dir ∷ names (place path)
unfolding components
absolute-place path h =
    of_parts-follow (split b'/' path)
      (subst (λ b. Begins b (split b'/' path)) h (split-Begins path))
