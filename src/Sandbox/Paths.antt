-- ===== src/Sandbox/Paths.antt =====
-- A path as `std::path` reads it, and containment by components
-- (rust/crates/vocoderd/src/machines/sandbox.rs).
use dsh_rs.Base.{String, List, [], ◌∷◌, Bool, true, false, ◌&&◌, str_eq, if◌then◌else◌}
use dsh_rs.Base.Text.{split}

pub data Component : Type 0 where
  root_dir : Component
  cur_dir : Component
  parent_dir : Component
  normal : String → Component

-- A part after the first: `//` and `/./` separate as `/` does.
abbrev pub part : String → List Component → List Component
part s rest =
    if str_eq s ""
    then rest
    else if str_eq s "."
    then rest
    else if str_eq s ".."
    then Component.parent_dir ∷ rest
    else Component.normal s ∷ rest

abbrev pub parts : List String → List Component
parts [] = []
parts (s ∷ ss) = part s (parts ss)

-- A leading `/` is the root, a leading `.` is kept.
abbrev pub first_part : String → List String → List Component
first_part s [] = if str_eq s "." then Component.cur_dir ∷ [] else part s []
first_part s (t ∷ ts) =
    if str_eq s ""
    then Component.root_dir ∷ parts (t ∷ ts)
    else if str_eq s "."
    then Component.cur_dir ∷ parts (t ∷ ts)
    else part s (parts (t ∷ ts))

abbrev pub of_parts : List String → List Component
of_parts [] = []
of_parts (s ∷ ss) = first_part s ss

-- `path.components()` on a Unix path
unfoldable pub components : String → List Component
unfolding split
components path = of_parts (split b'/' path)

-- What `..` leaves of the components before it, the last one first.
abbrev pub pop : List Component → List Component
pop (Component.normal s ∷ out) = out
pop out = out

abbrev pub reverse_onto : List Component → List Component → List Component
reverse_onto [] acc = acc
reverse_onto (c ∷ cs) acc = reverse_onto cs (c ∷ acc)

-- `out` is kept with its last component first.
unfoldable pub resolve : List Component → List Component → List Component
resolve out [] = reverse_onto out []
resolve out (Component.parent_dir ∷ cs) = resolve (pop out) cs
resolve out (Component.cur_dir ∷ cs) = resolve out cs
resolve out (Component.root_dir ∷ cs) = resolve (Component.root_dir ∷ out) cs
resolve out (Component.normal s ∷ cs) = resolve (Component.normal s ∷ out) cs

abbrev pub normal_components : String → List Component
normal_components path = resolve [] (components path)

unfoldable pub component_eq : Component → Component → Bool
component_eq Component.root_dir Component.root_dir = true
component_eq Component.cur_dir Component.cur_dir = true
component_eq Component.parent_dir Component.parent_dir = true
component_eq (Component.normal s) (Component.normal t) = str_eq s t
component_eq _ _ = false

-- The zip of the two, when the root is the shorter one.
unfoldable pub is_prefix : List Component → List Component → Bool
unfolding component_eq
is_prefix [] ts = true
is_prefix (r ∷ rs) [] = false
is_prefix (r ∷ rs) (t ∷ ts) = component_eq r t && is_prefix rs ts

abbrev pub contains : String → String → Bool
contains root target = is_prefix (normal_components root) (normal_components target)
