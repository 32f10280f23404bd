-- ===== src/Sandbox/Below.antt =====
-- What lies beneath a path, its `.` and `..` followed
-- (rust/crates/vocoderd/src/machines/sandbox.rs).
use dsh_rs.Base.{
  and-eq_true, ◌≡◌, ◌≢◌, ◌↔◌, inl, inr, refl, sym, ap, ◌∙◌, subst, String, List, [], ◌∷◌, ◌++◌,
  true, ◌&&◌, eq_iff, Bool-cases, arith,
}
use dsh_rs.Sandbox.{contains}
use dsh_rs.Sandbox.Place.{is_absolute, IsAbsolute, place, names, relative-IsPlain, absolute-place}
use dsh_rs.Sandbox.Paths.{Component, normal_components, is_prefix, component_eq}

-- The target leads to the place of the root, or to one that is reached from it by names alone.
abbrev pub Beneath : String → String → Type 0
Beneath root target = IsAbsolute target × ((ns : List String) × (place target ≡ place root ++ ns))

component_eq_refl : (c : Component) → component_eq c c ≡ true
unfolding component_eq
component_eq_refl Component.root_dir = refl
component_eq_refl Component.cur_dir = refl
component_eq_refl Component.parent_dir = refl
component_eq_refl (Component.normal s) = ground (arith, eq_iff s s)

component_eq→≡ : (a b : Component) → component_eq a b ≡ true → a ≡ b
unfolding component_eq
component_eq→≡ Component.root_dir b e = ground arith
component_eq→≡ Component.cur_dir b e = ground arith
component_eq→≡ Component.parent_dir b e = ground arith
component_eq→≡ (Component.normal s) (Component.normal t) e = ap Component.normal ((eq_iff s t).0 e)
component_eq→≡ (Component.normal s) Component.root_dir e = ground arith
component_eq→≡ (Component.normal s) Component.cur_dir e = ground arith
component_eq→≡ (Component.normal s) Component.parent_dir e = ground arith

is_prefix-rest :
    (rs ts : List Component) → is_prefix rs ts ≡ true → (rest : List Component) × (ts ≡ rs ++ rest)
unfolding is_prefix
is_prefix-rest [] ts e = (ts, refl)
is_prefix-rest (r ∷ rs) [] e = ground arith
is_prefix-rest (r ∷ rs) (t ∷ ts) e =
    let (h, hs) = and-eq_true (component_eq r t) (is_prefix rs ts) e in
    let (rest, er) = is_prefix-rest rs ts hs in
    (rest, ap (λ c. c ∷ ts) (sym (component_eq→≡ r t h)) ∙ ap (λ cs. r ∷ cs) er)

is_prefix-append : (rs rest : List Component) → is_prefix rs (rs ++ rest) ≡ true
unfolding is_prefix
is_prefix-append [] rest = refl
is_prefix-append (r ∷ rs) rest =
    subst (λ b. b && is_prefix rs (rs ++ rest) ≡ true) (sym (component_eq_refl r))
      (is_prefix-append rs rest)

names-split :
    (ks rs : List String) (rest : List Component)
    → names ks ≡ names rs ++ rest
    → (ns : List String) × (ks ≡ rs ++ ns)
names-split ks [] rest e = (ks, refl)
names-split [] (r ∷ rs) rest e = ground arith
names-split (k ∷ ks) (r ∷ rs) rest e =
    let (ns, en) = names-split ks rs rest (ground arith) in (ns, ground (arith, en))

names-append : (ks ns : List String) → names (ks ++ ns) ≡ names ks ++ names ns
names-append [] ns = refl
names-append (k ∷ ks) ns = ap (λ l. Component.normal k ∷ l) (names-append ks ns)

cons-injective :
    (cs ds : List Component) → Component.root_dir ∷ cs ≡ Component.root_dir ∷ ds → cs ≡ ds
cons-injective cs ds e = ground arith

rootless : (ks : List String) (cs : List Component) → names ks ≢ Component.root_dir ∷ cs
rootless [] cs = λ e. ground arith
rootless (k ∷ ks) cs = λ e. ground arith

is_prefix-Beneath :
    (root target : String)
    → IsAbsolute root
    → is_prefix (normal_components root) (normal_components target) ≡ true
    → Beneath root target
is_prefix-Beneath root target hr h =
    let (rest, e) = is_prefix-rest _ _ h in
    let below = e ∙ ap (λ l. l ++ rest) (absolute-place root hr) in
    elim (Bool-cases (is_absolute target)) [
      | inl ht ↦ (
        ht,
        names-split (place target) (place root) rest
            (cons-injective _ _ (sym (absolute-place target ht) ∙ below)),
      )
      | inr relative ↦
          let (ks, plain) = relative-IsPlain target relative in
          absurd (rootless ks _ (sym plain ∙ below))
    ]

Beneath-is_prefix :
    (root target : String)
    → IsAbsolute root
    → Beneath root target
    → is_prefix (normal_components root) (normal_components target) ≡ true
Beneath-is_prefix root target hr (ht, (ns, e)) =
    subst (λ l. is_prefix (normal_components root) l ≡ true)
      (sym (
        absolute-place target ht
        ∙ ap (λ l. Component.root_dir ∷ names l) e
        ∙ ap (λ l. Component.root_dir ∷ l) (names-append (place root) ns)
        ∙ ap (λ l. l ++ names ns) (sym (absolute-place root hr))))
      (is_prefix-append (normal_components root) (names ns))

pub contains-Beneath :
    (root target : String) → IsAbsolute root → (contains root target ≡ true) ↔ Beneath root target
contains-Beneath root target hr =
    (is_prefix-Beneath root target hr, Beneath-is_prefix root target hr)
