-- ===== src/Sandbox/Roots.antt =====
-- A list of roots in order, none of them twice
-- (`sort` and `dedup` of rust/crates/vocoderd/src/machines/sandbox.rs).
use Prim.Native.Nat.{Ordering}
use Prim.Native.String.{compare}
use dsh_rs.Base.{
  ◌≡◌, refl, ap, ◌∙◌, String, List, [], ◌∷◌, ◌++◌, Bool, true, false, ◌||◌, str_eq, eq_iff,
  if◌then◌else◌, arith,
}

abbrev pub any {ℓ} : {A : Type ℓ} → (A → Bool) → List A → Bool
any f [] = false
any f (x ∷ xs) = f x || any f xs

-- The order of the texts' bytes is that of their characters' codes.
abbrev pub str_le : String → String → Bool
str_le s t = elim (compare s t) [ Ordering.gt ↦ false | _ ↦ true ]

abbrev insert : String → List String → List String
insert s [] = s ∷ []
insert s (t ∷ ts) = if str_le s t then s ∷ t ∷ ts else t ∷ insert s ts

-- The texts have no identity besides their contents, so any sort has this result.
unfoldable pub sort : List String → List String
sort [] = []
sort (s ∷ ss) = insert s (sort ss)

abbrev keep_new : String → List String → List String
keep_new s [] = s ∷ []
keep_new s (t ∷ ts) = if str_eq s t then t ∷ ts else s ∷ t ∷ ts

-- One of each run of equal texts.
unfoldable pub dedup : List String → List String
dedup [] = []
dedup (s ∷ ss) = keep_new s (dedup ss)

any-insert : (f : String → Bool) (s : String) (l : List String) → any f (insert s l) ≡ any f (s ∷ l)
any-insert f s [] = refl
any-insert f s (t ∷ ts) = ground (arith, any-insert f s ts)

pub any-sort : (f : String → Bool) (l : List String) → any f (sort l) ≡ any f l
unfolding sort
any-sort f [] = refl
any-sort f (s ∷ ss) = any-insert f s (sort ss) ∙ ap (λ b. f s || b) (any-sort f ss)

any-keep_new :
    (f : String → Bool) (s : String) (l : List String) → any f (keep_new s l) ≡ any f (s ∷ l)
any-keep_new f s [] = refl
any-keep_new f s (t ∷ ts) = ground (arith, eq_iff s t)

pub any-dedup : (f : String → Bool) (l : List String) → any f (dedup l) ≡ any f l
unfolding dedup
any-dedup f [] = refl
any-dedup f (s ∷ ss) = any-keep_new f s (dedup ss) ∙ ap (λ b. f s || b) (any-dedup f ss)

pub any-append : (f : String → Bool) (l m : List String) → any f (l ++ m) ≡ any f l || any f m
any-append f [] m = refl
any-append f (x ∷ xs) m = ground (arith, any-append f xs m)
