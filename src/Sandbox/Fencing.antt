-- ===== src/Sandbox/Fencing.antt =====
-- What the fence lets through (rust/crates/vocoderd/src/machines/sandbox.rs).
use dsh_rs.Base.{
  ◌≡◌, ◌↔◌, ◌⊎◌, inl, inr, refl, sym, ◌∙◌, String, none, [], ◌∷◌, Bool, true, ◌||◌, eq_iff, arith,
}
use dsh_rs.Sandbox.{Mode, fence, check, allows, writable_roots_for, contains, any, with_temp}
use dsh_rs.Sandbox.Place.{IsAbsolute}
use dsh_rs.Sandbox.Below.{Beneath, contains-Beneath}
use dsh_rs.Sandbox.Roots.{any-sort, any-dedup}

-- The three roots of the mode that may write in the workspace.
abbrev pub Writable : String → String → String → Type 0
Writable tmp root target = Beneath root target ⊎ (Beneath "/tmp" target ⊎ Beneath tmp target)

any-with_temp :
    (f : String → Bool) (tmp root : String)
    → any f (with_temp tmp (root ∷ "/tmp" ∷ [])) ≡ f root || (f "/tmp" || f tmp)
any-with_temp f tmp root = ground (arith, eq_iff root tmp, eq_iff "/tmp" tmp)

any_roots :
    (f : String → Bool) (tmp root : String)
    → any f (writable_roots_for tmp Mode.workspace_write root) ≡ f root || (f "/tmp" || f tmp)
unfolding writable_roots_for
any_roots f tmp root = any-dedup f _ ∙ any-sort f _ ∙ any-with_temp f tmp root

tmp-IsAbsolute : IsAbsolute "/tmp"
tmp-IsAbsolute = refl

or_iff : (a b c : Bool) → (a || (b || c) ≡ true) ↔ ((a ≡ true) ⊎ ((b ≡ true) ⊎ (c ≡ true)))
or_iff a b c = ground arith

any-Writable :
    (tmp root target : String)
    → IsAbsolute root
    → IsAbsolute tmp
    → (any (λ r. contains r target) (writable_roots_for tmp Mode.workspace_write root) ≡ true)
      ↔ Writable tmp root target
any-Writable tmp root target hr ht =
    let e = any_roots (λ r. contains r target) tmp root in
    let to = or_iff (contains root target) (contains "/tmp" target) (contains tmp target) in
    let (r1, r2) = contains-Beneath root target hr in
    let (s1, s2) = contains-Beneath "/tmp" target tmp-IsAbsolute in
    let (t1, t2) = contains-Beneath tmp target ht in
    (
      (λ h. elim (to.0 (sym e ∙ h)) [
        | inl a ↦ inl (r1 a)
        | inr (inl b) ↦ inr (inl (s1 b))
        | inr (inr c) ↦ inr (inr (t1 c))
      ]),
      λ w.
          e
          ∙ to.1 (elim w [
            | inl a ↦ inl (r2 a)
            | inr (inl b) ↦ inr (inl (s2 b))
            | inr (inr c) ↦ inr (inr (t2 c))
          ]),
    )

-- If the paths of the workspace and of the temporary directory begin with `/`, a mutation passes the
-- fence of a mode exactly when the mode is danger-full-access, or is workspace-write and the target
-- is a path from `/` that leads to the workspace, /tmp or the temporary directory or down from one,
-- where its parts are followed one by one: `.` stays and `..` climbs.
pub check_lem :
    (tmp root target display : String) (mode : Mode)
    → IsAbsolute root
    → IsAbsolute tmp
    → (check tmp (fence mode root) target display ≡ none) ↔ (
        (mode ≡ Mode.danger_full_access)
        ⊎ ((mode ≡ Mode.workspace_write) × Writable tmp root target))
unfolding allows writable_roots_for
check_lem tmp root target display Mode.danger_full_access hr ht = ((λ _. inl refl), λ _. refl)
check_lem tmp root target display Mode.workspace_write hr ht =
    ground (arith, any-Writable tmp root target hr ht)
check_lem tmp root target display Mode.read_only hr ht = ground arith
