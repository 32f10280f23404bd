-- ===== src/Generation/Compose.antt =====
-- What `compose` computes: a chain of adjacent steps with no gap.
use mathlib.Core.Path.{fun_ext}
use dsh_rs.Base.{
  ℕ, zero, suc, ◌+◌, ◌-◌, ◌≤◌, ◌<◌, ◌≡◌, refl, sym, ap, ◌∙◌, Option, none, some, ◌↔◌, List, ok, err,
  ◌>>=◌, ltb, if◌then◌else◌, arith, >>=-eq-ok, ok-injective, subst, lt→ltb, dec_lt, >>=-assoc,
}
use dsh_rs.Generation.Migration.{
  no_migration, Rows, MigrationStep, find, migrate_with, compose_loop, compose, Chain, done, step,
}

module _ (steps : List MigrationStep) where
  -- More rounds than versions to climb change nothing: the loop has ended by its test.
  compose_loop_enough :
      (m n v w : ℕ) (rows : Rows)
      → w ≤ v + m
      → w ≤ v + n
      → compose_loop m steps v w rows ≡ compose_loop n steps v w rows
  unfolding compose_loop
  compose_loop_enough zero zero v w rows a b = refl
  compose_loop_enough zero (suc n) v w rows a b = ground arith
  compose_loop_enough (suc m) zero v w rows a b = ground arith
  compose_loop_enough (suc m) (suc n) v w rows a b =
      ap (λ k. if ltb v w then migrate_with v (find v steps) rows >>= k else ok rows)
        (fun_ext λ next. compose_loop_enough m n (v + 1) w next (omega arith) (omega arith))

  compose-done : (v w : ℕ) (rows : Rows) → w ≤ v → compose steps v w rows ≡ ok rows
  unfolding compose
  compose-done v w rows h =
      compose_loop_enough (w - v) 0 v w rows (omega arith) (omega arith)
      ∙ unfold compose_loop in refl

  climbs :
      (r v w : ℕ) (rows : Rows)
      → v < w
      → compose_loop (suc r) steps v w rows
        ≡ (migrate_with v (find v steps) rows >>= λ next. compose_loop r steps (v + 1) w next)
  unfolding compose_loop
  climbs r v w rows h = rw (lt→ltb v w h)

  compose-climbs :
      (v w : ℕ) (rows : Rows)
      → v < w
      → compose steps v w rows
        ≡ (migrate_with v (find v steps) rows >>= λ next. compose steps (v + 1) w next)
  unfolding compose
  compose-climbs v w rows h =
      compose_loop_enough (w - v) (suc (w - (v + 1))) v w rows (omega arith) (omega arith)
      ∙ climbs (w - (v + 1)) v w rows h

  Chain-compose :
      {w v : ℕ} {rows out : Rows} → Chain steps w v rows out → compose steps v w rows ≡ ok out
  Chain-compose {w} (done {v} {rows} h) = compose-done v w rows h
  Chain-compose {w} (step {v} {rows} {next} {out} s h found moved c) =
      compose-climbs v w rows h
      ∙ ap (λ o. migrate_with v o rows >>= λ r. compose steps (v + 1) w r) found
      ∙ ap (λ m. m >>= λ r. compose steps (v + 1) w r) moved
      ∙ Chain-compose c

  climbed :
      (v w : ℕ) (rows next out : Rows) (o : Option MigrationStep)
      → v < w
      → find v steps ≡ o
      → migrate_with v o rows ≡ ok next
      → Chain steps w (v + 1) next out
      → Chain steps w v rows out
  climbed v w rows next out none h found moved c = cc
  climbed v w rows next out (some s) h found moved c = step s h found moved c

  compose-Chain :
      (k v w : ℕ) (rows out : Rows)
      → w ≤ v + k
      → compose steps v w rows ≡ ok out
      → Chain steps w v rows out
  compose-Chain zero v w rows out b e =
      subst (λ r. Chain steps w v rows r)
        (ok-injective (sym (compose-done v w rows (omega arith)) ∙ e)) (done (omega arith))
  compose-Chain (suc k) v w rows out b e = elim (dec_lt v w) [
    | no h ↦
        subst (λ r. Chain steps w v rows r)
          (ok-injective (sym (compose-done v w rows (omega arith)) ∙ e)) (done (omega arith))
    | yes h ↦
        let (next, moved, rest) =
          >>=-eq-ok (migrate_with v (find v steps) rows) (λ r. compose steps (v + 1) w r)
            (sym (compose-climbs v w rows h) ∙ e) in
        climbed v w rows next out (find v steps) h refl moved
          (compose-Chain k (v + 1) w next out (omega arith) rest)
  ]

  -- `compose` succeeds with `out` exactly if the adjacent steps lead from the rows to `out`.
  pub compose_iff :
      (v w : ℕ) (rows out : Rows) → (compose steps v w rows ≡ ok out) ↔ Chain steps w v rows out
  compose_iff v w rows out = (compose-Chain w v w rows out (omega arith), λ c. Chain-compose c)

  compose_split :
      (k u v w : ℕ) (rows : Rows)
      → v ≤ u + k
      → u ≤ v
      → v ≤ w
      → compose steps u w rows ≡ (compose steps u v rows >>= λ mid. compose steps v w mid)
  compose_split zero u v w rows b p q =
      let same : u ≡ v = omega arith in
      rw (compose-done u v rows (omega arith)) (ap (λ n. compose steps n w rows) same)
  compose_split (suc k) u v w rows b p q = elim (dec_lt u v) [
    | no h ↦
        let same : u ≡ v = omega arith in
        rw (compose-done u v rows (omega arith)) (ap (λ n. compose steps n w rows) same)
    | yes h ↦
        compose-climbs u w rows (omega arith)
        ∙ ap (λ f. migrate_with u (find u steps) rows >>= f)
            (fun_ext λ next. compose_split k (u + 1) v w next (omega arith) (omega arith) q)
        ∙ sym (>>=-assoc (migrate_with u (find u steps) rows) _ _)
        ∙ ap (λ r. r >>= λ mid. compose steps v w mid) (sym (compose-climbs u v rows h))
  ]

  -- Lifting from `u` to `w` is lifting to a version between, and from there on, errors included.
  pub compose-compose :
      (u v w : ℕ) (rows : Rows)
      → u ≤ v
      → v ≤ w
      → compose steps u w rows ≡ (compose steps u v rows >>= λ mid. compose steps v w mid)
  compose-compose u v w rows p q = compose_split v u v w rows (omega arith) p q

  -- A version below the target that no step starts from ends the lift with an error that names
  -- the gap, once the rows have been lifted that far.
  pub compose-gap :
      (u v w : ℕ) (rows mid : Rows)
      → u ≤ v
      → v < w
      → compose steps u v rows ≡ ok mid
      → find v steps ≡ none
      → compose steps u w rows ≡ err (no_migration v (v + 1))
  compose-gap u v w rows mid p q e gap =
      compose-compose u v w rows p (omega arith)
      ∙ ap (λ r. r >>= λ m. compose steps v w m) e
      ∙ compose-climbs v w mid q
      ∙ ap (λ o. migrate_with v o mid >>= λ r. compose steps (v + 1) w r) gap
