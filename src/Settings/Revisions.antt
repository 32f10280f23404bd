-- ===== src/Settings/Revisions.antt =====
-- When a section of the settings and its revision change
-- (rust/crates/vocoderd/src/machines/settings.rs).
use dsh_rs.Base.{
  ℕ, ◌≡◌, ◌⊎◌, inl, inr, refl, sym, ap, subst, String, concat, Option, none, some, List, [], Bool,
  true, false, Result, ok, err, >>=-eq-ok, if◌then◌else◌, str_eq, eq_iff, eq_refl, u64_succ, arith,
  Bool-cases,
}
use dsh_rs.Base.Dict.{lookup, lookup-insert}
use dsh_rs.Json.{Value, json, unwrap_or}
use dsh_rs.Json.Same.{same}
use dsh_rs.Router.Effects.{EffectError, EffectResult, message}
use dsh_rs.Router.Messages.{MachineIn, MachineOut}
use dsh_rs.Rpc.{is_object}
use dsh_rs.Rpc.Reply
use dsh_rs.Settings.{Settings, is_registered}
use dsh_rs.Settings.Redact.{view_of}
use dsh_rs.Settings.Writes.{
  revision_of, section_of, check_ns, written, persist, committed, finish, apply_write, mutate_with,
  call, resume, handle, arg_or_empty,
}

module _ (pretty : Value → String) where
  -- A change of the document: one registered section, to another value, at its next revision, with
  -- a write of the document that the machine waits for.
  abbrev pub Commits : Settings → List MachineOut × Settings → Type 0
  Commits m out =
      (ns : String) × (section : Value) × (is_registered ns ≡ true)
      × (same section (section_of m ns) ≡ false)
      × (out ≡ persist pretty (committed m ns section) ns)

  finish_cases :
      (m : Settings) (ns : String) (r : Result (List MachineOut) Value)
      → ((section : Value) → r ≡ ok section → is_registered ns ≡ true)
      → ((finish pretty m ns r).1 ≡ m) ⊎ Commits m (finish pretty m ns r)
  finish_cases m ns (err outs) h = inl refl
  finish_cases m ns (ok section) h = elim (Bool-cases (same section (section_of m ns))) [
    | inl noop ↦ inl (rw noop refl)
    | inr new ↦ inr (ns, section, h section refl, new, rw new refl)
  ]

  written-registered :
      (m : Settings) (ns : String) (expected : Option ℕ) (write : Value → Result String Value)
      (section : Value)
      → written m ns expected write ≡ ok section
      → is_registered ns ≡ true
  unfolding written
  written-registered m ns expected write section e =
      let (_, known, _) = >>=-eq-ok (check_ns ns) _ e in ground arith

  apply_write_cases :
      (m : Settings) (ns : String) (expected : Option ℕ) (write : Value → Result String Value)
      → ((apply_write pretty m ns expected write).1 ≡ m)
        ⊎ Commits m (apply_write pretty m ns expected write)
  unfolding apply_write
  apply_write_cases m ns expected write =
      finish_cases m ns (written m ns expected write) (written-registered m ns expected write)

  -- The machine stays as it was, or commits.
  abbrev pub IsLawful : Settings → List MachineOut × Settings → Type 0
  IsLawful m out = (out.1 ≡ m) ⊎ Commits m out

  if-IsLawful :
      (m : Settings) (b : Bool) (x y : List MachineOut × Settings)
      → IsLawful m x
      → IsLawful m y
      → IsLawful m (if b then x else y)
  if-IsLawful m true x y hx hy = hx
  if-IsLawful m false x y hx hy = hy

  mutate_with-IsLawful :
      (m : Settings) (args : Value) (ops : Option (List Value))
      → IsLawful m (mutate_with pretty m args ops)
  mutate_with-IsLawful m args none = inl refl
  mutate_with-IsLawful m args (some ops) = apply_write_cases m _ _ _

  call-IsLawful :
      (m : Settings) (method : String) (args : Value) → IsLawful m (call pretty m method args)
  unfolding call
  call-IsLawful m method args = if-IsLawful m (str_eq method "describe") _ _ (inl refl) (
      if-IsLawful m (str_eq method "update") _ _
        (if-IsLawful m (is_object (arg_or_empty args "patch")) _ _ (apply_write_cases m _ _ _)
          (inl refl))
        (if-IsLawful m (str_eq method "replace") _ _
          (if-IsLawful m (is_object (arg_or_empty args "section")) _ _ (apply_write_cases m _ _ _)
            (inl refl))
          (if-IsLawful m (str_eq method "mutate") _ _ (mutate_with-IsLawful m args _) (
            if-IsLawful m (str_eq method "openSettingsDocument") _ _ (inl refl) (
              if-IsLawful m (str_eq method "canOpenAgentPresetDirectory") _ _ (inl refl) (
                if-IsLawful m (str_eq method "openAgentPresetDirectory") _ _ (inl refl)
                  (inl refl)))))))

  resume-document :
      (m : Settings) (waiting : Option (ℕ × String)) (result : EffectResult)
      → (resume pretty m waiting result).1.document ≡ m.document
  resume-document m none result = refl
  resume-document m (some w) EffectResult.done = refl
  resume-document m (some w) (EffectResult.failed e) = refl
  resume-document m (some w) _ = refl

  -- The document as it was, or a commit.
  abbrev pub IsStep : Settings → List MachineOut × Settings → Type 0
  IsStep m out = (out.1.document ≡ m.document) ⊎ Commits m out

  IsLawful-IsStep :
      (m : Settings) (out : List MachineOut × Settings) → IsLawful m out → IsStep m out
  IsLawful-IsStep m out (inl e) = inl (ap (λ s. s.document) e)
  IsLawful-IsStep m out (inr c) = inr c

  if-IsStep :
      (m : Settings) (b : Bool) (x y : List MachineOut × Settings)
      → IsStep m x
      → IsStep m y
      → IsStep m (if b then x else y)
  if-IsStep m true x y hx hy = hx
  if-IsStep m false x y hx hy = hy

  handle-IsStep : (m : Settings) (ev : MachineIn) → IsStep m (handle pretty m ev)
  unfolding handle
  handle-IsStep m (MachineIn.effect_result id result) =
      inl (resume-document m m.pending_write result)
  handle-IsStep m (MachineIn.event name payload) =
      if-IsStep m (str_eq name "vocoder/settings/call") _ _
        (IsLawful-IsStep m _ (call-IsLawful m _ _)) (inl refl)
  handle-IsStep m _ = inl refl

  -- The section keeps its value and its revision, or changes both.
  abbrev pub IsVersioned : Settings → Settings → String → Type 0
  IsVersioned m m' ns =
      ((section_of m' ns ≡ section_of m ns) × (revision_of m' ns ≡ revision_of m ns))
      ⊎ ((is_registered ns ≡ true)
          × (same (section_of m' ns) (section_of m ns) ≡ false)
          × (revision_of m' ns ≡ u64_succ (revision_of m ns)))

  committed-IsVersioned :
      (m : Settings) (at ns : String) (section : Value)
      → is_registered at ≡ true
      → same section (section_of m at) ≡ false
      → IsVersioned m (committed m at section) ns
  committed-IsVersioned m at ns section known new = elim (Bool-cases (str_eq at ns)) [
    | inl here ↦ subst (IsVersioned m (committed m at section)) ((eq_iff at ns).0 here) (
        inr (
          known,
          subst (λ o. same (unwrap_or o (json [])) (section_of m at) ≡ false)
              (sym ((lookup-insert m.document.sections at section at).0 (eq_refl at))) new,
          ap (λ o. unwrap_or o 0) ((lookup-insert m.document.revisions at _ at).0 (eq_refl at)),
        ))
    | inr apart ↦ inl (
      ap (λ o. unwrap_or o (json [])) ((lookup-insert m.document.sections at section ns).1 apart),
      ap (λ o. unwrap_or o 0) ((lookup-insert m.document.revisions at _ ns).1 apart),
    )
  ]

  -- Whatever the machine is sent, every section keeps its value and its revision, or is registered
  -- and gets a different value at the next revision.
  pub handle-IsVersioned :
      (m : Settings) (ev : MachineIn) (ns : String) → IsVersioned m (handle pretty m ev).1 ns
  unfolding persist
  handle-IsVersioned m ev ns = elim (handle-IsStep m ev) [
    | inl same_document ↦ inl (
      ap (λ d. unwrap_or (lookup ns d.sections) (json [])) same_document,
      ap (λ d. unwrap_or (lookup ns d.revisions) 0) same_document,
    )
    | inr (at, section, known, new, out) ↦
        subst (λ o. IsVersioned m o.1 ns) (sym out)
          (committed-IsVersioned m at ns section known new)
  ]

  waiting_done :
      (m : Settings) (w : Option (ℕ × String)) (id : ℕ) (ns : String)
      → w ≡ some (id, ns)
      → (resume pretty m w EffectResult.done) ≡ (
        Reply.ok (view_of (record m { pending_write = none; has_document = true }) ns),
        record m { pending_write = none; has_document = true },
      )
  waiting_done m w id ns e = rw e refl

  waiting_failed :
      (m : Settings) (w : Option (ℕ × String)) (id : ℕ) (ns : String) (e : EffectError)
      → w ≡ some (id, ns)
      → resume pretty m w (EffectResult.failed e) ≡ (
        Reply.err "gateway/internal" (concat "persisting settings: " (message e)),
        record m { pending_write = none },
      )
  waiting_failed m w id ns e q = rw q refl

  -- After a call that changes a section, the answer to its write is passed on to the client: a view
  -- of that section if the write succeeded, and an error if it failed. In both cases the machine
  -- keeps the changed document, so that after a failed write it shows what is not stored.
  pub write_answered :
      (m : Settings) (ev : MachineIn) (id : ℕ)
      → Commits m (handle pretty m ev)
      → let m' = (handle pretty m ev).1 in
        (ns : String) × (same (section_of m' ns) (section_of m ns) ≡ false)
        × (handle pretty m' (MachineIn.effect_result id EffectResult.done) ≡ (
          Reply.ok (view_of (record m' { pending_write = none; has_document = true }) ns),
          record m' { pending_write = none; has_document = true },
        ))
        × ((e : EffectError)
            → handle pretty m' (MachineIn.effect_result id (EffectResult.failed e)) ≡ (
              Reply.err "gateway/internal" (concat "persisting settings: " (message e)),
              record m' { pending_write = none },
            ))
  unfolding handle persist
  write_answered m ev id (ns, section, known, new, out) =
      let m' = (handle pretty m ev).1 in
      let waits : m'.pending_write ≡ some (m.effects, ns) = ap (λ o. o.1.pending_write) out in
      (
        ns,
        subst (λ o. same (section_of o.1 ns) (section_of m ns) ≡ false) (sym out)
            (subst (λ o. same (unwrap_or o (json [])) (section_of m ns) ≡ false)
              (sym ((lookup-insert m.document.sections ns section ns).0 (eq_refl ns))) new),
        waiting_done m' m'.pending_write m.effects ns waits,
        λ e. waiting_failed m' m'.pending_write m.effects ns e waits,
      )
