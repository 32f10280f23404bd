-- ===== src/Tool/Gating.antt =====
-- What the gate asks for (rust/crates/vocoderd/src/machines/tool.rs).
use dsh_rs.Base.{
  ◌≡◌, ◌<◌, inl, inr, refl, sym, subst, String, Option, none, some, true, Option-cases, ltb→lt,
  arith,
}
use dsh_rs.Json.{Fields}
use dsh_rs.Sandbox.{Mode, rank, widening, parse_mode, Fence, fence, allows, writable_roots_for}
use dsh_rs.Tool.{
  Arguments, as_object, text_arg, Gate, judged, to_mode, paired, gate, escalated_fence,
}

-- A fence of a higher mode at the same root, which lets through what the other does.
abbrev pub Widens : Fence → Fence → Type 0
Widens f g =
    (rank f.mode < rank g.mode)
    × (g.root ≡ f.root)
    × ((tmp target : String) → allows tmp f target ≡ true → allows tmp g target ≡ true)

widening-Widens :
    (root : String) (from to : Mode)
    → rank from < rank to
    → Widens (fence from root) (fence to root)
unfolding allows writable_roots_for
widening-Widens root from Mode.read_only h = absurd (omega arith)
widening-Widens root from Mode.danger_full_access h = (h, refl, λ tmp target e. refl)
widening-Widens root Mode.read_only Mode.workspace_write h = (h, refl, λ tmp target e. ground arith)
widening-Widens root Mode.workspace_write Mode.workspace_write h = absurd (omega arith)
widening-Widens root Mode.danger_full_access Mode.workspace_write h = absurd (omega arith)

judged_asks :
    (mode target : Mode) (requested reason said : String)
    → judged mode target requested said (widening mode target) ≡ Gate.ask reason
    → rank mode < rank target
unfolding widening
judged_asks mode target requested reason said e = ground (arith, ltb→lt (rank mode) (rank target))

-- What a question is about: the mode that the call's arguments name.
abbrev pub Asks : Arguments → Fence → Type 0
Asks arguments f =
    (args : Fields) × (requested : String) × (as_object arguments ≡ some args)
    × (text_arg args "sandbox_permissions" ≡ some requested)
    × Widens f (escalated_fence f requested)

to_mode_asks :
    (root : String) (mode : Mode) (requested reason said : String)
    → to_mode mode requested said (parse_mode requested) ≡ Gate.ask reason
    → Widens (fence mode root) (escalated_fence (fence mode root) requested)
to_mode_asks root mode requested reason said e = elim (Option-cases (parse_mode requested)) [
  | inl n ↦ ground arith
  | inr (target, t) ↦
      let less =
        judged_asks mode target requested reason said
          (subst (λ o. to_mode mode requested said o ≡ Gate.ask reason) t e) in
      subst
        (λ o. Widens (fence mode root) (elim o [ none ↦ fence mode root | some m ↦ fence m root ]))
        (sym t) (widening-Widens root mode target less)
]

paired_asks :
    (root : String) (mode : Mode) (request said : Option String) (reason : String)
    → paired mode request said ≡ Gate.ask reason
    → (requested : String) × (request ≡ some requested)
      × Widens (fence mode root) (escalated_fence (fence mode root) requested)
paired_asks root mode none none reason e = ground arith
paired_asks root mode none (some s) reason e = ground arith
paired_asks root mode (some r) none reason e = ground arith
paired_asks root mode (some r) (some s) reason e =
    (r, refl, to_mode_asks root mode r reason s (ground arith))

-- When the gate puts a question, the call's arguments name a mode, and the fence that a grant
-- gives the call has a strictly higher mode, the same root, and lets through every target that
-- the session's own fence lets through.
pub gate-Asks :
    (name : String) (arguments : Arguments) (mode : Mode) (root reason : String)
    → gate name arguments (fence mode root) ≡ Gate.ask reason
    → Asks arguments (fence mode root)
unfolding gate
gate-Asks name (Arguments.not_an_object raw) mode root reason e = ground arith
gate-Asks name (Arguments.an_object args) mode root reason e =
    let (requested, r, w) =
      paired_asks root mode (text_arg args "sandbox_permissions") (text_arg args "justification")
        reason (ground arith) in
    (args, requested, refl, r, w)
