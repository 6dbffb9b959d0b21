-- ===== src/Fencing/Required.antt =====
-- What `FenceOldPrimary` of internal/fencing/coordinator.go has done where it returns.
use mha_go.Base.{
  Bool, true, false, not, Text, List, [], ◌∷◌, ◌++◌, Option, none, some, is_nil, is_blank, In,
  In-cons, append-nil, append_assoc, if◌then◌else◌, ◌≡◌, refl, ap, sym, subst, ◌∙◌, arith, ◌⊎◌, inl,
  inr, Bool-cases,
}
use mha_go.Domain.Spec.{ClusterSpec, FencingStepSpec}
use mha_go.Domain.View.{NodeState}
use mha_go.Effects.{Env, call, then_do}
use mha_go.Fencing.{
  command_text, kind_unset, FenceCall, set_read_only, run, Trace, FenceKind, read_only, scripted,
  unsupported, fence_kind, execute_in, script_of, run_command, command_error, execute_step,
  fence_steps, fence_old_primary, after_step, normalize_kind, steps_or_default, required_text,
}

module _ (env : Env FenceCall) (spec : ClusterSpec) (old_primary candidate : NodeState)
    (has_fence : Bool) where
  -- The call that a step of a kind makes.
  abbrev pub call_of : FencingStepSpec → Text → FenceKind → Option FenceCall
  call_of s kind read_only = some set_read_only
  call_of s kind scripted =
      some (run (script_of env spec old_primary candidate has_fence s.command kind))
  call_of s kind unsupported = none

  -- A step of the configuration was carried out: its call was made, and came back without an error.
  pub record IsDone (s : FencingStepSpec) (t : Trace) : Type 0 where
    pub made : FenceCall
    pub of_step : call_of s (normalize_kind s.kind) (fence_kind (normalize_kind s.kind)) ≡ some made
    pub before : Trace
    pub succeeded : env.error_of before (call made) ≡ none
    pub after : Trace
    pub in_trace : t ≡ then_do before (call made) ++ after

  command_error-none : (o : Option Text) → command_error o ≡ none → o ≡ none
  command_error-none none h = refl
  command_error-none (some e) h = cc

  -- A step's call and trace, where it succeeds.
  executed :
      (s : FencingStepSpec) (kind : Text) (k : FenceKind) (t : Trace)
      → (execute_in env spec old_primary candidate has_fence s kind t k).0 ≡ none
      → (made : FenceCall) × (call_of s kind k ≡ some made)
        × (env.error_of t (call made) ≡ none)
        × ((execute_in env spec old_primary candidate has_fence s kind t k).1
            ≡ then_do t (call made))
  unfolding run_command
  executed s kind read_only t h = (set_read_only, refl, ground arith, ground arith)
  executed s kind unsupported t h = cc
  executed s kind scripted t h = elim (Bool-cases (is_blank s.command)) [
    | inl e ↦ cc
    | inr e ↦ (
      run (script_of env spec old_primary candidate has_fence s.command kind),
      refl,
      command_error-none _ (
          subst
            (λ b.
              (if b
                then (some (command_text kind), t)
                else run_command env spec old_primary candidate has_fence s.command kind t).0
              ≡ none)
            e h),
      rw e refl,
    )
  ]

  abbrev Grows : Trace → Trace → Type 0
  Grows t t' = (u : Trace) × (t' ≡ t ++ u)

  Grows-refl : (t : Trace) → Grows t t
  Grows-refl t = ([], sym (append-nil t))

  Grows-trans : (a : Trace) {b c : Trace} → Grows a b → Grows b c → Grows a c
  Grows-trans a (u, e) (v, f) = (u ++ v, f ∙ (ap (λ x. x ++ v) e ∙ append_assoc a u v))

  execute_in-Grows :
      (s : FencingStepSpec) (kind : Text) (k : FenceKind) (t : Trace)
      → Grows t (execute_in env spec old_primary candidate has_fence s kind t k).1
  unfolding run_command
  execute_in-Grows s kind read_only t = elim (Bool-cases (not has_fence)) [
    | inl e ↦ rw e (Grows-refl t)
    | inr e ↦ rw e (call set_read_only ∷ [], refl)
  ]
  execute_in-Grows s kind scripted t = elim (Bool-cases (is_blank s.command)) [
    | inl e ↦ rw e (Grows-refl t)
    | inr e ↦
        rw e (
          call (run (script_of env spec old_primary candidate has_fence s.command kind)) ∷ [],
          refl,
        )
  ]
  execute_in-Grows s kind unsupported t = Grows-refl t

  after_step-Grows :
      (later : Trace → Option Text × Trace)
      → ((t : Trace) → Grows t (later t).1)
      → (s : FencingStepSpec) (kind : Text) (t : Trace) (r : Option Text × Trace) → Grows t r.1
      → Grows t (after_step env spec old_primary candidate has_fence later s kind r).1
  after_step-Grows later grows s kind t (none, t') g = Grows-trans t g (grows t')
  after_step-Grows later grows s kind t (some e, t') g = elim (Bool-cases (not s.required)) [
    | inl o ↦ rw o (Grows-trans t g (grows t'))
    | inr o ↦ rw o g
  ]

  fence_steps-Grows :
      (l : List FencingStepSpec) (t : Trace)
      → Grows t (fence_steps env spec old_primary candidate has_fence l t).1
  unfolding fence_steps execute_step
  fence_steps-Grows [] t = Grows-refl t
  fence_steps-Grows (s ∷ l) t = elim (Bool-cases (is_nil (normalize_kind s.kind))) [
    | inl e ↦ rw e (Grows-refl t)
    | inr e ↦ rw e (
        after_step-Grows (fence_steps env spec old_primary candidate has_fence l)
          (fence_steps-Grows l) s (normalize_kind s.kind) t _
          (execute_in-Grows s (normalize_kind s.kind) (fence_kind (normalize_kind s.kind)) t))
  ]

  -- A round that ends without an error goes on, behind a step that succeeded or is optional.
  after_step-none :
      (later : Trace → Option Text × Trace) (s : FencingStepSpec) (kind : Text)
      (r : Option Text × Trace) {t' : Trace}
      → after_step env spec old_primary candidate has_fence later s kind r ≡ (none, t')
      → (later r.1 ≡ (none, t')) × ((r.0 ≡ none) ⊎ (s.required ≡ false))
  after_step-none later s kind (none, t) h = (h, inl refl)
  after_step-none later s kind (some e, t) {t'} h = elim (Bool-cases s.required) [
    | inl o ↦ cc (ap (λ x. x.0) h)
    | inr o ↦ (
      subst (λ b. (if not b then later t else (some (required_text kind e), t)) ≡ (none, t')) o h,
      inr o,
    )
  ]

  head-IsDone :
      (s : FencingStepSpec) (l : List FencingStepSpec) (t : Trace) {t' : Trace}
      → (execute_step env spec old_primary candidate has_fence s (normalize_kind s.kind) t).0 ≡ none
      → fence_steps env spec old_primary candidate has_fence l
          (execute_step env spec old_primary candidate has_fence s (normalize_kind s.kind) t).1
        ≡ (none, t')
      → IsDone s t'
  unfolding execute_step
  head-IsDone s l t {t'} ok_step rest =
      let (made, of_step, succeeded, trace) =
        executed s (normalize_kind s.kind) (fence_kind (normalize_kind s.kind)) t ok_step in
      let (u, grown) =
        fence_steps-Grows l
          (execute_in env spec old_primary candidate has_fence s (normalize_kind s.kind) t
            (fence_kind (normalize_kind s.kind))).1 in
      record {
        made = made;
        of_step = of_step;
        before = t;
        succeeded = succeeded;
        after = u;
        in_trace = sym (ap (λ r. r.1) rest) ∙ (grown ∙ ap (λ x. x ++ u) trace);
      }

  fence_steps-IsDone :
      (l : List FencingStepSpec) (t : Trace) {t' : Trace} {s : FencingStepSpec}
      → fence_steps env spec old_primary candidate has_fence l t ≡ (none, t')
      → In s l
      → s.required ≡ true
      → IsDone s t'
  unfolding fence_steps
  fence_steps-IsDone [] t h i r = elim i [ ]
  fence_steps-IsDone (q ∷ l) t {t'} {s} h i r = elim (Bool-cases (is_nil (normalize_kind q.kind))) [
    | inl e ↦ cc (ap (λ x. x.0) h)
    | inr e ↦
        let (rest, why) =
          after_step-none (fence_steps env spec old_primary candidate has_fence l) q
            (normalize_kind q.kind)
            (execute_step env spec old_primary candidate has_fence q (normalize_kind q.kind) t)
            (subst
              (λ b.
                (if b
                  then (some kind_unset, t)
                  else after_step env spec old_primary candidate has_fence
                      (fence_steps env spec old_primary candidate has_fence l) q
                      (normalize_kind q.kind)
                      (execute_step env spec old_primary candidate has_fence q
                        (normalize_kind q.kind) t))
                ≡ (none, t'))
              e h) in
        elim (In-cons i) [
          | inr later ↦ fence_steps-IsDone l _ rest later r
          | inl same ↦ elim why [
            | inl done ↦ subst (λ x. IsDone x t') (sym same) (head-IsDone q l t done rest)
            | inr optional ↦
                let required : q.required ≡ true = subst (λ x. x.required ≡ true) same r in cc
          ]
        ]
  ]

  -- Where the fencing of the old primary returns no error, each required step of the configuration,
  -- or the SQL fence if no step is configured, was carried out without an error.
  pub fence_old_primary-IsDone :
      (t : Trace) {t' : Trace} {s : FencingStepSpec}
      → fence_old_primary env spec old_primary candidate has_fence t ≡ (none, t')
      → In s (steps_or_default spec.fencing.steps)
      → s.required ≡ true
      → IsDone s t'
  unfolding fence_old_primary
  fence_old_primary-IsDone t h i r =
      fence_steps-IsDone (steps_or_default spec.fencing.steps) t h i r
