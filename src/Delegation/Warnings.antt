-- ===== src/Delegation/Warnings.antt =====
-- When a delegation is warned of (scripts/codex_loop_runtime/delegation.py).
use codex_loop.Base.{
  String, ◌≡◌, ◌↔◌, refl, sym, inl, inr, Bool, true, false, ◌&&◌, ◌||◌, not, Option, List, [], ◌∷◌,
  ◌++◌, any, select, All, Bool-cases, str_eq, eq_iff, ok, >>=-eq-ok, ok_injective, subst,
}
use codex_loop.Delegation.{
  Capability, Capabilities, CapabilityReport, Degradation, capability_keys, is_core, warned_if,
  parallel_execution, background_execution, calculate_missing_capabilities, native_degraded,
  build_degradation_warnings, Negotiation, negotiate, requested_capabilities, executor_capabilities,
}

-- What was asked for is there.
abbrev pub Has : Capability → Negotiation → Type 0
Has k n = n.requested k ≡ true → n.actual k ≡ true

-- A native request is executed natively with every core capability it asks for, and parallel and
-- background execution are there where they are asked for.
pub record IsUndegraded (requested_executor actual_executor : String) (n : Negotiation)
    : Type 0 where
  pub native : requested_executor ≡ "native_subagent" → actual_executor ≡ "native_subagent"
  pub core : requested_executor ≡ "native_subagent" → (k : Capability) → is_core k ≡ true → Has k n
  pub parallel : Has parallel_execution n
  pub background : Has background_execution n

any-select :
    (p q : Capability → Bool) (xs : List Capability)
    → any p (select q xs) ≡ any (λ k. q k && p k) xs
any-select p q [] = refl
any-select p q (x ∷ xs) = elim (Bool-cases (q x)) [
  | inl hit ↦ rw (hit, any-select p q xs) refl
  | inr miss ↦ rw (miss, any-select p q xs) refl
]

any-false :
    (p : Capability → Bool) (xs : List Capability) → any p xs ≡ false → All (λ k. p k ≡ false) xs
any-false p [] h = tt
any-false p (x ∷ xs) h = elim (Bool-cases (p x)) [
  | inl hit ↦ absurd (cc (rw hit at h))
  | inr miss ↦ (miss, any-false p xs (rw miss at h))
]

all-any :
    (p : Capability → Bool) (xs : List Capability)
    → ((k : Capability) → p k ≡ false)
    → any p xs ≡ false
all-any p [] h = refl
all-any p (x ∷ xs) h = rw (h x, all-any p xs h) refl

-- `capability_keys` has every capability.
all_keys : (P : Capability → Type 0) → All P capability_keys → (k : Capability) → P k
all_keys P h Capability.fresh_model_context = h.0
all_keys P h Capability.independent_model_instance = h.1.0
all_keys P h Capability.physical_context_isolation = h.1.1.0
all_keys P h Capability.behavioral_context_isolation = h.1.1.1.0
all_keys P h Capability.bounded_context_projection = h.1.1.1.1.0
all_keys P h Capability.parallel_execution = h.1.1.1.1.1.0
all_keys P h Capability.background_execution = h.1.1.1.1.1.1.0
all_keys P h Capability.independent_tool_sandbox = h.1.1.1.1.1.1.1.0

lost : (a b : Bool) → (a && not b) ≡ false ↔ (a ≡ true → b ≡ true)
lost true true = (λ h e. refl, λ h. refl)
lost true false = (λ h. cc, λ h. sym (h refl))
lost false b = (λ h e. cc, λ h. refl)

core_lost : (a b c : Bool) → ((a && not b) && c) ≡ false ↔ (c ≡ true → a ≡ true → b ≡ true)
core_lost true true c = (λ h e i. refl, λ h. refl)
core_lost true false true = (λ h. cc, λ h. sym (h refl refl))
core_lost true false false = (λ h e i. cc, λ h. refl)
core_lost false b c = (λ h e i. cc, λ h. refl)

-- No core capability is missing.
core_missing :
    (requested actual : Capabilities)
    → any is_core (calculate_missing_capabilities requested actual) ≡ false
      ↔ ((k : Capability) → is_core k ≡ true → requested k ≡ true → actual k ≡ true)
unfolding calculate_missing_capabilities
core_missing requested actual =
    let same = any-select is_core (λ k. requested k && not (actual k)) capability_keys in
    (
      λ h k. (core_lost (requested k) (actual k) (is_core k)).0 (
          all_keys (λ c. ((requested c && not (actual c)) && is_core c) ≡ false)
            (any-false (λ c. (requested c && not (actual c)) && is_core c) capability_keys
              (rw same at h))
            k),
      λ h. rw same (
          all-any (λ c. (requested c && not (actual c)) && is_core c) capability_keys
            (λ k. (core_lost (requested k) (actual k) (is_core k)).1 (h k))),
    )

warned_if-eq-nil :
    (b : Bool) (w : Degradation) (rest : List Degradation)
    → warned_if b w ++ rest ≡ []
    → (b ≡ false) × (rest ≡ [])
warned_if-eq-nil true w rest h = cc
warned_if-eq-nil false w rest h = (refl, h)

warned_if-nil : (b : Bool) (w : Degradation) → warned_if b w ≡ [] → b ≡ false
warned_if-nil true w h = cc
warned_if-nil false w h = refl

-- What a native request is not degraded by.
native_degraded-false :
    (requested_executor actual_executor : String) (missing : List Capability)
    → native_degraded requested_executor actual_executor missing ≡ false ↔ (
        requested_executor ≡ "native_subagent"
        → (actual_executor ≡ "native_subagent") × (any is_core missing ≡ false))
unfolding native_degraded
native_degraded-false re ae missing = (
  λ h e.
      kept (str_eq ae "native_subagent") (any is_core missing) (eq_iff ae "native_subagent").0
        (implied (str_eq re "native_subagent") _ h ((eq_iff re "native_subagent").1 e)),
  λ h. hidden (str_eq re "native_subagent") _ (λ e.
      let (native, none_lost) = h ((eq_iff re "native_subagent").0 e) in
      rw ((eq_iff ae "native_subagent").1 native, none_lost) refl),
)
  where
    kept : (a b : Bool) {P : Type 0} → (a ≡ true → P) → (not a || b) ≡ false → P × (b ≡ false)
    kept true b f h = (f refl, h)
    kept false b f h = cc

    implied : (a b : Bool) → (a && b) ≡ false → a ≡ true → b ≡ false
    implied true b h e = h
    implied false b h e = cc

    hidden : (a b : Bool) → (a ≡ true → b ≡ false) → (a && b) ≡ false
    hidden true b h = h refl
    hidden false b h = refl

-- The warnings of a negotiation, from its fields.
build-eq-nil :
    (requested_executor actual_executor : String) (n : Negotiation)
    → n.missing ≡ calculate_missing_capabilities n.requested n.actual
    → build_degradation_warnings requested_executor actual_executor n.requested n.actual n.missing
        ≡ []
      ↔ IsUndegraded requested_executor actual_executor n
unfolding build_degradation_warnings
build-eq-nil re ae n e = (
  λ h.
      let (native, h₁) = warned_if-eq-nil (native_degraded re ae n.missing) _ _ h in
      let (parallel, h₂) =
        warned_if-eq-nil (n.requested parallel_execution && not (n.actual parallel_execution)) _ _
          h₁ in
      let background =
        warned_if-nil (n.requested background_execution && not (n.actual background_execution)) _
          h₂ in
      let both = (native_degraded-false re ae n.missing).0 native in
      record {
        native = λ w. (both w).0;
        core = λ w. (core_missing n.requested n.actual).0 (rw e at (both w).1);
        parallel = (lost _ _).0 parallel;
        background = (lost _ _).0 background;
      },
  λ u.
      let native : native_degraded re ae n.missing ≡ false =
        (native_degraded-false re ae n.missing).1
          (λ w. (u.native w, rw e ((core_missing n.requested n.actual).1 (u.core w)))) in
      rw
        (
          native,
          (lost (n.requested parallel_execution) (n.actual parallel_execution)).1 u.parallel,
          (lost (n.requested background_execution) (n.actual background_execution)).1 u.background,
        )
        refl,
)

-- A delegation that is negotiated has no warning exactly when it lost nothing: a native request is
-- executed natively with every core capability that it asks for, and the parallel and the background
-- execution that are asked for are there.
pub negotiate_silent :
    (requested_executor : String) (overrides : CapabilityReport) (actual_executor : String)
    (reported : Option CapabilityReport) {n : Negotiation}
    → negotiate requested_executor overrides actual_executor reported ≡ ok n
    → (n.degradations ≡ []) ↔ IsUndegraded requested_executor actual_executor n
unfolding negotiate
negotiate_silent re overrides ae reported {n} h =
    let (requested, _, h₁) = >>=-eq-ok (requested_capabilities re overrides) _ h in
    let (actual, _, h₂) = >>=-eq-ok (executor_capabilities ae reported) _ h₁ in
    subst (λ (m : Negotiation). (m.degradations ≡ []) ↔ IsUndegraded re ae m) (ok_injective h₂)
      (build-eq-nil re ae
        (record {
          requested = requested;
          actual = actual;
          missing = calculate_missing_capabilities requested actual;
          degradations =
              build_degradation_warnings re ae requested actual
                (calculate_missing_capabilities requested actual);
        })
        refl)
