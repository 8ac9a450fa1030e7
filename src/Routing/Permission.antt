-- ===== src/Routing/Permission.antt =====
-- What a resolved target presupposes (scripts/codex_loop_runtime/interaction_routing.py).
use codex_loop.Base.{
  String, ◌≡◌, refl, sym, ap, ◌∙◌, subst, ◌≢◌, ◌⊎◌, inl, inr, Bool, true, false, ◌||◌, ◌&&◌, not,
  not-false, none, some, is_empty, List, [], ◌∷◌, select, if◌then◌else◌, str_eq, eq_iff, member,
  Bool-cases, ok, reject-eq-ok, ok_injective,
}
use codex_loop.Routing.{
  Demand, HostBrowser, resolved, capability_missing, authorization_needed, answer, Source,
  Resolution, unknown_target, valid_targets, available_of, choose_target, resolve_local,
  resolve_cloud, resolve_interaction_target,
}

member-select :
    (p : String → Bool) (t : String) (xs : List String)
    → member t (select p xs) ≡ (member t xs && p t)
member-select p t [] = refl
member-select p t (x ∷ xs) = elim (Bool-cases (str_eq t x)) [
  | inl same ↦
      let e = ap p ((eq_iff t x).0 same) in
      elim (Bool-cases (p x)) [
        | inl kept ↦ rw (kept, same, e, kept) refl
        | inr out ↦
            rw (out, same, e, out)
              (member-select p t xs ∙ sym (nothing (member t xs) (p t) (e ∙ out)))
      ]
  | inr other ↦ elim (Bool-cases (p x)) [
    | inl kept ↦ rw (kept, other) (member-select p t xs)
    | inr out ↦ rw (out, other) (member-select p t xs)
  ]
]
  where
    nothing : (a b : Bool) → b ≡ false → false ≡ (a && b)
    nothing true b e = sym e
    nothing false b e = refl

-- A target that is known is offered as it was given.
cloud-available_of :
    (given : List String)
    → member "cloud_browser" (available_of given) ≡ member "cloud_browser" given
unfolding available_of
cloud-available_of given = member-select (λ u. member u given) "cloud_browser" valid_targets

local-available_of :
    (given : List String) → member "local_chrome" (available_of given) ≡ member "local_chrome" given
unfolding available_of
local-available_of given = member-select (λ u. member u given) "local_chrome" valid_targets

-- The target that a web interaction is due: the one that the user names, or else the local Chrome for a
-- session on this machine, or else the one that the host prefers, or else the cloud browser.
pub record IsDue (d : Demand) (h : HostBrowser) (target : String) : Type 0 where
  pub by_user : (t : String) → d.explicit_target ≡ some t → target ≡ t
  pub by_session :
      d.explicit_target ≡ none → d.task_requires_local_session ≡ true → target ≡ "local_chrome"
  pub by_host :
      d.explicit_target ≡ none
      → d.task_requires_local_session ≡ false
      → h.preferred_target ≢ ""
      → target ≡ h.preferred_target
  pub by_default :
      d.explicit_target ≡ none
      → d.task_requires_local_session ≡ false
      → h.preferred_target ≡ ""
      → target ≡ "cloud_browser"

not_empty : (t : String) → t ≢ "" → is_empty t ≡ false
not_empty String.[] n = absurd (n refl)
not_empty (String.◌∷◌ c t) n = refl

choose_target-IsDue : (d : Demand) (h : HostBrowser) → IsDue d h (choose_target d h).0
unfolding choose_target
choose_target-IsDue d h = record {
  by_user = λ t e. rw (choose_target, e) refl;
  by_session = λ e local. rw (choose_target, e, local) refl;
  by_host = λ e remote some_text.
      rw (choose_target, e, remote, not_empty h.preferred_target some_text) refl;
  by_default = λ e remote empty. rw (choose_target, e, remote, empty) refl;
}

-- What the resolution of a web interaction has to respect.
pub record IsPermitted (d : Demand) (h : HostBrowser) (r : Resolution) : Type 0 where
  pub due : IsDue d h r.target
  pub known : (r.target ≡ "cloud_browser") ⊎ (r.target ≡ "local_chrome")
  pub offered : r.status ≡ resolved → member r.target d.available_targets ≡ true
  pub authorized :
      r.status ≡ resolved → r.target ≡ "local_chrome" → d.local_computer_authorized ≡ true
  pub granted :
      member r.target d.available_targets ≡ true
      → (r.target ≡ "local_chrome" → d.local_computer_authorized ≡ true)
      → r.status ≡ resolved
  pub missing : member r.target d.available_targets ≡ false → r.status ≡ capability_missing

local-IsPermitted :
    (d : Demand) (h : HostBrowser) (source : Source) (agreed : Bool)
    → (choose_target d h).0 ≡ "local_chrome"
    → d.local_computer_authorized ≡ agreed
    → IsPermitted d h (resolve_local agreed source (available_of d.available_targets))
unfolding resolve_local
local-IsPermitted d h source agreed e word =
    let offers = local-available_of d.available_targets in
    elim (Bool-cases (member "local_chrome" (available_of d.available_targets))) [
      | inr absent ↦ rw absent (record {
        due = subst (IsDue d h) e (choose_target-IsDue d h);
        known = inr refl;
        offered = λ r. cc;
        authorized = λ r. cc;
        granted = λ there agrees. absurd (cc (sym absent ∙ offers ∙ there));
        missing = λ _. refl;
      })
      | inl there ↦ rw there (by_word agreed word (sym offers ∙ there))
    ]
  where
    by_word :
        (b : Bool)
        → d.local_computer_authorized ≡ b
        → member "local_chrome" d.available_targets ≡ true
        → IsPermitted d h (
            if not b
            then answer "local_chrome" authorization_needed source true
                (available_of d.available_targets)
                none
            else answer "local_chrome" resolved source false
                (available_of d.available_targets)
                none)
    by_word false w there = record {
      due = subst (IsDue d h) e (choose_target-IsDue d h);
      known = inr refl;
      offered = λ r. cc;
      authorized = λ r. cc;
      granted = λ _ agrees. absurd (cc (sym (agrees refl) ∙ w));
      missing = λ absent. absurd (cc (sym absent ∙ there));
    }
    by_word true w there = record {
      due = subst (IsDue d h) e (choose_target-IsDue d h);
      known = inr refl;
      offered = λ _. there;
      authorized = λ _ _. w;
      granted = λ _ _. refl;
      missing = λ absent. absurd (cc (sym absent ∙ there));
    }

cloud-IsPermitted :
    (d : Demand) (h : HostBrowser) (source : Source)
    → (choose_target d h).0 ≡ "cloud_browser"
    → IsPermitted d h (resolve_cloud d h source (available_of d.available_targets))
unfolding resolve_cloud
cloud-IsPermitted d h source e =
    let offers = cloud-available_of d.available_targets in
    elim (Bool-cases (member "cloud_browser" (available_of d.available_targets))) [
      | inr absent ↦ rw absent (record {
        due = subst (IsDue d h) e (choose_target-IsDue d h);
        known = inl refl;
        offered = λ r. cc;
        authorized = λ r. cc;
        granted = λ there agrees. absurd (cc (sym absent ∙ offers ∙ there));
        missing = λ _. refl;
      })
      | inl there ↦ rw there (record {
        due = subst (IsDue d h) e (choose_target-IsDue d h);
        known = inl refl;
        offered = λ _. sym offers ∙ there;
        authorized = λ _ t. absurd cc;
        granted = λ _ _. refl;
        missing = λ absent. absurd (cc (sym absent ∙ sym offers ∙ there));
      })
    ]

-- A web interaction that is not refused goes to the target that it is due: the one that the user named,
-- or else the local Chrome where the task needs a session on this machine, or else the one that the host
-- prefers, or else the cloud browser. It counts as resolved exactly where that target is among the
-- offered ones and, for the local Chrome, the use of the local computer is authorized; where the target
-- is not offered, its capability is missing.
pub resolve_interaction_target-IsPermitted :
    (d : Demand) (h : HostBrowser) {r : Resolution}
    → d.requires_web_interaction ≡ true
    → resolve_interaction_target d h ≡ ok r
    → IsPermitted d h r
unfolding resolve_interaction_target
resolve_interaction_target-IsPermitted d h {r} needed e =
    let target = (choose_target d h).0 in
    let source = (choose_target d h).1 in
    let known =
      reject-eq-ok (not (str_eq target "cloud_browser" || str_eq target "local_chrome"))
        unknown_target _ (rw needed at e) in
    let made = ok_injective known.1 in
    elim (Bool-cases (str_eq target "local_chrome")) [
      | inl here ↦ subst (IsPermitted d h) (rw here at made) (
          local-IsPermitted d h source d.local_computer_authorized
            ((eq_iff target "local_chrome").0 here) refl)
      | inr away ↦
          let cloud : str_eq target "cloud_browser" ≡ true =
            left_or _ _ (not-false _ known.0) away in
          subst (IsPermitted d h) (rw away at made)
            (cloud-IsPermitted d h source ((eq_iff target "cloud_browser").0 cloud))
    ]
  where
    left_or : (a b : Bool) → (a || b) ≡ true → b ≡ false → a ≡ true
    left_or true b p q = refl
    left_or false b p q = cc
