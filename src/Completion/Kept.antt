-- ===== src/Completion/Kept.antt =====
-- When the workspace stands in the way of nothing (scripts/codex_loop_runtime/completion.py).
use codex_loop.Base.{
  String, ◌≡◌, refl, sym, ap, ◌∙◌, Bool, true, false, ◌&&◌, ◌||◌, not, not-false, Option, none,
  some, List, [], ◌∷◌, All, any, either_false, eq_iff, or_true, some_injective, subst,
}
use codex_loop.Store.{Profile}
use codex_loop.Completion.{
  Obstacle, Tracking, tracked, untracked, Workspace, add_when, is_read_only, is_command_only,
  same_text, changed_any, unexpected, workspace_blockers, collaboration_reason,
}

-- What was observed of the workspace did not change: what the tracking says, or else the hashes of the
-- protected paths and the state of git.
abbrev pub IsUnchanged : Tracking → Type 0
IsUnchanged (tracked unexpected changed) = changed ≡ false
IsUnchanged (untracked hashes before now) =
    All (λ (h : Option String × Option String). h.1 ≡ h.0) hashes
    × (now.head ≡ before.head)
    × (now.branch ≡ before.branch)
    × (now.status ≡ before.status)

-- The workspace of a task is the one that it was bound to, without changes that were not expected, and
-- without any where the profile only reads or runs commands.
pub record IsKept (profile : Profile) (w : Workspace) : Type 0 where
  pub bound : w.matches ≡ true
  pub expected : (changed : Bool) → w.tracking ≡ tracked true changed → ⊥
  pub unchanged : (is_read_only profile || is_command_only profile) ≡ true → IsUnchanged w.tracking

pub add_when-eq-nil :
    (b : Bool) (o : Obstacle) (rest : List Obstacle)
    → add_when b o rest ≡ []
    → (b ≡ false) × (rest ≡ [])
add_when-eq-nil true o rest h = cc
add_when-eq-nil false o rest h = (refl, h)

same_sound : (a b : Option String) → not (same_text a b) ≡ false → a ≡ b
same_sound none none h = refl
same_sound none (some b) h = cc
same_sound (some a) none h = cc
same_sound (some a) (some b) h = ap (λ t. some t) ((eq_iff a b).0 (not-false _ h))

same_complete : (a b : Option String) → a ≡ b → not (same_text a b) ≡ false
same_complete none none h = refl
same_complete none (some b) h = cc
same_complete (some a) none h = cc
same_complete (some a) (some b) h = rw ((eq_iff a b).1 (cc h)) refl

hashes_sound :
    (hashes : List (Option String × Option String))
    → any (λ h. not (same_text h.1 h.0)) hashes ≡ false
    → All (λ (h : Option String × Option String). h.1 ≡ h.0) hashes
hashes_sound [] e = tt
hashes_sound (h ∷ hashes) e =
    let both = either_false (not (same_text h.1 h.0)) _ e in
    (same_sound h.1 h.0 both.0, hashes_sound hashes both.1)

hashes_complete :
    (hashes : List (Option String × Option String))
    → All (λ (h : Option String × Option String). h.1 ≡ h.0) hashes
    → any (λ h. not (same_text h.1 h.0)) hashes ≡ false
hashes_complete [] e = refl
hashes_complete (h ∷ hashes) e = rw (same_complete h.1 h.0 e.0) (hashes_complete hashes e.1)

unchanged_sound :
    (profile : Profile) (t : Tracking)
    → (is_read_only profile || is_command_only profile) ≡ true
    → changed_any profile t ≡ false
    → IsUnchanged t
unfolding changed_any
unchanged_sound profile (tracked u changed) watched h = h
unchanged_sound profile (untracked hashes before now) watched h =
    let a = either_false _ (not (same_text now.status before.status)) (rw watched at h) in
    let b = either_false _ (not (same_text now.branch before.branch)) a.0 in
    let c =
      either_false (any (λ h. not (same_text h.1 h.0)) hashes)
        (not (same_text now.head before.head)) b.0 in
    (
      hashes_sound hashes c.0,
      same_sound now.head before.head c.1,
      same_sound now.branch before.branch b.1,
      same_sound now.status before.status a.1,
    )

unchanged_complete :
    (profile : Profile) (t : Tracking) → IsUnchanged t → changed_any profile t ≡ false
unfolding changed_any
unchanged_complete profile (tracked u changed) h = h
unchanged_complete profile (untracked hashes before now) (h, head, branch, status) =
    rw
      (
        hashes_complete hashes h,
        same_complete now.head before.head head,
        same_complete now.branch before.branch branch,
        same_complete now.status before.status status,
      )
      (nothing (is_read_only profile || is_command_only profile))
  where
    nothing : (a : Bool) → (a && false) ≡ false
    nothing true = refl
    nothing false = refl

expected_sound :
    (t : Tracking) → unexpected t ≡ false → (changed : Bool) → t ≡ tracked true changed → ⊥
expected_sound t h changed e = absurd (cc (sym h ∙ ap (λ x. unexpected x) e))

expected_complete :
    (t : Tracking) → ((changed : Bool) → t ≡ tracked true changed → ⊥) → unexpected t ≡ false
expected_complete (tracked true c) h = absurd (h c refl)
expected_complete (tracked false c) h = refl
expected_complete (untracked a b c) h = refl

watched_cases : (a b c : Bool) → (a && c) ≡ false → (b && c) ≡ false → (a || b) ≡ true → c ≡ false
watched_cases true b c h k w = h
watched_cases false true c h k w = k
watched_cases false false c h k w = cc

pub nil-IsKept :
    (profile : Profile) (binding : Option Workspace)
    → workspace_blockers profile binding ≡ []
    → (w : Workspace) → binding ≡ some w
    → IsKept profile w
unfolding workspace_blockers
nil-IsKept profile none h w e = cc
nil-IsKept profile (some v) h w e =
    let a = add_when-eq-nil _ _ _ h in
    let b = add_when-eq-nil _ _ _ a.1 in
    let c = add_when-eq-nil _ _ _ b.1 in
    let d = add_when-eq-nil _ _ _ c.1 in
    subst (IsKept profile) (some_injective e) (record {
      bound = not-false _ a.0;
      expected = expected_sound v.tracking b.0;
      unchanged = λ watched.
          unchanged_sound profile v.tracking watched
            (watched_cases (is_read_only profile) (is_command_only profile) _ c.0 d.0 watched);
    })

pub IsKept-nil :
    (profile : Profile) (binding : Option Workspace)
    → ((w : Workspace) → binding ≡ some w → IsKept profile w)
    → workspace_blockers profile binding ≡ []
unfolding workspace_blockers
IsKept-nil profile none h = refl
IsKept-nil profile (some v) h =
    let k = h v refl in
    let quiet =
      λ (a : Bool) (sub : a ≡ true → (is_read_only profile || is_command_only profile) ≡ true).
        silent a (changed_any profile v.tracking)
          (λ e. unchanged_complete profile v.tracking (k.unchanged (sub e))) in
    rw
      (
        k.bound,
        expected_complete v.tracking k.expected,
        quiet (is_read_only profile) (λ e. rw e refl),
        quiet (is_command_only profile) (λ e. rw e (or_true (is_read_only profile))),
      )
      refl
  where
    silent : (a c : Bool) → (a ≡ true → c ≡ false) → (a && c) ≡ false
    silent true c h = h refl
    silent false c h = refl

pub nil-IsBlank :
    (o : Option String)
    → collaboration_reason o [] ≡ []
    → (text : String) → o ≡ some text
    → text ≡ ""
nil-IsBlank none h text e = cc
nil-IsBlank (some String.[]) h text e = sym (some_injective e)
nil-IsBlank (some (String.◌∷◌ c t)) h text e = cc

pub IsBlank-nil :
    (o : Option String)
    → ((text : String) → o ≡ some text → text ≡ "")
    → collaboration_reason o [] ≡ []
IsBlank-nil none h = refl
IsBlank-nil (some t) h = rw (h t refl) refl
