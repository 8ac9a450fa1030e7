-- ===== src/Collab/Moves/Changes.antt =====
-- scripts/codex_loop_runtime/local_collaboration.py: the updates of one row of `slots`.
use codex_loop.Base.{
  ℕ, ◌<◌, ◌≡◌, refl, sym, ap, inl, inr, String, true, false, Option, none, some, ◌==◌, arith,
  Bool-cases, Result, ok, err, ok_injective,
}
use codex_loop.Collab.{Run, Slot, SlotStatus, CollabError, not_owner}
use codex_loop.Collab.Rows.{
  is_claimed, is_available, is_done, active_owner, find_held, checked_generation,
}
use codex_loop.Collab.Leases.{seen_at, freed, checkpointed}
use codex_loop.Collab.Specs.{Spec}
use codex_loop.Collab.Tasks.{rewritten}
use codex_loop.Collab.Pools.Blocked.{handed_back}
use codex_loop.Collab.Claim.Taking.{assigned}
use codex_loop.Collab.Claim.Settle.{first_generation}
use codex_loop.Collab.Claim.Materialize.{materialized}
use codex_loop.Collab.Finish.{finished_slot, done_if_claimed}
use codex_loop.Collab.Moves.{Follows, Follows-refl}

-- An update that leaves alone what a lease and a result are.
abbrev pub Keeps : Slot → Slot → Type 0
Keeps s t =
    (s.number ≡ t.number)
    × (s.status ≡ t.status)
    × (s.task_id ≡ t.task_id)
    × (s.lease_generation ≡ t.lease_generation)
    × (s.commit_sha ≡ t.commit_sha)
    × (s.completed_by ≡ t.completed_by)

pub Keeps-Follows : (s t : Slot) → Keeps s t → Follows s t
Keeps-Follows s t (number, status, task, generation, commit, worker) = record {
  number = number;
  lease = inr (record { same = generation; holder = λ h. (rw status h, task) });
  result = λ h. record { status = rw (sym status) h; commit = commit; worker = worker };
}

pub seen_at-Follows : (now : ℕ) (s : Slot) → Follows s (seen_at now s)
seen_at-Follows now s = Keeps-Follows s (seen_at now s) (refl, refl, refl, refl, refl, refl)

pub checkpointed-Follows : (a b : String) (s : Slot) → Follows s (checkpointed a b s)
checkpointed-Follows a b s =
    Keeps-Follows s (checkpointed a b s) (refl, refl, refl, refl, refl, refl)

pub materialized-Follows : (a b : String) (s : Slot) → Follows s (materialized a b s)
materialized-Follows a b s =
    Keeps-Follows s (materialized a b s) (refl, refl, refl, refl, refl, refl)

pub rewritten-Follows : (spec : Spec) (s : Slot) → Follows s (rewritten spec s)
rewritten-Follows spec s = Keeps-Follows s (rewritten spec s) (refl, refl, refl, refl, refl, refl)

-- A slot that is not done, and afterwards either has a higher generation or is not claimed.
pub Follows-raised :
    (s t : Slot)
    → s.number ≡ t.number
    → is_done s.status ≡ false
    → s.lease_generation < t.lease_generation
    → Follows s t
Follows-raised s t number unfinished lt = record {
  number = number;
  lease = inl lt;
  result = λ h. absurd (cc);
}

pub Follows-released :
    (s t : Slot)
    → s.number ≡ t.number
    → is_done s.status ≡ false
    → s.lease_generation ≡ t.lease_generation
    → is_claimed t.status ≡ false
    → Follows s t
Follows-released s t number unfinished same free = record {
  number = number;
  lease = inr (record { same = same; holder = λ h. absurd (cc) });
  result = λ h. absurd (cc);
}

pub claimed_open : (s : SlotStatus) → is_claimed s ≡ true → is_done s ≡ false
claimed_open SlotStatus.claimed h = refl
claimed_open SlotStatus.available h = refl
claimed_open SlotStatus.done h = sym h

pub available_open : (s : SlotStatus) → is_available s ≡ true → is_done s ≡ false
available_open SlotStatus.available h = refl
available_open SlotStatus.claimed h = refl
available_open SlotStatus.done h = sym h

pub freed-Follows : (s : Slot) → Follows s (freed s)
freed-Follows s = elim (Bool-cases (is_claimed s.status)) [
  | inl hit ↦ rw hit (Follows-released s _ refl (claimed_open s.status hit) refl refl)
  | inr miss ↦ rw miss (Follows-refl s)
]

pub assigned-Follows : (worker : String) (now : ℕ) (s : Slot) → Follows s (assigned worker now s)
assigned-Follows worker now s = elim (Bool-cases (is_available s.status)) [
  | inl hit ↦ rw hit (Follows-raised s _ refl (available_open s.status hit) (omega arith))
  | inr miss ↦ rw miss (Follows-refl s)
]

pub first_generation-Follows :
    (s : Slot)
    → is_claimed s.status ≡ true
    → s.lease_generation ≡ 0
    → Follows s (first_generation s)
first_generation-Follows s claimed first =
    Follows-raised s (first_generation s) refl (claimed_open s.status claimed)
      (rw first (omega arith))

pub handed_back-Follows : (s : Slot) → is_claimed s.status ≡ true → Follows s (handed_back s)
handed_back-Follows s claimed =
    Follows-raised s (handed_back s) refl (claimed_open s.status claimed) (omega arith)

pub finished_slot-Follows :
    (worker commit : String) (s : Slot)
    → is_done s.status ≡ false
    → Follows s (finished_slot worker commit s)
finished_slot-Follows worker commit s unfinished =
    Follows-released s (finished_slot worker commit s) refl unfinished refl refl

pub done_if_claimed-Follows :
    (worker commit : String) (s : Slot) → Follows s (done_if_claimed worker commit s)
done_if_claimed-Follows worker commit s = elim (Bool-cases (is_claimed s.status)) [
  | inl hit ↦ rw hit (finished_slot-Follows worker commit s (claimed_open s.status hit))
  | inr miss ↦ rw miss (Follows-refl s)
]

checked_generation-same :
    (generation : Option ℕ) (s t : Slot) → checked_generation generation s ≡ ok t → s ≡ t
checked_generation-same none s t h = ok_injective h
checked_generation-same (some g) s t h = elim (Bool-cases (s.lease_generation == g)) [
  | inl hit ↦ ok_injective (rw hit at h)
  | inr miss ↦ cc (rw miss at h)
]

-- Who owns a lease holds the slot.
pub active_owner-find_held :
    (worker : String) (generation : Option ℕ) (r : Run) (s : Slot)
    → active_owner worker generation r ≡ ok s
    → find_held worker r.slots ≡ some s
unfolding active_owner
active_owner-find_held worker generation r s h = go (find_held worker r.slots) refl h
  where
    go :
        (held : Option Slot)
        → find_held worker r.slots ≡ held
        → ◌≡◌ {A = Result CollabError Slot}
            (elim held [ none ↦ err not_owner | some t ↦ checked_generation generation t ])
            (ok s)
        → find_held worker r.slots ≡ some s
    go none e h = cc
    go (some t) e h = rw e (ap (λ u. some u) (checked_generation-same generation t s h))
