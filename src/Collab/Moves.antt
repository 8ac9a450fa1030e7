-- ===== src/Collab/Moves.antt =====
-- scripts/codex_loop_runtime/local_collaboration.py: what every operation does to the slots of a run, and
-- to a run that is not open any more.
pub mod Slots
pub mod Rules
pub mod Changes
pub mod Connect
pub mod Leases
pub mod Offers
pub mod Tasks
pub mod Claim
pub mod Handover
pub mod Settle
pub mod Join
pub mod Finish
pub mod Integration
use codex_loop.Base.{
  ℕ, suc, ◌+◌, ◌<◌, ◌≡◌, refl, sym, ◌∙◌, ◌⊎◌, inl, inr, String, Bool, true, false, not, Option,
  List, [], ◌∷◌, ◌++◌, all, count, arith,
}
use codex_loop.Collab.{Run, Slot, Offer}
use codex_loop.Collab.Rows.{is_opened, is_claimed, is_done, is_unsettled}

-- A finished slot stays finished, by the same worker and with the same commit.
pub record StaysDone (s t : Slot) : Type 0 where
  pub status : is_done t.status ≡ true
  pub commit : s.commit_sha ≡ t.commit_sha
  pub worker : s.completed_by ≡ t.completed_by

-- The lease of a slot is raised, or it is not granted anew.
pub record HasLease (s t : Slot) : Type 0 where
  pub same : s.lease_generation ≡ t.lease_generation
  pub holder : is_claimed t.status ≡ true → (is_claimed s.status ≡ true) × (s.task_id ≡ t.task_id)

-- One slot, before and after.
pub record Follows (s t : Slot) : Type 0 where
  pub number : s.number ≡ t.number
  pub lease : (s.lease_generation < t.lease_generation) ⊎ HasLease s t
  pub result : is_done s.status ≡ true → StaysDone s t

pub Follows-refl : (s : Slot) → Follows s s
Follows-refl s = record {
  number = refl;
  lease = inr (record { same = refl; holder = λ h. (h, refl) });
  result = λ h. record { status = h; commit = refl; worker = refl };
}

HasLease-trans : (s t u : Slot) → HasLease s t → HasLease t u → HasLease s u
HasLease-trans s t u h k = record {
  same = h.same ∙ k.same;
  holder = λ c. ((h.holder (k.holder c).0).0, (h.holder (k.holder c).0).1 ∙ (k.holder c).1);
}

pub Follows-trans : (s t u : Slot) → Follows s t → Follows t u → Follows s u
Follows-trans s t u h k = record {
  number = h.number ∙ k.number;
  lease = elim h.lease [
    | inl lt ↦ inl (elim k.lease [ inl more ↦ omega arith | inr same ↦ rw (sym same.same) lt ])
    | inr same ↦ elim k.lease [
      | inl more ↦ inl (rw same.same more)
      | inr again ↦ inr (HasLease-trans s t u same again)
    ]
  ];
  result = λ done.
      let first = h.result done in
      let second = k.result first.status in
      record {
        status = second.status;
        commit = first.commit ∙ second.commit;
        worker = first.worker ∙ second.worker;
      };
}

-- No slot is lost, and new ones stand at the end.
unfoldable pub Extends : List Slot → List Slot → Type 0
Extends [] ys = Unit {0}
Extends (x ∷ xs) [] = ⊥
Extends (x ∷ xs) (y ∷ ys) = Follows x y × Extends xs ys

-- The slots are numbered n, n + 1, …
unfoldable pub IsNumbered : ℕ → List Slot → Type 0
IsNumbered n [] = Unit {0}
IsNumbered n (s ∷ rest) = (s.number ≡ n) × IsNumbered (suc n) rest

-- A run that is closed has nothing left to do.
unfoldable pub IsSettled : Run → Type 0
IsSettled r =
    is_opened r.state ≡ false
    → (all (λ (s : Slot). is_done s.status) r.slots ≡ true)
      × (count (λ (o : Offer). is_unsettled o) r.delegations ≡ 0)

pub record Moves (r t : Run) : Type 0 where
  pub numbered : IsNumbered 1 t.slots
  pub slots : Extends r.slots t.slots
  pub settled : IsSettled r → IsSettled t

pub Extends-refl : (xs : List Slot) → Extends xs xs
unfolding Extends
Extends-refl [] = tt
Extends-refl (x ∷ xs) = (Follows-refl x, Extends-refl xs)

pub Extends-trans : (xs ys zs : List Slot) → Extends xs ys → Extends ys zs → Extends xs zs
unfolding Extends
Extends-trans [] ys zs h k = tt
Extends-trans (x ∷ xs) [] zs h k = absurd h
Extends-trans (x ∷ xs) (y ∷ ys) [] h k = absurd k
Extends-trans (x ∷ xs) (y ∷ ys) (z ∷ zs) h k =
    (Follows-trans x y z h.0 k.0, Extends-trans xs ys zs h.1 k.1)

pub Moves-refl : (r : Run) → IsNumbered 1 r.slots → Moves r r
Moves-refl r n = record { numbered = n; slots = Extends-refl r.slots; settled = λ h. h }

pub Moves-trans : (r t u : Run) → Moves r t → Moves t u → Moves r u
Moves-trans r t u h k = record {
  numbered = k.numbered;
  slots = Extends-trans r.slots t.slots u.slots h.slots k.slots;
  settled = λ s. k.settled (h.settled s);
}
