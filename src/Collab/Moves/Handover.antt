-- ===== src/Collab/Moves/Handover.antt =====
-- scripts/codex_loop_runtime/local_collaboration.py: the worker who takes over a slot takes over
-- its obligations.
use codex_loop.Base.{
  ◌≡◌, refl, sym, ◌∙◌, inl, inr, String, true, false, either_branch, both_true, Option, none, some,
  List, [], ◌∷◌, map, count, Bool-cases, ok, ◌>>=◌, ◌&&◌, ◌||◌, Post, Post-ok, Post-reject,
  Post-bind,
}
use codex_loop.Collab.{Run, Offer, OfferStatus, Reclaim}
use codex_loop.Collab.Rows.{is_text, is_unsettled}
use codex_loop.Collab.Offers.{is_accepted, is_rejected}
use codex_loop.Collab.Claim.Adopt.{reopened, resent, passes_on, is_key_clash, adopt, recover}
use codex_loop.Collab.Moves.{Moves, Moves-refl, IsNumbered}
use codex_loop.Collab.Moves.Rules.{Moves-keep_count}

held_unsettled :
    (status : OfferStatus)
    → (is_accepted status || is_rejected status) ≡ true
    → (elim status [ OfferStatus.completed ↦ false | OfferStatus.cancelled ↦ false | _ ↦ true ])
      ≡ true
held_unsettled OfferStatus.accepted h = refl
held_unsettled OfferStatus.rejected h = refl
held_unsettled OfferStatus.offered h = refl
held_unsettled OfferStatus.completed h = h
held_unsettled OfferStatus.cancelled h = h

reopened-unsettled :
    (former : String) (o : Offer) → is_unsettled (reopened former o) ≡ is_unsettled o
reopened-unsettled former o =
    elim (Bool-cases
      (is_text o.recipient former && (is_accepted o.status || is_rejected o.status))) [
        | inl hit ↦ rw hit (
            sym (
              held_unsettled o.status
                (both_true (is_text o.recipient former)
                  (is_accepted o.status || is_rejected o.status) hit).1))
        | inr miss ↦ rw miss refl
      ]

-- Whoever takes over obligations settles none of them.
resent-unsettled :
    (former worker : String) (o : Offer)
    → is_unsettled (reopened former (resent former worker o)) ≡ is_unsettled o
resent-unsettled former worker o =
    reopened-unsettled former (resent former worker o)
    ∙ either_branch (λ (p : Offer). is_unsettled p ≡ is_unsettled o) (passes_on former o) _ o refl
        refl

offers-unsettled :
    (former worker : String) (offers : List Offer)
    → count
        (λ (o : Offer). is_unsettled o)
        (map (λ o. reopened former (resent former worker o)) offers)
      ≡ count (λ (o : Offer). is_unsettled o) offers
offers-unsettled former worker [] = refl
offers-unsettled former worker (o ∷ offers) =
    rw (resent-unsettled former worker o, offers-unsettled former worker offers) refl

adopt-Moves :
    (worker : String) (c : Reclaim) (r : Run)
    → IsNumbered 1 r.slots
    → Post (λ (t : Run). Moves r t) (adopt worker c r)
unfolding adopt
adopt-Moves worker c r n = Post-reject (is_key_clash c.old_task_id worker r.delegations) _ _ (λ h.
    Post-ok _
      (Moves-keep_count r _ n refl refl (offers-unsettled c.old_task_id worker r.delegations)))

pub recover-Moves :
    (worker : String) (c : Option Reclaim) (r : Run)
    → IsNumbered 1 r.slots
    → Post (λ (x : Run × Option Reclaim). Moves r x.0) (recover worker c r)
unfolding recover
recover-Moves worker none r n = Post-ok _ (Moves-refl r n)
recover-Moves worker (some c) r n = go c.adopted_by
  where
    go :
        (other : Option String)
        → Post
            (λ (x : Run × Option Reclaim). Moves r x.0)
            (elim other [
              | some other ↦ ok (r, some c)
              | none ↦ do
                r' ← adopt worker c r
                ok (r', some (record c { adopted_by = some worker }))
            ])
    go (some other) = Post-ok _ (Moves-refl r n)
    go none = Post-bind (adopt worker c r) _ (adopt-Moves worker c r n) (λ t moves. Post-ok _ moves)
