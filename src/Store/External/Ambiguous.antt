-- ===== src/Store/External/Ambiguous.antt =====
-- Ambiguous identities in the ledger of external actions (scripts/codex_loop_runtime/state.py).
use codex_loop.Base.{
  ◌≤◌, String, ◌≡◌, refl, Option, none, some, List, [], ◌∷◌, count, count_mono, arith,
}
use codex_loop.Store.{Store, Action}
use codex_loop.Store.External.{owns}
use codex_loop.Store.External.Transact.{
  same_owner, repeated_groups, ambiguous_non_idempotent_identity_count,
}
use codex_loop.Store.External.Ledger.{IsLedger}

same_owner-le :
    (a : Action) (o : Option String) (all : List Action)
    → a.identity ≡ o
    → ((kind identity : String) → count (owns kind identity) all ≤ 1)
    → count (same_owner a) all ≤ 1
same_owner-le a none all e u =
    omega (arith, count_mono (same_owner a) (owns "" "") all (λ b h. ground arith), u "" "")
same_owner-le a (some i) all e u =
    omega (arith, count_mono (same_owner a) (owns a.kind i) all (λ b h. ground arith), u a.kind i)

no_repeats :
    (all rows : List Action)
    → ((kind identity : String) → count (owns kind identity) all ≤ 1)
    → repeated_groups all rows ≡ 0
unfolding repeated_groups
no_repeats all [] u = refl
no_repeats all (a ∷ rest) u =
    ground (arith, same_owner-le a a.identity all refl u, no_repeats all rest u)

-- On a ledger no non-idempotent identity is ambiguous, so `assess` never sees that blocker.
pub ambiguous-IsLedger :
    (s : Store) → IsLedger s.external_actions → ambiguous_non_idempotent_identity_count s ≡ 0
unfolding ambiguous_non_idempotent_identity_count
ambiguous-IsLedger s l = no_repeats s.external_actions s.external_actions l.unique_owners
