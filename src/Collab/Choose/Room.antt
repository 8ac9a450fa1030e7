-- ===== src/Collab/Choose/Room.antt =====
-- scripts/codex_loop_runtime/local_collaboration.py: which slots wait for a worker, and which of their
-- resources have room.
use codex_loop.Base.{
  ℕ, ◌≤◌, ◌<◌, ◌+◌, ◌≡◌, ◌↔◌, refl, inl, inr, String, Bool, true, false, ◌&&◌, ◌||◌, not, Option,
  none, some, List, [], ◌∷◌, map, all, All, member, str_eq, ltb, Bool-cases, both_true, arith,
}
use codex_loop.Collab.{Run, Slot, Cap}
use codex_loop.Collab.Checks.{is_subset}
use codex_loop.Collab.Rows.{is_available, is_claimed, is_text, done_keys}
use codex_loop.Collab.Leases.{is_live_lease, lease_seconds}
use codex_loop.Collab.Pools.{Usage, resource_usage, sum_over, claimed_in}
use codex_loop.Collab.Choose.{is_stale, live_in, is_blocked, load_of, is_within_caps}

-- The slot is free and what it depends on is done.
pub record IsReady (r : Run) (s : Slot) : Type 0 where
  pub free : is_available s.status ≡ true
  pub fed : is_subset s.depends_on (done_keys r.slots) ≡ true

-- Another worker has the slot and has given no sign of life for longer than the lease.
pub record IsLapsed (now : ℕ) (task : String) (s : Slot) : Type 0 where
  pub taken : is_claimed s.status ≡ true
  pub silent : (seen : ℕ) × (s.last_seen ≡ some seen) × (seen + lease_seconds < now)
  pub foreign : is_text s.task_id task ≡ false

pub IsReady-iff :
    (r : Run) (s : Slot)
    → ((is_available s.status && is_subset s.depends_on (done_keys r.slots)) ≡ true) ↔ IsReady r s
IsReady-iff r s = (
  λ h. let both = both_true (is_available s.status) _ h in record { free = both.0; fed = both.1 },
  λ w. rw (w.free, w.fed) refl,
)

lapsed :
    (now : ℕ) (seen : Option ℕ)
    → is_live_lease now seen ≡ false
    → (n : ℕ) × (seen ≡ some n) × (n + lease_seconds < now)
lapsed now none h = cc
lapsed now (some n) h = (n, refl, ground arith)

not_live : (now n : ℕ) → n + lease_seconds < now → is_live_lease now (some n) ≡ false
not_live now n h = ground arith

pub stale_iff :
    (now : ℕ) (task : String) (s : Slot) → (is_stale now task s ≡ true) ↔ IsLapsed now task s
stale_iff now task s = (
  λ h.
      let a = both_true _ (not (is_text s.task_id task)) h in
      let b = both_true (is_claimed s.status) _ a.0 in
      record {
        taken = b.0;
        silent = lapsed now s.last_seen (not_true _ b.1);
        foreign = not_true _ a.1;
      },
  λ l. rw (l.taken, l.silent.1, not_live now l.silent.0 l.silent.2, l.foreign) refl,
)
  where
    not_true : (b : Bool) → not b ≡ true → b ≡ false
    not_true true h = cc
    not_true false h = refl

-- A resource on which the slot draws has room: its cooldown is over, and fewer slots of its pools than its
-- maximum are claimed, or alive where the slot is only taken over.
pub record HasRoom (now : ℕ) (r : Run) (s : Slot) (c : Cap) : Type 0 where
  pub cooled :
      All (λ (b : String × ℕ). str_eq b.0 c.resource_key ≡ true → b.1 ≤ now) r.resource_blocks
  pub fresh :
      is_available s.status ≡ true → sum_over (λ p. claimed_in r.slots p) c.pools < c.max_claimed
  pub over :
      is_available s.status ≡ false → sum_over (λ p. live_in now r.slots p) c.pools < c.max_claimed

abbrev pub AllHaveRoom : ℕ → Run → Slot → Type 0
AllHaveRoom now r s =
    All (λ (c : Cap). member s.pool_id c.pools ≡ true → HasRoom now r s c) r.resource_caps

blocked_sound :
    (now : ℕ) (blocks : List (String × ℕ)) (key : String)
    → is_blocked now blocks key ≡ false
    → All (λ (b : String × ℕ). str_eq b.0 key ≡ true → b.1 ≤ now) blocks
blocked_sound now [] key h = tt
blocked_sound now (b ∷ blocks) key h = elim (Bool-cases (str_eq b.0 key && ltb now b.1)) [
  | inl hit ↦ absurd (cc (rw hit at h))
  | inr miss ↦ (λ e. over_now b.1 (rw e at miss), blocked_sound now blocks key (rw miss at h))
]
  where
    over_now : (n : ℕ) → ltb now n ≡ false → n ≤ now
    over_now n h = ground arith

blocked_complete :
    (now : ℕ) (blocks : List (String × ℕ)) (key : String)
    → All (λ (b : String × ℕ). str_eq b.0 key ≡ true → b.1 ≤ now) blocks
    → is_blocked now blocks key ≡ false
blocked_complete now [] key h = refl
blocked_complete now (b ∷ blocks) key h = elim (Bool-cases (str_eq b.0 key)) [
  | inl hit ↦ rw (hit, ended b.1 (h.0 hit)) (blocked_complete now blocks key h.1)
  | inr miss ↦ rw miss (blocked_complete now blocks key h.1)
]
  where
    ended : (n : ℕ) → n ≤ now → ltb now n ≡ false
    ended n h = ground arith

abbrev usage_of : Run → Cap → Usage
usage_of r c = record { cap = c; claimed = sum_over (λ p. claimed_in r.slots p) c.pools }

abbrev has_room : ℕ → Run → Slot → Usage → Bool
has_room now r s u =
    not (member s.pool_id u.cap.pools)
    || (not (is_blocked now r.resource_blocks u.cap.resource_key)
        && ltb (load_of now r s u) u.cap.max_claimed)

room_sound :
    (now : ℕ) (r : Run) (s : Slot) (c : Cap)
    → has_room now r s (usage_of r c) ≡ true
    → member s.pool_id c.pools ≡ true
    → HasRoom now r s c
room_sound now r s c h drawn =
    let both =
      both_true (not (is_blocked now r.resource_blocks c.resource_key)) _ (rw drawn at h) in
    record {
      cooled = blocked_sound now r.resource_blocks c.resource_key (not_true _ both.0);
      fresh = λ free. below _ c.max_claimed (rw free at both.1);
      over = λ taken. below _ c.max_claimed (rw taken at both.1);
    }
  where
    not_true : (b : Bool) → not b ≡ true → b ≡ false
    not_true true h = cc
    not_true false h = refl

    below : (m n : ℕ) → ltb m n ≡ true → m < n
    below m n h = ground arith

room_complete :
    (now : ℕ) (r : Run) (s : Slot) (c : Cap)
    → (member s.pool_id c.pools ≡ true → HasRoom now r s c)
    → has_room now r s (usage_of r c) ≡ true
room_complete now r s c h = elim (Bool-cases (member s.pool_id c.pools)) [
  | inr apart ↦ rw apart refl
  | inl drawn ↦
      let room = h drawn in
      let cooled = blocked_complete now r.resource_blocks c.resource_key room.cooled in
      elim (Bool-cases (is_available s.status)) [
        | inl free ↦ rw (drawn, cooled, free) (above _ c.max_claimed (room.fresh free))
        | inr taken ↦ rw (drawn, cooled, taken) (above _ c.max_claimed (room.over taken))
      ]
]
  where
    above : (m n : ℕ) → m < n → ltb m n ≡ true
    above m n h = ground arith

module _ (now : ℕ) (r : Run) (s : Slot) where
  caps_sound :
      (caps : List Cap)
      → all (λ u. has_room now r s u) (map (λ c. usage_of r c) caps) ≡ true
      → All (λ (c : Cap). member s.pool_id c.pools ≡ true → HasRoom now r s c) caps
  caps_sound [] h = tt
  caps_sound (c ∷ caps) h =
      let both = both_true (has_room now r s (usage_of r c)) _ h in
      (room_sound now r s c both.0, caps_sound caps both.1)

  caps_complete :
      (caps : List Cap)
      → All (λ (c : Cap). member s.pool_id c.pools ≡ true → HasRoom now r s c) caps
      → all (λ u. has_room now r s u) (map (λ c. usage_of r c) caps) ≡ true
  caps_complete [] h = refl
  caps_complete (c ∷ caps) h = rw (room_complete now r s c h.0) (caps_complete caps h.1)

  pub within_iff : (is_within_caps now r s ≡ true) ↔ AllHaveRoom now r s
  unfolding is_within_caps resource_usage
  within_iff = (caps_sound r.resource_caps, caps_complete r.resource_caps)
