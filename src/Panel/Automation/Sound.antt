-- ===== src/Panel/Automation/Sound.antt =====
-- The invariant of the job table, and what an UPDATE keeps of it.
use ladder_airport.Base.{
  if◌then◌else◌, Bool-cases, any, All, ok, String, ◌≡◌, refl, inl, inr, Bool, true, not, ◌&&◌, ◌||◌,
  List, [], ◌∷◌, arith, str_eq,
}
use ladder_airport.Panel.Automation.Table.{
  Job, is_active, is_running, same_target, active_for, unique_active, has_id, update_rows, update,
}

unfoldable pub unique_ids : List Job → Bool
unique_ids [] = true
unique_ids (r ∷ rs) = not (any (has_id r.id) rs) && unique_ids rs

-- Only a running job is leased.
abbrev pub lease_ok : Job → Bool
lease_ok r = str_eq r.lease_owner "" || is_running r.state

pub record IsSound (rows : List Job) : Type 0 where
  pub ids : unique_ids rows ≡ true
  pub active : unique_active rows ≡ true
  pub leases : All (λ r. lease_ok r ≡ true) rows

-- `a` is `b` after an update that does not make it active.
pub record Shrunk (a b : Job) : Type 0 where
  pub active : is_active a.state ≡ true → is_active b.state ≡ true
  pub id : a.id ≡ b.id
  pub type : a.type ≡ b.type
  pub target_type : a.target_type ≡ b.target_type
  pub target_id : a.target_id ≡ b.target_id

module _ (p : Job → Bool) (f : Job → Job) where
  abbrev pub Shrinks : Job → Type 0
  Shrinks r = p r ≡ true → Shrunk (f r) r

  active_for-Shrunk :
      (j r : Job) → Shrunk (f r) r → active_for j (f r) ≡ true → active_for j r ≡ true
  unfolding active_for same_target
  active_for-Shrunk j r s h = ground arith

  pub any-active_for-update :
      (j : Job) (rows : List Job)
      → All Shrinks rows
      → any (active_for j) (update_rows p f rows) ≡ true
      → any (active_for j) rows ≡ true
  unfolding update_rows
  any-active_for-update j [] _ h = h
  any-active_for-update j (r ∷ rs) (s, ss) h =
      ground (arith, any-active_for-update j rs ss, active_for-Shrunk j r)

  -- The target of the updated row is that of the row.
  active_for-eq : (r x : Job) → Shrunk (f r) r → active_for (f r) x ≡ active_for r x
  unfolding active_for same_target
  active_for-eq r x s = ground arith

  any-active_for-eq :
      (r : Job) (rows : List Job)
      → Shrunk (f r) r
      → any (active_for (f r)) rows ≡ any (active_for r) rows
  any-active_for-eq r [] s = refl
  any-active_for-eq r (x ∷ xs) s = ground (arith, active_for-eq r x s, any-active_for-eq r xs s)

  unique_active-update_rows :
      (rows : List Job)
      → All Shrinks rows
      → unique_active rows ≡ true
      → unique_active (update_rows p f rows) ≡ true
  unfolding unique_active update_rows
  unique_active-update_rows [] _ h = h
  unique_active-update_rows (r ∷ rs) (s, ss) h = elim (Bool-cases (p r)) [
    | inl hit ↦ ground (
      arith,
      hit,
      unique_active-update_rows rs ss,
      any-active_for-update (f r) rs ss,
      (s hit).active,
      any-active_for-eq r rs (s hit),
    )
    | inr miss ↦
        ground (arith, miss, unique_active-update_rows rs ss, any-active_for-update r rs ss)
  ]

  has_id-updated :
      (i : String) (r : Job) → Shrinks r → has_id i (if p r then f r else r) ≡ has_id i r
  unfolding has_id
  has_id-updated i r s = ground arith

  pub any-has_id-update_rows :
      (i : String) (rows : List Job)
      → All Shrinks rows
      → any (has_id i) (update_rows p f rows) ≡ any (has_id i) rows
  unfolding update_rows
  any-has_id-update_rows i [] _ = refl
  any-has_id-update_rows i (r ∷ rs) (s, ss) =
      ground (arith, has_id-updated i r s, any-has_id-update_rows i rs ss)

  unique_ids-update_rows :
      (rows : List Job)
      → All Shrinks rows
      → unique_ids rows ≡ true
      → unique_ids (update_rows p f rows) ≡ true
  unfolding unique_ids update_rows
  unique_ids-update_rows [] _ h = h
  unique_ids-update_rows (r ∷ rs) (s, ss) h = ground (
    arith,
    unique_ids-update_rows rs ss,
    any-has_id-update_rows r.id rs ss,
    any-has_id-update_rows (f r).id rs ss,
    s,
  )

  abbrev pub KeepsLease : Job → Type 0
  KeepsLease r = p r ≡ true → lease_ok (f r) ≡ true

  leases-update_rows :
      (rows : List Job)
      → All KeepsLease rows
      → All (λ r. lease_ok r ≡ true) rows
      → All (λ r. lease_ok r ≡ true) (update_rows p f rows)
  unfolding update_rows
  leases-update_rows [] _ _ = tt
  leases-update_rows (r ∷ rs) (k, ks) (h, hs) = (ground arith, leases-update_rows rs ks hs)

  -- An update that activates nothing and leases only running rows is never refused by an index.
  pub update-IsSound :
      (rows : List Job)
      → IsSound rows
      → All Shrinks rows
      → All KeepsLease rows
      → (update p f rows ≡ ok (update_rows p f rows, any p rows)) × IsSound (update_rows p f rows)
  unfolding update
  update-IsSound rows h ss ks =
      let unique = unique_active-update_rows rows ss h.active in
      (
        rw unique,
        record {
          ids = unique_ids-update_rows rows ss h.ids;
          active = unique;
          leases = leases-update_rows rows ks h.leases;
        },
      )
