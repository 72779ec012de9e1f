-- ===== src/Panel/Automation/Enqueue.antt =====
-- What `find_active` and an insert do to a sound table: the lemmas behind EnqueueAutomationJob and
-- ForceEnqueueAutomationJob.
use ladder_airport.Base.{
  ltb, Bool-cases, Option-cases, any, filter, All-append, IsIn, here, there, ok, ℕ, String, ◌≡◌,
  refl, ◌≢◌, inl, inr, Bool, true, false, ◌&&◌, ◌||◌, none, some, List, [], ◌∷◌, ◌++◌, arith,
  str_eq_iff,
}
use ladder_airport.Panel.Automation.Table.{
  Job, is_active, same_target, active_for, unique_active, has_id,
}
use ladder_airport.Panel.Automation.Sound.{unique_ids, lease_ok, IsSound}
use ladder_airport.Panel.Automation.{newest, find_active, stamp, insert_job}

active_for_symm :
    (r x : Job) → is_active r.state ≡ true → active_for r x ≡ true → active_for x r ≡ true
unfolding active_for same_target
active_for_symm r x a h = ground (
  arith,
  str_eq_iff x.type r.type,
  str_eq_iff r.type x.type,
  str_eq_iff x.target_type r.target_type,
  str_eq_iff r.target_type x.target_type,
  str_eq_iff x.target_id r.target_id,
  str_eq_iff r.target_id x.target_id,
)

-- Rows for one target see the same active rows.
active_for_trans : (job r x : Job) → active_for job r ≡ true → active_for r x ≡ active_for job x
unfolding active_for same_target
active_for_trans job r x h = ground (
  arith,
  str_eq_iff r.type job.type,
  str_eq_iff r.target_type job.target_type,
  str_eq_iff r.target_id job.target_id,
)

pub any-active_for_trans :
    (job r : Job) (rows : List Job)
    → active_for job r ≡ true
    → any (active_for r) rows ≡ any (active_for job) rows
any-active_for_trans job r [] h = refl
any-active_for_trans job r (x ∷ xs) h =
    ground (arith, active_for_trans job r x h, any-active_for_trans job r xs h)

pub any-append :
    (q : Job → Bool) (rows : List Job) (row : Job)
    → any q (rows ++ row ∷ []) ≡ (any q rows || q row)
any-append q [] row = ground arith
any-append q (r ∷ rs) row = ground (arith, any-append q rs row)

pub is_active_of : (job r : Job) → active_for job r ≡ true → is_active r.state ≡ true
unfolding active_for
is_active_of job r h = ground arith

unique_active-append :
    (rows : List Job) (row : Job)
    → unique_active rows ≡ true
    → (is_active row.state && any (active_for row) rows) ≡ false
    → unique_active (rows ++ row ∷ []) ≡ true
unfolding unique_active
unique_active-append [] row u h = ground arith
unique_active-append (r ∷ rs) row u h = ground (
  arith,
  unique_active-append rs row,
  any-append (active_for r) rs row,
  active_for_symm r row,
  is_active_of r row,
)

unique_ids-append :
    (rows : List Job) (row : Job)
    → unique_ids rows ≡ true
    → any (has_id row.id) rows ≡ false
    → unique_ids (rows ++ row ∷ []) ≡ true
unfolding unique_ids has_id
unique_ids-append [] row u h = refl
unique_ids-append (r ∷ rs) row u h = ground (
  arith,
  unique_ids-append rs row,
  any-append (has_id r.id) rs row,
  str_eq_iff r.id row.id,
  str_eq_iff row.id r.id,
)

-- An insert that no index refuses.
pub insert_job-IsSound :
    (now : ℕ) (fresh : String) (job : Job) (rows : List Job)
    → IsSound rows
    → any (has_id (stamp now fresh job).id) rows ≡ false
    → any (active_for (stamp now fresh job)) rows ≡ false
    → lease_ok (stamp now fresh job) ≡ true
    → (insert_job now fresh job rows ≡ ok (stamp now fresh job, rows ++ stamp now fresh job ∷ []))
      × IsSound (rows ++ stamp now fresh job ∷ [])
unfolding insert_job
insert_job-IsSound now fresh job rows s new free leased = (
  ground (arith, new, free),
  record {
    ids = unique_ids-append rows (stamp now fresh job) s.ids new;
    active = unique_active-append rows (stamp now fresh job) s.active (ground (arith, free));
    leases = All-append (λ r. lease_ok r ≡ true) rows _ s.leases (leased, tt);
  },
)

-- What `find_active` finds is an active row for the target; it finds one if there is one.
newest-IsIn : (rows : List Job) (e : Job) → newest rows ≡ some e → IsIn e rows
unfolding newest
newest-IsIn [] e h = cc
newest-IsIn (j ∷ js) e h = elim (Option-cases (newest js)) [
  | inl empty ↦ here (ground (arith, empty))
  | inr (k, found) ↦ elim (Bool-cases (ltb j.created_at_unix k.created_at_unix)) [
    | inl later ↦ there (newest-IsIn js e (ground (arith, found, later)))
    | inr not_later ↦ here (ground (arith, found, not_later))
  ]
]

newest-some : (j : Job) (js : List Job) → newest (j ∷ js) ≢ none
unfolding newest
newest-some j js h = ground arith

module _ (q : Job → Bool) where
  IsIn-filter_hit :
      (rows : List Job) (r e : Job)
      → q r ≡ true
      → IsIn e (r ∷ filter q rows)
      → (IsIn e (filter q rows) → IsIn e rows × (q e ≡ true))
      → IsIn e (r ∷ rows) × (q e ≡ true)
  IsIn-filter_hit rows r e hit (here same) deeper = (here same, rw same hit)
  IsIn-filter_hit rows r e hit (there i) deeper = (there (deeper i).0, (deeper i).1)

  IsIn-filter : (rows : List Job) (e : Job) → IsIn e (filter q rows) → IsIn e rows × (q e ≡ true)
  IsIn-filter [] e i = elim i [ ]
  IsIn-filter (r ∷ rs) e i = elim (Bool-cases (q r)) [
    | inl hit ↦ IsIn-filter_hit rs r e hit (rw hit at i) (IsIn-filter rs e)
    | inr miss ↦ let found = IsIn-filter rs e (rw miss at i) in (there found.0, found.1)
  ]

pub find_active-some :
    (job : Job) (rows : List Job) (e : Job)
    → find_active job rows ≡ some e
    → IsIn e rows × (active_for job e ≡ true)
unfolding find_active
find_active-some job rows e h =
    IsIn-filter (active_for job) rows e (newest-IsIn (filter (active_for job) rows) e h)

pub find_active-none :
    (job : Job) (rows : List Job) → find_active job rows ≡ none → any (active_for job) rows ≡ false
unfolding find_active
find_active-none job [] h = refl
find_active-none job (r ∷ rs) h =
    ground (arith, find_active-none job rs, newest-some r (filter (active_for job) rs))
