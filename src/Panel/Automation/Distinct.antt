-- ===== src/Panel/Automation/Distinct.antt =====
-- The jobs that a claim returns have different ids.
use ladder_airport.Base.{
  take, any, filter, >>=-eq-ok, ok, ℕ, zero, suc, String, ◌≡◌, refl, Bool, true, false, ◌&&◌, ◌||◌,
  List, [], ◌∷◌, arith, str_eq_iff,
}
use ladder_airport.Panel.Automation.Table.{Job, unix, has_id, update}
use ladder_airport.Panel.Automation.Sound.{unique_ids}
use ladder_airport.Panel.Automation.{
  claimable, due, insert_sorted, sort_due, lease_to, claimed, keep_claimed, claim_each, claim_lease,
  claim_limit, claim,
}

-- Whether a job is among those of a list, and how a function of lists treats that.
absent-filter :
    (p : Job → Bool) (id : String) (rows : List Job)
    → any (has_id id) rows ≡ false
    → any (has_id id) (filter p rows) ≡ false
absent-filter p id [] h = h
absent-filter p id (r ∷ rs) h = ground (arith, h, absent-filter p id rs)

unique-filter :
    (p : Job → Bool) (rows : List Job) → unique_ids rows ≡ true → unique_ids (filter p rows) ≡ true
unfolding unique_ids
unique-filter p [] h = h
unique-filter p (r ∷ rs) h = ground (arith, h, unique-filter p rs, absent-filter p r.id rs)

absent-take :
    (n : ℕ) (id : String) (rows : List Job)
    → any (has_id id) rows ≡ false
    → any (has_id id) (take n rows) ≡ false
absent-take zero id rows h = refl
absent-take (suc n) id [] h = h
absent-take (suc n) id (r ∷ rs) h = ground (arith, h, absent-take n id rs)

unique-take : (n : ℕ) (rows : List Job) → unique_ids rows ≡ true → unique_ids (take n rows) ≡ true
unfolding unique_ids
unique-take zero rows h = refl
unique-take (suc n) [] h = h
unique-take (suc n) (r ∷ rs) h = ground (arith, h, unique-take n rs, absent-take n r.id rs)

among-insert_sorted :
    (id : String) (j : Job) (rows : List Job)
    → any (has_id id) (insert_sorted j rows) ≡ (has_id id j || any (has_id id) rows)
unfolding insert_sorted
among-insert_sorted id j [] = refl
among-insert_sorted id j (r ∷ rs) = ground (arith, among-insert_sorted id j rs)

unique-insert_sorted :
    (j : Job) (rows : List Job)
    → any (has_id j.id) rows ≡ false
    → unique_ids rows ≡ true
    → unique_ids (insert_sorted j rows) ≡ true
unfolding unique_ids insert_sorted has_id
unique-insert_sorted j [] fresh h = refl
unique-insert_sorted j (r ∷ rs) fresh h = ground (
  arith,
  fresh,
  h,
  unique-insert_sorted j rs,
  among-insert_sorted r.id j rs,
  str_eq_iff j.id r.id,
  str_eq_iff r.id j.id,
)

among-sort_due :
    (id : String) (rows : List Job) → any (has_id id) (sort_due rows) ≡ any (has_id id) rows
unfolding sort_due
among-sort_due id [] = refl
among-sort_due id (r ∷ rs) =
    ground (arith, among-sort_due id rs, among-insert_sorted id r (sort_due rs))

unique-sort_due : (rows : List Job) → unique_ids rows ≡ true → unique_ids (sort_due rows) ≡ true
unfolding unique_ids sort_due
unique-sort_due [] h = h
unique-sort_due (r ∷ rs) h =
    unique-insert_sorted r (sort_due rs) (ground (arith, h, among-sort_due r.id rs))
      (unique-sort_due rs (ground (arith, h)))

module _ (owner : String) (now lease : ℕ) where
  absent-keep_claimed :
      (id : String) (b : Bool) (c : Job) (rest : List Job × List Job)
      → has_id id c ≡ false
      → any (has_id id) rest.0 ≡ false
      → any (has_id id) (keep_claimed b (claimed owner now lease c) rest).0 ≡ false
  unfolding keep_claimed claimed has_id
  absent-keep_claimed id b c (jobs, rows) ne h = ground (arith, ne, h)

  unique-keep_claimed :
      (b : Bool) (c : Job) (rest : List Job × List Job)
      → any (has_id c.id) rest.0 ≡ false
      → unique_ids rest.0 ≡ true
      → unique_ids (keep_claimed b (claimed owner now lease c) rest).0 ≡ true
  unfolding keep_claimed claimed unique_ids
  unique-keep_claimed b c (jobs, rows) fresh h = ground (arith, fresh, h)

  absent-claim_each :
      (id : String) (cs rows : List Job) (r : List Job × List Job)
      → any (has_id id) cs ≡ false
      → claim_each owner now lease cs rows ≡ ok r
      → any (has_id id) r.0 ≡ false
  unfolding claim_each
  absent-claim_each id [] rows r fresh h = ground (arith, h)
  absent-claim_each id (c ∷ cs) rows r fresh h =
      let (changed, _, more) =
        >>=-eq-ok
          (update (λ x. has_id c.id x && claimable (unix now) x) (lease_to owner now lease) rows) _
          h in
      let (rest, ran, last) = >>=-eq-ok (claim_each owner now lease cs changed.0) _ more in
      let ih = absent-claim_each id cs changed.0 rest (ground (arith, fresh)) ran in
      ground (arith, last, absent-keep_claimed id changed.1 c rest (ground (arith, fresh)) ih)

  unique-claim_each :
      (cs rows : List Job) (r : List Job × List Job)
      → unique_ids cs ≡ true
      → claim_each owner now lease cs rows ≡ ok r
      → unique_ids r.0 ≡ true
  unfolding claim_each unique_ids
  unique-claim_each [] rows r once h = ground (arith, h)
  unique-claim_each (c ∷ cs) rows r once h =
      let (changed, _, more) =
        >>=-eq-ok
          (update (λ x. has_id c.id x && claimable (unix now) x) (lease_to owner now lease) rows) _
          h in
      let (rest, ran, last) = >>=-eq-ok (claim_each owner now lease cs changed.0) _ more in
      let ih = unique-claim_each cs changed.0 rest (ground (arith, once)) ran in
      let fresh = absent-claim_each c.id cs changed.0 rest (ground (arith, once)) ran in
      ground (arith, last, unique-keep_claimed changed.1 c rest fresh ih)

pub claim_distinct :
    (owner : String) (now lease limit : ℕ) (rows : List Job) (r : List Job × List Job)
    → unique_ids rows ≡ true
    → claim owner now lease limit rows ≡ ok r
    → unique_ids r.0 ≡ true
claim_distinct owner now lease limit rows r once h =
    let picked = take (claim_limit limit) (sort_due (filter (due (unix now)) rows)) in
    let ran : claim_each owner now (claim_lease lease) picked rows ≡ ok r =
      unfold claim in (ground (arith, h)) in
    unique-claim_each owner now (claim_lease lease) picked rows r
      (unique-take (claim_limit limit) _
        (unique-sort_due _ (unique-filter (due (unix now)) rows once)))
      ran
