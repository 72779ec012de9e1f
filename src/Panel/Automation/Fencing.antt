-- ===== src/Panel/Automation/Fencing.antt =====
-- ClaimAutomationJobs as a whole: it is total on a sound table, bounded, and fences off the worker
-- that held a job before.
use ladder_airport.Base.{
  Bool-cases, length, take, any, filter, All, IsIn, All-IsIn, length-take, >>=-eq-ok, ok, err, ℕ,
  suc, ◌≤◌, String, ◌≡◌, refl, subst, ◌≢◌, inl, inr, Bool, true, false, ◌&&◌, List, [], ◌∷◌, arith,
  str_eq_iff,
}
use ladder_airport.Panel.Automation.Table.{JobState, Job, unix, has_id, update}
use ladder_airport.Panel.Automation.Sound.{unique_ids, IsSound}
use ladder_airport.Panel.Automation.Leases.{finish_iff}
use ladder_airport.Panel.Automation.Claims.{Claims, claim_each-Claims}
use ladder_airport.Panel.Automation.{
  claimable, due, sort_due, lease_to, claimed, keep_claimed, claim_each, claim_lease, claim_limit,
  claim, is_terminal, held_by, lease_lost, finish,
}

length-keep_claimed :
    (b : Bool) (j : Job) (rest : List Job × List Job)
    → length (keep_claimed b j rest).0 ≤ suc (length rest.0)
unfolding keep_claimed
length-keep_claimed true j (jobs, rows) = omega arith
length-keep_claimed false j (jobs, rows) = omega arith

length-claim_each :
    (owner : String) (now lease : ℕ) (cs rows : List Job) (r : List Job × List Job)
    → claim_each owner now lease cs rows ≡ ok r
    → length r.0 ≤ length cs
unfolding claim_each
length-claim_each owner now lease [] rows r h = ground arith
length-claim_each owner now lease (c ∷ cs) rows r h =
    let (changed, _, more) =
      >>=-eq-ok
        (update (λ x. has_id c.id x && claimable (unix now) x) (lease_to owner now lease) rows) _
        h in
    let (rest, ran, last) = >>=-eq-ok (claim_each owner now lease cs changed.0) _ more in
    let ih = length-claim_each owner now lease cs changed.0 rest ran in
    ground (arith, last, ih, length-keep_claimed changed.1 (claimed owner now lease c) rest)

-- On a sound table a worker with a name always claims: at most the limit of jobs, 100 at most in any
-- case. The resulting table is sound, every job returned has a row that is leased to the worker, and
-- every row that was running under an unexpired lease is still there, unchanged.
pub claim-Claims :
    (owner : String) (now lease limit : ℕ) (rows : List Job)
    → owner ≢ ""
    → IsSound rows
    → (r : List Job × List Job) × (claim owner now lease limit rows ≡ ok r)
      × Claims owner now (claim_lease lease) rows r
      × (length r.0 ≤ claim_limit limit)
      × (claim_limit limit ≤ 100)
unfolding claim
claim-Claims owner now lease limit rows nonempty s =
    let picked = take (claim_limit limit) (sort_due (filter (due (unix now)) rows)) in
    let (r, ran, k) = claim_each-Claims owner now (claim_lease lease) picked rows s in
    let few = length-claim_each owner now (claim_lease lease) picked rows r ran in
    (
      r,
      ground (arith, str_eq_iff owner "", ran),
      k,
      omega (arith, few, length-take (claim_limit limit) (sort_due (filter (due (unix now)) rows))),
      ground arith,
    )

none_held :
    (id owner : String) (rows : List Job)
    → any (has_id id) rows ≡ false
    → any (held_by id owner) rows ≡ false
unfolding held_by
none_held id owner [] h = refl
none_held id owner (r ∷ rs) h = ground (arith, none_held id owner rs)

held_by_two :
    (id one two : String) (rows : List Job)
    → unique_ids rows ≡ true
    → one ≢ two
    → any (held_by id two) rows ≡ true
    → any (held_by id one) rows ≡ false
unfolding unique_ids held_by
held_by_two id one two [] u ne h = refl
held_by_two id one two (r ∷ rs) u ne h = elim (Bool-cases (has_id id r)) [
  | inl mine ↦
      let same : r.id ≡ id = (str_eq_iff r.id id).0 (unfold has_id in mine) in
      let alone : any (has_id id) rs ≡ false =
        subst (λ i. any (has_id i) rs ≡ false) same (ground arith) in
      ground (
        arith,
        mine,
        none_held id one rs alone,
        none_held id two rs alone,
        str_eq_iff r.lease_owner one,
        str_eq_iff r.lease_owner two,
      )
  | inr elsewhere ↦ ground (arith, elsewhere, held_by_two id one two rs)
]

-- After a worker's claim returned a job, no other worker can finish it: the previous owner's result
-- is refused.
pub claim_fences :
    (one two : String) (now lease limit later : ℕ) (rows : List Job) (r : List Job × List Job)
    (j : Job) (state : JobState) (message : String) (next : ℕ)
    → IsSound rows
    → one ≢ ""
    → two ≢ ""
    → one ≢ two
    → is_terminal state ≡ true
    → claim two now lease limit rows ≡ ok r
    → IsIn j r.0
    → finish later j.id one state message next r.1 ≡ err (lease_lost j.id)
claim_fences one two now lease limit later rows r j state message next s ne1 ne2 ne terminal done
      stands =
    let (got, ran, k, _, _) = claim-Claims two now lease limit rows ne2 s in
    let same : got ≡ r = cc in
    let sound : IsSound r.1 = subst (λ x. IsSound x.1) same k.sound in
    let leased =
      subst (λ (x : List Job × List Job). All (λ i. any (held_by i.id two) x.1 ≡ true) x.0) same
        k.leased in
    let mine = All-IsIn (λ i. any (held_by i.id two) r.1 ≡ true) r.0 leased stands in
    (finish_iff later j.id one state message next r.1 sound ne1 terminal).1
      (held_by_two j.id one two r.1 sound.ids ne mine)
