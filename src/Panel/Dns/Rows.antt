-- ===== src/Panel/Dns/Rows.antt =====
-- A property of every row of the table, through the operations of panel/internal/store/dns.go.
use ladder_airport.Base.{
  ltb, Bool-cases, Option-cases, all, All, ok, ℕ, String, ◌≡◌, sym, ap, ◌∙◌, subst, inl, inr, true,
  ◌||◌, none, some, List, [], ◌∷◌, arith, str_eq, str_eq_iff, str_eq_refl,
}
use ladder_airport.Panel.Dns.{
  ManagedDomain, DnsAccount, validate_managed_domain_zone, get_managed_domain, has_domain,
  write_domain, is_taken, update_managed_domain, delete_row, delete_managed_domain,
}

module _ {κ} (P : ManagedDomain → Type κ) where
  pub get-All :
      (id : String) (ds : List ManagedDomain) (d : ManagedDomain)
      → get_managed_domain id ds ≡ ok d
      → All P ds
      → P d
  unfolding get_managed_domain
  get-All id [] d found all = absurd (ground (arith, found))
  get-All id (x ∷ xs) d found (p, ps) = elim (Bool-cases (str_eq x.id id)) [
    | inl same ↦ let is : x ≡ d = ground (arith, found, same) in subst P is p
    | inr other ↦ get-All id xs d (ground (arith, found, other)) ps
  ]

  write_domain-All :
      (d : ManagedDomain) (ds : List ManagedDomain) → P d → All P ds → All P (write_domain d ds)
  unfolding write_domain
  write_domain-All d [] p all = tt
  write_domain-All d (x ∷ xs) p (q, qs) = elim (Bool-cases (str_eq x.id d.id)) [
    | inl same ↦ rw same (p, write_domain-All d xs p qs)
    | inr other ↦ rw other (q, write_domain-All d xs p qs)
  ]

  delete_row-All : (id : String) (ds : List ManagedDomain) → All P ds → All P (delete_row id ds)
  unfolding delete_row
  delete_row-All id [] all = tt
  delete_row-All id (x ∷ xs) (q, qs) = elim (Bool-cases (str_eq x.id id)) [
    | inl same ↦ rw same (delete_row-All id xs qs)
    | inr other ↦ rw other (q, delete_row-All id xs qs)
  ]

  pub update-All :
      (accounts : List DnsAccount) (now : ℕ) (d : ManagedDomain) (ds : List ManagedDomain)
      → P (record d { updated_at_unix = now })
      → All P ds
      → All P (update_managed_domain accounts now d ds).1
  update-All accounts now d ds p all =
      let wrote = write_domain-All (record d { updated_at_unix = now }) ds p all in
      elim (Bool-cases (str_eq d.id "")) [
        | inl e1 ↦ unfold update_managed_domain in (rw e1 all)
        | inr e1 ↦
            elim (Option-cases (validate_managed_domain_zone d.dns_account_id d.zone accounts)) [
              | inr (e, e2) ↦ unfold update_managed_domain in (rw (e1, e2) all)
              | inl e2 ↦ elim (Bool-cases (is_taken d ds)) [
                | inl e3 ↦ unfold update_managed_domain in (rw (e1, e2, e3) all)
                | inr e3 ↦ elim (Bool-cases (has_domain d.id ds)) [
                  | inl e4 ↦ unfold update_managed_domain in (rw (e1, e2, e3, e4) wrote)
                  | inr e4 ↦ unfold update_managed_domain in (rw (e1, e2, e3, e4) all)
                ]
              ]
            ]
      ]

  pub delete-All :
      (usage : ℕ × ℕ) (id : String) (ds : List ManagedDomain)
      → All P ds
      → All P (delete_managed_domain usage id ds).1
  delete-All usage id ds all = elim (Bool-cases (ltb 0 usage.0 || ltb 0 usage.1)) [
    | inl e1 ↦ unfold delete_managed_domain in (rw e1 all)
    | inr e1 ↦ elim (Bool-cases (has_domain id ds)) [
      | inl e2 ↦ unfold delete_managed_domain in (rw (e1, e2) (delete_row-All id ds all))
      | inr e2 ↦ unfold delete_managed_domain in (rw (e1, e2) all)
    ]
  ]

pub get-id :
    (id : String) (ds : List ManagedDomain) (d : ManagedDomain)
    → get_managed_domain id ds ≡ ok d
    → d.id ≡ id
unfolding get_managed_domain
get-id id [] d found = absurd (ground (arith, found))
get-id id (x ∷ xs) d found = elim (Bool-cases (str_eq x.id id)) [
  | inl same ↦
      let is : x ≡ d = ground (arith, found, same) in
      ap (λ y. y.id) (sym is) ∙ (str_eq_iff x.id id).0 same
  | inr other ↦ get-id id xs d (ground (arith, found, other))
]

get-write_domain :
    (d : ManagedDomain) (ds : List ManagedDomain)
    → has_domain d.id ds ≡ true
    → get_managed_domain d.id (write_domain d ds) ≡ ok d
unfolding get_managed_domain write_domain has_domain
get-write_domain d [] has = absurd (ground (arith, has))
get-write_domain d (x ∷ xs) has = elim (Bool-cases (str_eq x.id d.id)) [
  | inl same ↦ ground (arith, same, str_eq_refl d.id)
  | inr other ↦ ground (arith, other, has, get-write_domain d xs)
]

-- A row that is updated without an error is the row that is read.
pub get-update :
    (accounts : List DnsAccount) (now : ℕ) (d : ManagedDomain) (ds : List ManagedDomain)
    → (update_managed_domain accounts now d ds).0 ≡ none
    → get_managed_domain d.id (update_managed_domain accounts now d ds).1
      ≡ ok (record d { updated_at_unix = now })
get-update accounts now d ds fine = elim (Bool-cases (str_eq d.id "")) [
  | inl e1 ↦ absurd (unfold update_managed_domain in (ground (arith, fine, e1)))
  | inr e1 ↦ elim (Option-cases (validate_managed_domain_zone d.dns_account_id d.zone accounts)) [
    | inr (e, e2) ↦ absurd (unfold update_managed_domain in (ground (arith, fine, e1, e2)))
    | inl e2 ↦ elim (Bool-cases (is_taken d ds)) [
      | inl e3 ↦ absurd (unfold update_managed_domain in (ground (arith, fine, e1, e2, e3)))
      | inr e3 ↦ elim (Bool-cases (has_domain d.id ds)) [
        | inr e4 ↦ absurd (unfold update_managed_domain in (ground (arith, fine, e1, e2, e3, e4)))
        | inl e4 ↦
            unfold update_managed_domain in
            (ground
              (arith, e1, e2, e3, e4, get-write_domain (record d { updated_at_unix = now }) ds))
      ]
    ]
  ]
]

-- An update that fails changes no row.
pub update-failed :
    (accounts : List DnsAccount) (now : ℕ) (d : ManagedDomain) (ds : List ManagedDomain)
    (e : String)
    → (update_managed_domain accounts now d ds).0 ≡ some e
    → (update_managed_domain accounts now d ds).1 ≡ ds
unfolding update_managed_domain
update-failed accounts now d ds e failed = ground (arith, failed)
