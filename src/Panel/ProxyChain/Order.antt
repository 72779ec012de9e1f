-- ===== src/Panel/ProxyChain/Order.antt =====
-- The order in which a deployment changes the nodes.
use ladder_airport.Panel.ProxyChain.World.{Hop}
use ladder_airport.Base.{
  Bool-cases, String, ◌≡◌, refl, sym, ap, ◌∙◌, subst, inl, inr, Bool, true, false, not, ◌&&◌, ◌||◌,
  List, [], ◌∷◌, ◌++◌, append_assoc, append-nil, arith, str_eq, str_eq_iff,
}
use ladder_airport.Panel.ProxyChain.Plan.{
  contains, append_unique, append_all, hop_nodes, reverse, deploy_order,
}

unfoldable pub unique : List String → Bool
unique [] = true
unique (x ∷ xs) = not (contains x xs) && unique xs

pub contains-append :
    (id : String) (xs ys : List String)
    → contains id (xs ++ ys) ≡ (contains id xs || contains id ys)
unfolding contains
contains-append id [] ys = refl
contains-append id (x ∷ xs) ys = ground (arith, contains-append id xs ys)

unique-snoc :
    (xs : List String) (v : String)
    → unique xs ≡ true
    → contains v xs ≡ false
    → unique (xs ++ v ∷ []) ≡ true
unfolding unique contains
unique-snoc [] v u h = refl
unique-snoc (x ∷ xs) v u h = ground (
  arith,
  contains-append x xs (v ∷ []),
  unique-snoc xs v (ground arith) (ground arith),
  str_eq_iff x v,
  str_eq_iff v x,
)

append_unique-unique :
    (xs : List String) (v : String) → unique xs ≡ true → unique (append_unique xs v) ≡ true
unfolding append_unique
append_unique-unique xs v u = elim (Bool-cases (contains v xs)) [
  | inl there_is ↦ ground (arith, there_is, u)
  | inr fresh ↦ ground (arith, fresh, unique-snoc xs v u fresh)
]

contains-append_unique :
    (id : String) (xs : List String) (v : String)
    → contains id (append_unique xs v) ≡ (contains id xs || str_eq v id)
unfolding append_unique
contains-append_unique id xs v = elim (Bool-cases (contains v xs)) [
  | inl there_is ↦ elim (Bool-cases (str_eq v id)) [
    | inl same ↦
        let id_is : v ≡ id = (str_eq_iff v id).0 same in
        let inside : contains id xs ≡ true = subst (λ i. contains i xs ≡ true) id_is there_is in
        ground (arith, there_is, inside)
    | inr differ ↦ ground (arith, there_is, differ)
  ]
  | inr fresh ↦ unfold contains in (ground (arith, fresh, contains-append id xs (v ∷ [])))
]

append_all-unique : (xs vs : List String) → unique xs ≡ true → unique (append_all xs vs) ≡ true
unfolding append_all
append_all-unique xs [] u = u
append_all-unique xs (v ∷ vs) u =
    append_all-unique (append_unique xs v) vs (append_unique-unique xs v u)

pub contains-append_all :
    (id : String) (xs vs : List String)
    → contains id (append_all xs vs) ≡ (contains id xs || contains id vs)
unfolding append_all
contains-append_all id xs [] = unfold contains in (ground arith)
contains-append_all id xs (v ∷ vs) =
    contains-append_all id (append_unique xs v) vs
    ∙ ap (λ b. b || contains id vs) (contains-append_unique id xs v)
    ∙ unfold contains in (ground arith)

pub contains-reverse : (id : String) (xs : List String) → contains id (reverse xs) ≡ contains id xs
unfolding reverse
contains-reverse id [] = refl
contains-reverse id (x ∷ xs) =
    contains-append id (reverse xs) (x ∷ [])
    ∙ ap (λ b. b || contains id (x ∷ [])) (contains-reverse id xs)
    ∙ unfold contains in (ground arith)

unique-reverse : (xs : List String) → unique xs ≡ true → unique (reverse xs) ≡ true
unfolding reverse unique
unique-reverse [] u = refl
unique-reverse (x ∷ xs) u =
    unique-snoc (reverse xs) x (unique-reverse xs (ground (arith, u)))
      (contains-reverse x xs ∙ ground (arith, u))

unique_middle :
    (xs : List String) (v : String) (vs : List String)
    → unique (xs ++ v ∷ vs) ≡ true
    → contains v xs ≡ false
unfolding unique contains
unique_middle [] v vs u = refl
unique_middle (x ∷ xs) v vs u = ground (
  arith,
  unique_middle xs v vs (ground (arith, u)),
  contains-append x xs (v ∷ vs),
  str_eq_iff x v,
  str_eq_iff v x,
)

-- The appended nodes stand behind those that were there.
append_all-prefix : (xs vs : List String) → (rest : List String) × (append_all xs vs ≡ xs ++ rest)
unfolding append_all append_unique
append_all-prefix xs [] = ([], sym (append-nil xs))
append_all-prefix xs (v ∷ vs) = elim (Bool-cases (contains v xs)) [
  | inl there_is ↦ let (rest, e) = append_all-prefix xs vs in (rest, ground (arith, there_is, e))
  | inr fresh ↦
      let (rest, e) = append_all-prefix (xs ++ v ∷ []) vs in
      (v ∷ rest, ground (arith, fresh, e, append_assoc xs (v ∷ []) rest))
]

append_all-fresh : (xs vs : List String) → unique (xs ++ vs) ≡ true → append_all xs vs ≡ xs ++ vs
unfolding append_all append_unique
append_all-fresh xs [] u = sym (append-nil xs)
append_all-fresh xs (v ∷ vs) u =
    let same = append_assoc xs (v ∷ []) vs in
    let u' : unique ((xs ++ v ∷ []) ++ vs) ≡ true = ap unique same ∙ u in
    ground (arith, unique_middle xs v vs u, append_all-fresh (xs ++ v ∷ []) vs u', same)

-- A deployment changes each node of the new hops and of the old hops exactly once. If no node has two
-- of the new hops, these come first, from the exit to the entry.
pub deploy_order_lem :
    (base old : List Hop)
    → (unique (deploy_order base old) ≡ true)
      × ((id : String)
          → contains id (deploy_order base old)
            ≡ (contains id (hop_nodes base) || contains id (hop_nodes old)))
      × (unique (hop_nodes base) ≡ true
          → (rest : List String) × (deploy_order base old ≡ reverse (hop_nodes base) ++ rest))
unfolding deploy_order
deploy_order_lem base old =
    let exits = reverse (hop_nodes base) in
    let nothing : unique [] ≡ true = unfold unique in refl in
    (
      append_all-unique (append_all [] exits) (hop_nodes old) (append_all-unique [] exits nothing),
      λ id.
          contains-append_all id (append_all [] exits) (hop_nodes old)
          ∙ ap (λ b. b || contains id (hop_nodes old))
              (contains-append_all id [] exits
                ∙ unfold contains in refl ∙ contains-reverse id (hop_nodes base)),
      λ u.
          let (rest, e) = append_all-prefix (append_all [] exits) (hop_nodes old) in
          (
            rest,
            e
                ∙ ap (λ xs. xs ++ rest)
                    (append_all-fresh [] exits (unique-reverse (hop_nodes base) u)),
          ),
    )
