-- ===== src/Pkg/Semver/Order.antt =====
-- Comparisons that are total preorders, and how they are put together.
use ladder_airport.Base.{◌≡◌, refl, sym, ap, ◌∙◌, List, [], ◌∷◌, arith}
use ladder_airport.Pkg.Semver.{Sign, cmp_int, less, same, more}

abbrev pub swap : Sign → Sign
swap less = more
swap same = same
swap more = less

-- A comparison of which the turned one is the opposite, that is transitive, and that does not tell
-- apart what it calls the same.
pub record IsOrder {ℓ} {A : Type ℓ} (cmp : A → A → Sign) : Type ℓ where
  pub flip : (a b : A) → cmp b a ≡ swap (cmp a b)
  pub trans : (a b c : A) → cmp a b ≡ less → cmp b c ≡ less → cmp a c ≡ less
  pub congruent : (a b c : A) → cmp a b ≡ same → cmp a c ≡ cmp b c

-- The first comparison that tells them apart decides.
abbrev pub and_then : Sign → Sign → Sign
and_then less s = less
and_then same s = s
and_then more s = more

unfoldable pub cmp_list {ℓ} : {A : Type ℓ} → (A → A → Sign) → List A → List A → Sign
cmp_list cmp [] [] = same
cmp_list cmp [] (_ ∷ _) = less
cmp_list cmp (_ ∷ _) [] = more
cmp_list cmp (x ∷ xs) (y ∷ ys) = and_then (cmp x y) (cmp_list cmp xs ys)

pub transfer-IsOrder {ℓ} :
    {A : Type ℓ} (cmp cmp' : A → A → Sign)
    → ((a b : A) → cmp' a b ≡ cmp a b)
    → IsOrder cmp
    → IsOrder cmp'
transfer-IsOrder cmp cmp' e o = record {
  flip = λ a b. e b a ∙ o.flip a b ∙ ap swap (sym (e a b));
  trans = λ a b c h k. e a c ∙ o.trans a b c (sym (e a b) ∙ h) (sym (e b c) ∙ k);
  congruent = λ a b c h. e a c ∙ o.congruent a b c (sym (e a b) ∙ h) ∙ sym (e b c);
}

pub on-IsOrder {ℓ κ} :
    {A : Type ℓ} {B : Type κ} (f : A → B) (cmp : B → B → Sign)
    → IsOrder cmp
    → IsOrder (λ a b. cmp (f a) (f b))
on-IsOrder f cmp o = record {
  flip = λ a b. o.flip (f a) (f b);
  trans = λ a b c. o.trans (f a) (f b) (f c);
  congruent = λ a b c. o.congruent (f a) (f b) (f c);
}

pub cmp_int-IsOrder : IsOrder cmp_int
unfolding cmp_int
cmp_int-IsOrder = record {
  flip = λ a b. ground arith;
  trans = λ a b c h k. ground (arith, h, k);
  congruent =
      λ a b c h. let same_number : a ≡ b = ground (arith, h) in ap (λ x. cmp_int x c) same_number;
}

module _ {ℓ} {A : Type ℓ} (one two : A → A → Sign) (o : IsOrder one) (p : IsOrder two) where
  -- `same` from the left argument, turned.
  congruent_right :
      (cmp : A → A → Sign) → IsOrder cmp → (a b c : A) → cmp b c ≡ same → cmp a b ≡ cmp a c
  congruent_right cmp q a b c h = q.flip b a ∙ ap swap (q.congruent b c a h) ∙ sym (q.flip c a)

  then_trans :
      (a b c : A)
      → and_then (one a b) (two a b) ≡ less
      → and_then (one b c) (two b c) ≡ less
      → and_then (one a c) (two a c) ≡ less
  then_trans a b c h k =
      ground
        (arith, h, k, o.trans a b c, o.congruent a b c, congruent_right one o a b c, p.trans a b c)

  pub then-IsOrder : IsOrder (λ a b. and_then (one a b) (two a b))
  then-IsOrder = record {
    flip = λ a b. ground (arith, o.flip a b, p.flip a b);
    trans = then_trans;
    congruent = λ a b c h. ground (arith, h, o.congruent a b c, p.congruent a b c);
  }

module _ {ℓ} {A : Type ℓ} (cmp : A → A → Sign) (o : IsOrder cmp) where
  list_flip : (xs ys : List A) → cmp_list cmp ys xs ≡ swap (cmp_list cmp xs ys)
  unfolding cmp_list
  list_flip [] [] = refl
  list_flip [] (_ ∷ _) = refl
  list_flip (_ ∷ _) [] = refl
  list_flip (x ∷ xs) (y ∷ ys) = ground (arith, o.flip x y, list_flip xs ys)

  right_same : (a b c : A) → cmp b c ≡ same → cmp a b ≡ cmp a c
  right_same a b c h = o.flip b a ∙ ap swap (o.congruent b c a h) ∙ sym (o.flip c a)

  list_trans :
      (xs ys zs : List A)
      → cmp_list cmp xs ys ≡ less
      → cmp_list cmp ys zs ≡ less
      → cmp_list cmp xs zs ≡ less
  unfolding cmp_list
  list_trans [] (y ∷ ys) (z ∷ zs) h k = refl
  list_trans [] [] zs h k = absurd (cc h)
  list_trans [] (y ∷ ys) [] h k = absurd (cc k)
  list_trans (x ∷ xs) [] zs h k = absurd (cc h)
  list_trans (x ∷ xs) (y ∷ ys) [] h k = absurd (cc k)
  list_trans (x ∷ xs) (y ∷ ys) (z ∷ zs) h k =
      ground (arith, h, k, o.trans x y z, o.congruent x y z, right_same x y z, list_trans xs ys zs)

  list_congruent :
      (xs ys zs : List A) → cmp_list cmp xs ys ≡ same → cmp_list cmp xs zs ≡ cmp_list cmp ys zs
  unfolding cmp_list
  list_congruent [] [] zs h = refl
  list_congruent [] (y ∷ ys) zs h = absurd (cc h)
  list_congruent (x ∷ xs) [] zs h = absurd (cc h)
  list_congruent (x ∷ xs) (y ∷ ys) [] h = refl
  list_congruent (x ∷ xs) (y ∷ ys) (z ∷ zs) h =
      ground (arith, h, o.congruent x y z, list_congruent xs ys zs)

  pub cmp_list-IsOrder : IsOrder (cmp_list cmp)
  cmp_list-IsOrder = record { flip = list_flip; trans = list_trans; congruent = list_congruent }
