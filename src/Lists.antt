-- ===== src/Lists.antt =====
-- Facts on lists that several components share.
use magic_jigsaw.Prelude.{
  suc, ◌≤◌, ◌≡◌, refl, sym, ap, subst, ◌∙◌, ◌⊎◌, inl, inr, List, [], ◌∷◌, ◌++◌, arith, length, All,
  In, Distinct,
}

module _ {ℓ κ} {A : Type ℓ} (P : A → Type κ) where
  pub All-append : (xs : List A) (x : A) → All P xs → P x → All P (xs ++ x ∷ [])
  All-append [] x h p = (p, tt)
  All-append (y ∷ xs) x h p = (h.0, All-append xs x h.1 p)

  pub All-mono {μ} : (Q : A → Type μ) → ((x : A) → P x → Q x) → (xs : List A) → All P xs → All Q xs
  All-mono Q f [] h = tt
  All-mono Q f (x ∷ xs) h = (f x h.0, All-mono Q f xs h.1)

module _ {A : Type 0} where
  pub In-append_left : (a : A) (xs ys : List A) → In a xs → In a (xs ++ ys)
  In-append_left a [] ys h = absurd h
  In-append_left a (x ∷ xs) ys (inl e) = inl e
  In-append_left a (x ∷ xs) ys (inr h) = inr (In-append_left a xs ys h)

  pub In-append_last : (a : A) (xs : List A) → In a (xs ++ a ∷ [])
  In-append_last a [] = inl refl
  In-append_last a (x ∷ xs) = inr (In-append_last a xs)

  pub In-append_or : (a b : A) (xs : List A) → In a (xs ++ b ∷ []) → In a xs ⊎ (a ≡ b)
  In-append_or a b [] (inl e) = inr e
  In-append_or a b [] (inr h) = absurd h
  In-append_or a b (x ∷ xs) (inl e) = inl (inl e)
  In-append_or a b (x ∷ xs) (inr h) = elim (In-append_or a b xs h) [
    | inl m ↦ inl (inr m)
    | inr e ↦ inr e
  ]

  -- A new entry at the end keeps a list free of repetition.
  pub Distinct-append : (xs : List A) (a : A) → Distinct xs → (¬ In a xs) → Distinct (xs ++ a ∷ [])
  Distinct-append [] a d h = ((λ m. m), tt)
  Distinct-append (x ∷ xs) a d h = (
    (λ m. elim (In-append_or x a xs m) [ inl m' ↦ d.0 m' | inr e ↦ h (inl (sym e)) ]),
    Distinct-append xs a d.1 (λ m. h (inr m)),
  )

  pub All-In : (P : A → Type 0) (xs : List A) (a : A) → All P xs → In a xs → P a
  All-In P [] a h m = absurd m
  All-In P (x ∷ xs) a h (inl e) = subst P (sym e) h.0
  All-In P (x ∷ xs) a h (inr m) = All-In P xs a h.1 m

  -- A list without one of its entries.
  record Without (a : A) (ys : List A) : Type 0 where
    rest : List A
    size : length ys ≡ suc (length rest)
    covers : (y : A) → In y ys → (y ≡ a) ⊎ In y rest

  without : (a : A) (ys : List A) → In a ys → Without a ys
  without a [] h = absurd h
  without a (y ∷ ys) (inl e) = record {
    rest = ys;
    size = refl;
    covers = λ z m. elim m [ inl f ↦ inl (f ∙ sym e) | inr m' ↦ inr m' ];
  }
  without a (y ∷ ys) (inr h) =
      let r = without a ys h in
      record {
        rest = y ∷ r.rest;
        size = ap suc r.size;
        covers = λ z m. elim m [
          | inl f ↦ inr (inl f)
          | inr m' ↦ elim (r.covers z m') [ inl f ↦ inl f | inr k ↦ inr (inr k) ]
        ];
      }

  kept :
      (x : A) (xs ys : List A) (r : Without x ys)
      → (¬ In x xs)
      → All (λ a. In a ys) xs
      → All (λ a. In a r.rest) xs
  kept x [] ys r out h = tt
  kept x (z ∷ xs) ys r out h = (
    (elim (r.covers z h.0) [ inl e ↦ absurd (out (inl (sym e))) | inr m ↦ m ]),
    kept x xs ys r (λ m. out (inr m)) h.1,
  )

  -- Distinct entries taken from a list that is no longer than they are leave none of it out.
  pub pigeonhole :
      (xs ys : List A)
      → Distinct xs
      → All (λ a. In a ys) xs
      → length ys ≤ length xs
      → (a : A) → In a ys
      → In a xs
  pigeonhole [] [] d h le a m = m
  pigeonhole [] (y ∷ ys) d h le a m = absurd (omega arith)
  pigeonhole (x ∷ xs) ys d h le a m =
      let r = without x ys h.0 in
      elim (r.covers a m) [
        | inl e ↦ inl e
        | inr k ↦
            inr (pigeonhole xs r.rest d.1 (kept x xs ys r d.0 h.1) (omega (arith, r.size)) a k)
      ]

  pub In-All : (P : A → Type 0) (xs : List A) → ((a : A) → In a xs → P a) → All P xs
  In-All P [] f = tt
  In-All P (x ∷ xs) f = (f x (inl refl), In-All P xs (λ a m. f a (inr m)))
