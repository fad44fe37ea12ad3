-- ===== src/Db/Table.antt =====
-- Tables as lists of rows, in the order of insertion, and the clauses of SQL that the
-- repository uses: WHERE picks rows by a test, a primary key makes at most one row pass.
use magic_jigsaw.Prelude.{
  ◌∙◌, sym, subst, inr, inl, Bool-cases, All, ◌≡◌, refl, ◌⊎◌, Bool, true, false, ◌&&◌, Option, none,
  some, List, [], ◌∷◌, ◌++◌, arith, if◌then◌else◌,
}

module _ {ℓ} {R : Type ℓ} where
  -- SELECT ... WHERE p, scanned into one row: the first that passes.
  abbrev pub select : (R → Bool) → List R → Option R
  select p [] = none
  select p (x ∷ xs) = if p x then some x else select p xs

  -- SELECT ... WHERE p, all rows.
  abbrev pub select_all : (R → Bool) → List R → List R
  select_all p [] = []
  select_all p (x ∷ xs) = if p x then x ∷ select_all p xs else select_all p xs

  -- UPDATE ... SET f WHERE p
  abbrev pub update : (R → Bool) → (R → R) → List R → List R
  update p f [] = []
  update p f (x ∷ xs) = (if p x then f x else x) ∷ update p f xs

  -- DELETE ... WHERE p
  abbrev pub delete : (R → Bool) → List R → List R
  delete p [] = []
  delete p (x ∷ xs) = if p x then delete p xs else x ∷ delete p xs

  -- Does a row pass?
  abbrev pub exists : (R → Bool) → List R → Bool
  exists p xs = elim (select p xs) [ none ↦ false | some _ ↦ true ]

  -- An updated row still passes, if the update keeps it passing.
  pub select-update :
      (p : R → Bool) (f : R → R) (xs : List R) (x : R)
      → select p xs ≡ some x
      → p (f x) ≡ true
      → select p (update p f xs) ≡ some (f x)
  select-update p f [] x e h = ground arith
  select-update p f (y ∷ xs) x e h = ground (arith, select-update p f xs x)

  -- An update leaves a row alone that another test picks.
  pub select-update_other :
      (p q : R → Bool) (f : R → R) (xs : List R)
      → ((x : R) → p x ≡ true → q x ≡ false)
      → ((x : R) → p x ≡ true → q (f x) ≡ false)
      → select q (update p f xs) ≡ select q xs
  select-update_other p q f [] h k = refl
  select-update_other p q f (y ∷ xs) h k =
      ground (arith, select-update_other p q f xs h k, h y, k y)

  -- A row that `select` finds passes the test.
  pub select-passes : (p : R → Bool) (xs : List R) (x : R) → select p xs ≡ some x → p x ≡ true
  select-passes p [] x e = ground arith
  select-passes p (y ∷ xs) x e = ground (arith, select-passes p xs x)

  pub select-append :
      (p : R → Bool) (xs : List R) (x : R)
      → select p xs ≡ none
      → p x ≡ true
      → select p (xs ++ x ∷ []) ≡ some x
  select-append p [] x e h = ground arith
  select-append p (y ∷ xs) x e h = ground (arith, select-append p xs x)

  -- A row that is found is found when another one is added.
  pub select-append_found :
      (p : R → Bool) (xs : List R) (x y : R)
      → select p xs ≡ some y
      → select p (xs ++ x ∷ []) ≡ some y
  select-append_found p [] x y e = absurd (ground arith)
  select-append_found p (z ∷ xs) x y e = ground (arith, select-append_found p xs x y)

  pub select-append_other :
      (p : R → Bool) (xs : List R) (x : R) → p x ≡ false → select p (xs ++ x ∷ []) ≡ select p xs
  select-append_other p [] x h = ground arith
  select-append_other p (y ∷ xs) x h = ground (arith, select-append_other p xs x h)

  pub select-delete : (p : R → Bool) (xs : List R) → select p (delete p xs) ≡ none
  select-delete p [] = refl
  select-delete p (y ∷ xs) = ground (arith, select-delete p xs)

  -- A primary key: at most one row passes the test.
  abbrev pub Once : (R → Bool) → List R → Type ℓ
  Once p [] = Unit
  Once p (x ∷ xs) = ((p x ≡ false) ⊎ (select p xs ≡ none)) × Once p xs

  select-and_none :
      (p q : R → Bool) (xs : List R) → select p xs ≡ none → select (λ y. p y && q y) xs ≡ none
  select-and_none p q [] e = refl
  select-and_none p q (y ∷ xs) e = ground (arith, select-and_none p q xs)

  -- The keyed row, if it passes a further test too.
  pub select-and :
      (p q : R → Bool) (xs : List R) (x : R)
      → Once p xs
      → select p xs ≡ some x
      → select (λ y. p y && q y) xs ≡ (if q x then some x else none)
  select-and p q [] x o e = ground arith
  select-and p q (y ∷ xs) x o e = ground (arith, select-and p q xs x o.1, select-and_none p q xs)

  -- An update of the keyed row under a further test.
  pub select-update_and :
      (p q : R → Bool) (f : R → R) (xs : List R) (x : R)
      → Once p xs
      → select (λ y. p y && q y) xs ≡ some x
      → p (f x) ≡ true
      → select p (update (λ y. p y && q y) f xs) ≡ some (f x)
  select-update_and p q f [] x o e h = ground arith
  select-update_and p q f (y ∷ xs) x o e h =
      ground (arith, select-update_and p q f xs x o.1, select-and_none p q xs)

  pub exists-append :
      (p : R → Bool) (xs : List R) (x : R) → p x ≡ true → exists p (xs ++ x ∷ []) ≡ true
  exists-append p [] x h = ground arith
  exists-append p (y ∷ xs) x h = ground (arith, exists-append p xs x h)

  -- A row that is there stays there when another one is added.
  pub exists-append_keeps :
      (p : R → Bool) (xs : List R) (x : R) → exists p xs ≡ true → exists p (xs ++ x ∷ []) ≡ true
  exists-append_keeps p [] x h = ground arith
  exists-append_keeps p (y ∷ xs) x h = ground (arith, exists-append_keeps p xs x)

module _ {ℓ κ} {R : Type ℓ} (P Q : R → Type κ) (p : R → Bool) where
  -- An update turns one property of all rows into another.
  pub All-update_into :
      (f : R → R) (xs : List R)
      → ((x : R) → p x ≡ true → P x → Q (f x))
      → ((x : R) → p x ≡ false → P x → Q x)
      → All P xs
      → All Q (update p f xs)
  All-update_into f [] k l h = tt
  All-update_into f (x ∷ xs) k l h = (
    elim (Bool-cases (p x)) [ inl t ↦ rw t (k x t h.0) | inr t ↦ rw t (l x t h.0) ],
    All-update_into f xs k l h.1,
  )

module _ {ℓ κ} {R : Type ℓ} (P : R → Type κ) (p : R → Bool) where
  -- A row that is found has what all rows have.
  pub All-select : (xs : List R) (x : R) → All P xs → select p xs ≡ some x → P x
  All-select [] x h e = absurd (ground arith)
  All-select (y ∷ xs) x h e = elim (Bool-cases (p y)) [
    | inl t ↦ subst P (ground arith) h.0
    | inr t ↦ All-select xs x h.1 (ground arith)
  ]

  -- What all rows have they keep, if the update keeps it on the rows that it changes.
  pub All-update :
      (f : R → R) (xs : List R)
      → ((x : R) → p x ≡ true → P x → P (f x))
      → All P xs
      → All P (update p f xs)
  All-update f [] k h = tt
  All-update f (x ∷ xs) k h = (
    elim (Bool-cases (p x)) [ inl t ↦ rw t (k x t h.0) | inr t ↦ rw t h.0 ],
    All-update f xs k h.1,
  )

module _ {ℓ} {R : Type ℓ} (p : R → Bool) where
  -- Updates that keep the key leave at most one row with it, and so does a row with a new key.
  pub Once-update :
      (q : R → Bool) (f : R → R) (xs : List R)
      → ((x : R) → p (f x) ≡ p x)
      → Once p xs
      → Once p (update q f xs)
  Once-update q f [] h o = tt
  Once-update q f (x ∷ xs) h o = (
    elim o.0 [
      | inl e ↦ inl (elim (Bool-cases (q x)) [ inl t ↦ rw (t, h x) e | inr t ↦ rw t e ])
      | inr e ↦ inr (select-update_none q f xs h e)
    ],
    Once-update q f xs h o.1,
  )
    where
      select-update_none :
          (q : R → Bool) (f : R → R) (xs : List R)
          → ((x : R) → p (f x) ≡ p x)
          → select p xs ≡ none
          → select p (update q f xs) ≡ none
      select-update_none q f [] h e = refl
      select-update_none q f (x ∷ xs) h e = ground (arith, select-update_none q f xs h, h x)

  pub Once-append :
      (xs : List R) (x : R) → select p xs ≡ none ⊎ (p x ≡ false) → Once p xs → Once p (xs ++ x ∷ [])
  Once-append [] x h o = (inr refl, tt)
  Once-append (y ∷ xs) x (inl none_yet) o =
      (inl (ground arith), Once-append xs x (inl (ground arith)) o.1)
  Once-append (y ∷ xs) x (inr other) o = (
    elim o.0 [ inl e ↦ inl e | inr e ↦ inr (select-append_other p xs x other ∙ e) ],
    Once-append xs x (inr other) o.1,
  )

module _ {ℓ κ} {R : Type ℓ} (P : R → Type κ) (p : R → Bool) (f : R → R) where
  update-none : (xs : List R) → select p xs ≡ none → update p f xs ≡ xs
  update-none [] e = refl
  update-none (y ∷ xs) e = ground (arith, update-none xs)

  -- An update by a key changes the row that the key finds, and no other.
  pub All-update-Once :
      (xs : List R) (x : R)
      → Once p xs
      → select p xs ≡ some x
      → P (f x)
      → All P xs
      → All P (update p f xs)
  All-update-Once [] x o e h a = tt
  All-update-Once (y ∷ xs) x o e h a = elim (Bool-cases (p y)) [
    | inl t ↦ elim o.0 [
      | inl n ↦ absurd (ground arith)
      | inr n ↦ (subst P (ground arith) h, subst (All P) (sym (update-none xs n)) a.1)
    ]
    | inr t ↦ (subst P (ground arith) a.0, All-update-Once xs x o.1 (ground arith) h a.1)
  ]
