-- ===== src/Db/Writes.antt =====
-- What an UPDATE or a DELETE keeps of a table.
use magic_jigsaw.Prelude.{
  ◌&&◌, some, ◌++◌, ◌⊎◌, ◌≡◌, refl, inl, inr, Bool, Bool-cases, none, List, [], ◌∷◌, All, arith,
  false, true,
}
use magic_jigsaw.Db.Table.{select, update, delete, exists, Once}

module _ {R : Type 0} (q : R → Bool) where
  pub All-delete : (P : R → Type 0) (xs : List R) → All P xs → All P (delete q xs)
  All-delete P [] h = tt
  All-delete P (x ∷ xs) h = elim (Bool-cases (q x)) [
    | inl t ↦ rw t (All-delete P xs h.1)
    | inr t ↦ rw t (h.0, All-delete P xs h.1)
  ]

  select-delete-none :
      (p : R → Bool) (xs : List R) → select p xs ≡ none → select p (delete q xs) ≡ none
  select-delete-none p [] e = refl
  select-delete-none p (x ∷ xs) e = ground (arith, select-delete-none p xs)

  pub Once-delete : (p : R → Bool) (xs : List R) → Once p xs → Once p (delete q xs)
  Once-delete p [] o = tt
  Once-delete p (x ∷ xs) o = elim (Bool-cases (q x)) [
    | inl t ↦ rw t (Once-delete p xs o.1)
    | inr t ↦
        rw t (
          elim o.0 [ inl e ↦ inl e | inr e ↦ inr (select-delete-none p xs e) ],
          Once-delete p xs o.1,
        )
  ]

  -- A row that the deletion does not pick stays there.
  pub exists-delete_other :
      (p : R → Bool) (xs : List R)
      → ((x : R) → p x ≡ true → q x ≡ false)
      → exists p (delete q xs) ≡ exists p xs
  exists-delete_other p [] h = refl
  exists-delete_other p (x ∷ xs) h = ground (arith, exists-delete_other p xs h, h x)

module _ {R : Type 0} (p q : R → Bool) where
  -- What a test finds once the rows are deleted that it picks, and once others are.
  pub select-delete_all :
      (xs : List R) → ((x : R) → p x ≡ true → q x ≡ true) → select p (delete q xs) ≡ none
  select-delete_all [] h = refl
  select-delete_all (x ∷ xs) h = ground (arith, select-delete_all xs h, h x)

  pub select-delete_other :
      (xs : List R) → ((x : R) → p x ≡ true → q x ≡ false) → select p (delete q xs) ≡ select p xs
  select-delete_other [] h = refl
  select-delete_other (x ∷ xs) h = ground (arith, select-delete_other xs h, h x)

  -- The first row that passes one test, if it passes another.
  pub exists-and :
      (xs : List R) (x : R) → select p xs ≡ some x → q x ≡ true → exists (λ y. p y && q y) xs ≡ true
  exists-and [] x e h = absurd (ground arith)
  exists-and (y ∷ xs) x e h = ground (arith, exists-and xs x, h)

-- An update that keeps a test keeps what it finds there.
pub exists-update :
    {R : Type 0} (p q : R → Bool) (f : R → R) (xs : List R)
    → ((x : R) → p (f x) ≡ p x)
    → exists p (update q f xs) ≡ exists p xs
exists-update p q f [] k = refl
exists-update p q f (x ∷ xs) k = ground (arith, exists-update p q f xs k, k x)

module _ {R : Type 0} (p : R → Bool) where
  -- The rows that pass the test have changed as `E` says, and no other row has.
  abbrev pub Changed : (R → R → Type 0) → List R → List R → Type 0
  Changed E [] [] = Unit
  Changed E [] (y ∷ ys) = ⊥
  Changed E (x ∷ xs) [] = ⊥
  Changed E (x ∷ xs) (y ∷ ys) =
      (((p x ≡ true) × E x y) ⊎ ((p x ≡ false) × (y ≡ x))) × Changed E xs ys

  pub Changed-update :
      (E : R → R → Type 0) (f : R → R) (xs : List R)
      → ((x : R) → E x (f x))
      → Changed E xs (update p f xs)
  Changed-update E f [] h = tt
  Changed-update E f (x ∷ xs) h = (
    elim (Bool-cases (p x)) [ inl t ↦ rw t (inl (refl, h x)) | inr t ↦ rw t (inr (refl, refl)) ],
    Changed-update E f xs h,
  )

  pub Changed-none : (E : R → R → Type 0) (xs : List R) → select p xs ≡ none → Changed E xs xs
  Changed-none E [] h = tt
  Changed-none E (x ∷ xs) h = (inr (ground (arith, h), refl), Changed-none E xs (ground (arith, h)))

  -- INSERT ... ON CONFLICT DO NOTHING: a row that passes the test stays, and else the new one is added.
  abbrev pub Placed : R → List R → List R → Type 0
  Placed row xs ys =
      ((exists p xs ≡ true) × (ys ≡ xs)) ⊎ ((exists p xs ≡ false) × (ys ≡ xs ++ row ∷ []))
