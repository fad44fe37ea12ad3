-- ===== src/Stories/Rows.antt =====
-- Rows that a key finds, and properties of all rows of a table.
use magic_jigsaw.Prelude.{
  ◌≡◌, inl, inr, Bool, true, false, ◌&&◌, none, some, List, [], ◌∷◌, arith, Bool-cases,
  Option-cases, All,
}
use magic_jigsaw.Db.Table.{select, exists}
use magic_jigsaw.Db.Table.{Once, select-and}
use magic_jigsaw.Lists.{All-mono}

module _ {R : Type 0} where
  pub exists_mono :
      (p q : R → Bool) (xs : List R)
      → ((x : R) → p x ≡ true → q x ≡ true)
      → exists p xs ≡ true
      → exists q xs ≡ true
  exists_mono p q [] f h = ground arith
  exists_mono p q (x ∷ xs) f h = ground (arith, exists_mono p q xs f, f x)

  select-none-All : (p : R → Bool) (xs : List R) → select p xs ≡ none → All (λ x. p x ≡ false) xs
  select-none-All p [] e = tt
  select-none-All p (x ∷ xs) e = (ground arith, select-none-All p xs (ground arith))

  -- The row with a key is the one that the key finds.
  pub found-All :
      (p : R → Bool) (xs : List R) (q : R)
      → Once p xs
      → select p xs ≡ some q
      → All (λ x. p x ≡ true → x ≡ q) xs
  found-All p [] q o e = tt
  found-All p (x ∷ xs) q o e = elim (Bool-cases (p x)) [
    | inl t ↦ elim o.0 [
      | inl f ↦ absurd (ground arith)
      | inr n ↦ (
        (λ _. ground arith),
        All-mono (λ y. p y ≡ false) (λ y. p y ≡ true → y ≡ q) (λ y f g. absurd (ground arith)) xs
            (select-none-All p xs n),
      )
    ]
    | inr t ↦ ((λ h. absurd (ground arith)), found-All p xs q o.1 (ground arith))
  ]

  select-and_some :
      (p q : R → Bool) (xs : List R) (x : R)
      → select (λ y. p y && q y) xs ≡ some x
      → exists p xs ≡ true
  select-and_some p q [] x e = ground arith
  select-and_some p q (y ∷ xs) x e = ground (arith, select-and_some p q xs x)

  -- The row that a key and a further test find is the row with the key.
  pub found-and :
      (p q : R → Bool) (xs : List R) (x : R)
      → Once p xs
      → select (λ y. p y && q y) xs ≡ some x
      → (select p xs ≡ some x) × (q x ≡ true)
  found-and p q xs x o e = elim (Option-cases (select p xs)) [
    | inl n ↦ absurd (ground (arith, select-and_some p q xs x e))
    | inr (y, n) ↦ ground (arith, select-and p q xs y o n)
  ]

pub All-both :
    {R : Type 0} (P Q : R → Type 0) (xs : List R) → All P xs → All Q xs → All (λ x. P x × Q x) xs
All-both P Q [] p q = tt
All-both P Q (x ∷ xs) p q = ((p.0, q.0), All-both P Q xs p.1 q.1)
