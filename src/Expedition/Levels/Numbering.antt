-- ===== src/Expedition/Levels/Numbering.antt =====
-- internal/repository/expedition.go: levels numbered from 1 on without gaps, and what each statement on
-- them does to the numbers.
use magic_jigsaw.Db.Writes.{exists-update}
use magic_jigsaw.Db.Writes.{Once-delete, exists-delete_other}
use magic_jigsaw.Lists.{All-mono, All-append}
use magic_jigsaw.Expedition.Levels.Statements.{max_index, index_is}
use magic_jigsaw.Prelude.{
  ℕ, zero, suc, ◌+◌, ◌≡◌, ◌≤◌, ◌<◌, inl, inr, refl, ap, ◌∙◌, Bool, true, none, List, [], ◌∷◌, ◌++◌,
  ◌==◌, arith, Bool-cases, All,
}
use magic_jigsaw.Db.Table.{
  Once-append, exists-append_keeps, Once-update, exists-append, Once, All-update, select, update,
  delete, exists,
}
use magic_jigsaw.Db.Schema.{LevelRow}

-- Indices from 1 to n.
abbrev pub Within : ℕ → LevelRow → Type 0
Within n l = (1 ≤ l.level_index) × (l.level_index ≤ n)

-- The levels 1 to n, each with one row.
pub record NumberedTo (n : ℕ) (rows : List LevelRow) : Type 0 where
  pub bounded : All (Within n) rows
  pub present : (i : ℕ) → 1 ≤ i → i ≤ n → exists (index_is i) rows ≡ true
  pub each_once : (i : ℕ) → Once (index_is i) rows

max_index-upper : (n : ℕ) (rows : List LevelRow) → All (Within n) rows → max_index rows ≤ n
max_index-upper n [] h = omega arith
max_index-upper n (l ∷ rows) h = ground (arith, max_index-upper n rows h.1)

max_index-lower :
    (i : ℕ) (rows : List LevelRow) → exists (index_is i) rows ≡ true → i ≤ max_index rows
max_index-lower i [] h = ground arith
max_index-lower i (l ∷ rows) h = elim (Bool-cases (l.level_index == i)) [
  | inl t ↦ ground (arith)
  | inr t ↦ ground (arith, max_index-lower i rows (ground arith))
]

-- The highest index counts the levels.
pub max_index-NumberedTo : (n : ℕ) (rows : List LevelRow) → NumberedTo n rows → max_index rows ≡ n
max_index-NumberedTo zero rows h = omega (arith, max_index-upper 0 rows h.bounded)
max_index-NumberedTo (suc n) rows h = omega (
  arith,
  max_index-upper (suc n) rows h.bounded,
  max_index-lower (suc n) rows (h.present (suc n) (omega arith) (omega arith)),
)

absent_above :
    (n i : ℕ) (rows : List LevelRow) → n < i → All (Within n) rows → select (index_is i) rows ≡ none
absent_above n i [] lt h = refl
absent_above n i (l ∷ rows) lt h = ground (arith, absent_above n i rows lt h.1)

pub NumberedTo-append :
    (n : ℕ) (rows : List LevelRow) (l : LevelRow)
    → l.level_index ≡ n + 1
    → NumberedTo n rows
    → NumberedTo (n + 1) (rows ++ l ∷ [])
NumberedTo-append n rows l e h = record {
  bounded =
      All-append (Within (n + 1)) rows l
        (All-mono (Within n) (Within (n + 1)) (λ x k. (k.0, omega (arith, k.1))) rows h.bounded)
        (omega (arith, e), omega (arith, e));
  present = λ i low high. elim (Bool-cases (i == n + 1)) [
    | inl t ↦ exists-append (index_is i) rows l (ground (arith))
    | inr t ↦ exists-append_keeps (index_is i) rows l (h.present i low (ground arith))
  ];
  each_once = λ i. elim (Bool-cases (i == n + 1)) [
    | inl t ↦
        Once-append (index_is i) rows l (inl (absent_above n i rows (ground arith) h.bounded))
          (h.each_once i)
    | inr t ↦ Once-append (index_is i) rows l (inr (ground arith)) (h.each_once i)
  ];
}

removed_bound :
    (n : ℕ) (rows : List LevelRow)
    → All (Within (suc n)) rows
    → All (Within n) (delete (index_is (suc n)) rows)
removed_bound n [] h = tt
removed_bound n (l ∷ rows) h = elim (Bool-cases (l.level_index == suc n)) [
  | inl t ↦ rw t (removed_bound n rows h.1)
  | inr t ↦ rw t ((h.0.0, ground (arith, h.0.1)), removed_bound n rows h.1)
]

pub NumberedTo-delete :
    (n : ℕ) (rows : List LevelRow)
    → NumberedTo (suc n) rows
    → NumberedTo n (delete (index_is (suc n)) rows)
NumberedTo-delete n rows h = record {
  bounded = removed_bound n rows h.bounded;
  present = λ i low high.
      exists-delete_other (index_is (suc n)) (index_is i) rows (λ x t. ground (arith))
      ∙ h.present i low (omega (arith, high));
  each_once = λ i. Once-delete (index_is (suc n)) (index_is i) rows (h.each_once i);
}

pub NumberedTo-update :
    (n : ℕ) (p : LevelRow → Bool) (f : LevelRow → LevelRow) (rows : List LevelRow)
    → ((l : LevelRow) → (f l).level_index ≡ l.level_index)
    → NumberedTo n rows
    → NumberedTo n (update p f rows)
NumberedTo-update n p f rows same h = record {
  bounded = All-update (Within n) p f rows (λ x t k. rw (same x) k) h.bounded;
  present = λ i low high.
      exists-update (index_is i) p f rows (λ x. ap (λ z. z == i) (same x)) ∙ h.present i low high;
  each_once =
      λ i. Once-update (index_is i) p f rows (λ x. ap (λ z. z == i) (same x)) (h.each_once i);
}
