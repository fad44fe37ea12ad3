-- ===== src/Dungeon/Walks/Steps.antt =====
-- Each change that the operations make to a row of progress keeps it on its path.
use magic_jigsaw.Prelude.{
  none, subst, Bool-cases, ◌++◌, ℕ, ◌≡◌, Option, some, ℤ, List, [], ◌∷◌, String, All, In, Distinct,
  inl, inr, refl, arith,
}
use magic_jigsaw.Lists.{In-append_left, All-append, In-append_last, Distinct-append}
use magic_jigsaw.Db.Schema.{Cell, ProgressRow}
use magic_jigsaw.Dungeon.Grid.{has_cell, has_cell-In, In-has_cell}
use magic_jigsaw.Dungeon.Store.{append_cell_dedup, moved, fresh_progress}
use magic_jigsaw.Dungeon.Walks.Sound.{Follows}
use magic_jigsaw.Dungeon.Store.{both, retreated, with_defeated, with_completed}
use magic_jigsaw.Dungeon.Walks.Sound.{ReturnsTo}

-- What a move makes of the visited cells.
dedup_seen : (vs : List Cell) (c : Cell) → In c (append_cell_dedup vs c)
unfolding append_cell_dedup
dedup_seen vs c = elim (Bool-cases (has_cell c vs)) [
  | inl h ↦ rw h (has_cell-In c vs h)
  | inr h ↦ rw h (In-append_last c vs)
]

dedup_keeps : (vs : List Cell) (c a : Cell) → In a vs → In a (append_cell_dedup vs c)
unfolding append_cell_dedup
dedup_keeps vs c a m = elim (Bool-cases (has_cell c vs)) [
  | inl h ↦ rw h m
  | inr h ↦ rw h (In-append_left a vs (c ∷ []) m)
]

dedup-All :
    (P : Cell → Type 0) (vs : List Cell) (c : Cell)
    → All P vs
    → P c
    → All P (append_cell_dedup vs c)
unfolding append_cell_dedup
dedup-All P vs c h p = elim (Bool-cases (has_cell c vs)) [
  | inl e ↦ rw e h
  | inr e ↦ rw e (All-append P vs c h p)
]

dedup_once : (vs : List Cell) (c : Cell) → Distinct vs → Distinct (append_cell_dedup vs c)
unfolding append_cell_dedup
dedup_once vs c d = elim (Bool-cases (has_cell c vs)) [
  | inl e ↦ rw e d
  | inr e ↦ rw e (Distinct-append vs c d (λ m. ground (arith, In-has_cell c vs m)))
]

goes_back :
    (cells : List Cell) (r c : Option ℤ) (cell : Cell)
    → both r c ≡ some cell
    → ReturnsTo cells r c
    → In cell cells
goes_back cells none c cell e h = absurd (ground arith)
goes_back cells (some r) none cell e h = absurd (ground arith)
goes_back cells (some r) (some c) cell e h = subst (λ a. In a cells) (cc) h

module _ (path : List Cell) (names : List String) where
  pub Follows-moved :
      (p : ProgressRow) (target : Cell)
      → Follows path names p
      → In target path
      → Follows path names (moved p.position target (append_cell_dedup p.visited target) p)
  unfolding moved
  Follows-moved p target fp on = record {
    position = on;
    previous = fp.position;
    previous_seen = dedup_keeps p.visited target p.position fp.seen;
    seen = dedup_seen p.visited target;
    visited = dedup-All (λ c. In c path) p.visited target fp.visited on;
    visited_once = dedup_once p.visited target fp.visited_once;
    defeated = fp.defeated;
    defeated_once = fp.defeated_once;
  }

  pub Follows-fresh :
      (user_id dungeon_id : ℕ) (start : Cell)
      → In start path
      → Follows path names (fresh_progress user_id dungeon_id start)
  unfolding fresh_progress
  Follows-fresh user_id dungeon_id start on = record {
    position = on;
    previous = tt;
    previous_seen = tt;
    seen = inl refl;
    visited = (on, tt);
    visited_once = ((λ m. m), tt);
    defeated = tt;
    defeated_once = tt;
  }

  pub Follows-retreated :
      (p : ProgressRow) (c : Cell)
      → both p.prev_row p.prev_col ≡ some c
      → Follows path names p
      → Follows path names (retreated c p)
  unfolding retreated
  Follows-retreated p c e f =
      let back = goes_back path p.prev_row p.prev_col c e f.previous in
      record {
        position = back;
        previous = tt;
        seen = goes_back p.visited p.prev_row p.prev_col c e f.previous_seen;
        previous_seen = tt;
        visited = f.visited;
        visited_once = f.visited_once;
        defeated = f.defeated;
        defeated_once = f.defeated_once;
      }

  pub Follows-defeated :
      (p : ProgressRow) (t : String)
      → In t names
      → (¬ In t p.defeated)
      → Follows path names p
      → Follows path names (with_defeated (p.defeated ++ t ∷ []) p)
  unfolding with_defeated
  Follows-defeated p t known new f = record {
    position = f.position;
    previous = f.previous;
    seen = f.seen;
    previous_seen = f.previous_seen;
    visited = f.visited;
    visited_once = f.visited_once;
    defeated = All-append (λ s. In s names) p.defeated t f.defeated known;
    defeated_once = Distinct-append p.defeated t f.defeated_once new;
  }

  pub Follows-completed :
      (p : ProgressRow) → Follows path names p → Follows path names (with_completed p)
  unfolding with_completed
  Follows-completed p f = record {
    position = f.position;
    previous = f.previous;
    seen = f.seen;
    previous_seen = f.previous_seen;
    visited = f.visited;
    visited_once = f.visited_once;
    defeated = f.defeated;
    defeated_once = f.defeated_once;
  }
