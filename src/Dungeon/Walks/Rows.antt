-- ===== src/Dungeon/Walks/Rows.antt =====
-- The rows of dungeon_progress under a change of one of them, and with a new one.
use magic_jigsaw.Prelude.{
  ◌∙◌, none, true, subst, sym, Bool-cases, ◌++◌, ℕ, ◌≡◌, some, List, [], ◌∷◌, String, In, inl, inr,
  refl, arith,
}
use magic_jigsaw.Lists.{All-append}
use magic_jigsaw.Db.Schema.{Cell, ProgressRow}
use magic_jigsaw.Dungeon.Statements.{progress_is}
use magic_jigsaw.Dungeon.Store.{moved, fresh_progress}
use magic_jigsaw.Dungeon.Walks.Sound.{RowsSound, Follows}
use magic_jigsaw.Db.Action.{Env}
use magic_jigsaw.Dungeon.Walks.Sound.{RowSound, RowSound-Follows, monster_names}
use magic_jigsaw.Db.Table.{
  Once-update, Once-append, All-update-Once, select-passes, select, update, All-select,
}
use magic_jigsaw.Dungeon.Statements.{dungeon_is, progress_is}
use magic_jigsaw.Db.Schema.{DungeonRow, MonsterRow}
use magic_jigsaw.Dungeon.Walks.Steps.{Follows-fresh}
use magic_jigsaw.Dungeon.Store.{moved, retreated, with_defeated, with_completed}

-- A change of a row that leaves its key alone.
pub record KeepsKey (f : ProgressRow → ProgressRow) : Type 0 where
  pub user : (p : ProgressRow) → (f p).user_id ≡ p.user_id
  pub dungeon : (p : ProgressRow) → (f p).dungeon_id ≡ p.dungeon_id

pub moved-KeepsKey : (from target : Cell) (vs : List Cell) → KeepsKey (moved from target vs)
unfolding moved
moved-KeepsKey from target vs = record { user = λ p. refl; dungeon = λ p. refl }

pub retreated-KeepsKey : (c : Cell) → KeepsKey (retreated c)
unfolding retreated
retreated-KeepsKey c = record { user = λ p. refl; dungeon = λ p. refl }

pub with_defeated-KeepsKey : (ds : List String) → KeepsKey (with_defeated ds)
unfolding with_defeated
with_defeated-KeepsKey ds = record { user = λ p. refl; dungeon = λ p. refl }

pub with_completed-KeepsKey : KeepsKey with_completed
unfolding with_completed
with_completed-KeepsKey = record { user = λ p. refl; dungeon = λ p. refl }

pub progress_is-dungeon :
    (user_id dungeon_id : ℕ) (x : ProgressRow)
    → progress_is user_id dungeon_id x ≡ true
    → x.dungeon_id ≡ dungeon_id
progress_is-dungeon user_id dungeon_id x h = ground arith

module _ (env : Env) (ds : List DungeonRow) (ms : List MonsterRow) (user_id dungeon_id : ℕ)
    (row : DungeonRow) (found : select (dungeon_is dungeon_id) ds ≡ some row) where
  pub Follows-RowSound :
      (p : ProgressRow)
      → p.dungeon_id ≡ dungeon_id
      → Follows row.path (monster_names env dungeon_id ms) p
      → RowSound env ds ms p
  Follows-RowSound p e f = (
    row,
    subst (λ i. select (dungeon_is i) ds ≡ some row) (sym e) found,
    subst (λ i. Follows row.path (monster_names env i ms) p) (sym e) f,
  )

  -- The saved row of a player follows the path.
  pub saved-Follows :
      (ps : List ProgressRow) (p : ProgressRow)
      → RowsSound env ds ms ps
      → select (progress_is user_id dungeon_id) ps ≡ some p
      → Follows row.path (monster_names env dungeon_id ms) p
  saved-Follows ps p s e =
      RowSound-Follows env ds ms p dungeon_id row
        (All-select (RowSound env ds ms) (progress_is user_id dungeon_id) ps p s.each e)
        (progress_is-dungeon user_id dungeon_id p
          (select-passes (progress_is user_id dungeon_id) ps p e))
        found

  -- Rows stay sound when the saved row of a player is changed to one that follows the path.
  pub RowsSound-update :
      (f : ProgressRow → ProgressRow) (ps : List ProgressRow) (p : ProgressRow)
      → KeepsKey f
      → RowsSound env ds ms ps
      → select (progress_is user_id dungeon_id) ps ≡ some p
      → Follows row.path (monster_names env dungeon_id ms) (f p)
      → RowsSound env ds ms (update (progress_is user_id dungeon_id) f ps)
  RowsSound-update f ps p k s e h = record {
    each =
        All-update-Once (RowSound env ds ms) (progress_is user_id dungeon_id) f ps p
          (s.once user_id dungeon_id) e
          (Follows-RowSound (f p)
            (k.dungeon p
              ∙ progress_is-dungeon user_id dungeon_id p
                  (select-passes (progress_is user_id dungeon_id) ps p e))
            h)
          s.each;
    once = λ u i.
        Once-update (progress_is u i) (progress_is user_id dungeon_id) f ps
          (λ x. ground (arith, k.user x, k.dungeon x)) (s.once u i);
  }

  -- So they do with a new row, for a player who has none.
  pub RowsSound-fresh :
      (ps : List ProgressRow)
      → RowsSound env ds ms ps
      → select (progress_is user_id dungeon_id) ps ≡ none
      → In row.start row.path
      → RowsSound env ds ms (ps ++ fresh_progress user_id dungeon_id row.start ∷ [])
  unfolding fresh_progress
  RowsSound-fresh ps s e on = record {
    each = All-append (RowSound env ds ms) ps (fresh_progress user_id dungeon_id row.start) s.each (
        Follows-RowSound (fresh_progress user_id dungeon_id row.start) refl (
          Follows-fresh row.path (monster_names env dungeon_id ms) user_id dungeon_id row.start
            on));
    once = λ u i.
        Once-append (progress_is u i) ps (fresh_progress user_id dungeon_id row.start)
          (elim (Bool-cases (progress_is u i (fresh_progress user_id dungeon_id row.start))) [
            | inl same ↦ inl (
                subst (λ j. select (progress_is u j) ps ≡ none) (ground arith)
                  (subst (λ v. select (progress_is v dungeon_id) ps ≡ none) (ground arith) e))
            | inr other ↦ inr other
          ])
          (s.once u i);
  }
