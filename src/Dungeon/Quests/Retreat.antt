-- ===== src/Dungeon/Quests/Retreat.antt =====
-- Every way in which RetreatDungeon can end.
use magic_jigsaw.Db.Writes.{Changed-update, Changed}
use magic_jigsaw.Prelude.{
  ap, ◌+◌, refl, ℕ, ◌≡◌, ◌⊎◌, inl, inr, Option, none, some, ℤ, String, arith, Option-cases, subst,
  sym, ◌∙◌,
}
use magic_jigsaw.Db.Table.{select, update}
use magic_jigsaw.Db.Schema.{Db, Cell, DungeonRow, ProgressRow}
use magic_jigsaw.Db.Action.{
  rollback, Env, World, Result, Error, Ending, ok, err, commit, failed, transaction, begun,
  transaction_outcome, Result-cases, Action,
}
use magic_jigsaw.Dungeon.Statements.{dungeon_is, progress_is, select_progress, update_progress}
use magic_jigsaw.Points.Statements.{select_unlock_points}
use magic_jigsaw.Points.Store.{get_unlock_points}
use magic_jigsaw.Dungeon.Moves.Outcome.{get_dungeon_row-found, get_dungeon_row-keeps}
use magic_jigsaw.Dungeon.Store.{
  get_dungeon_row, both, stay, retreated, retreat_transaction, retreat_dungeon,
}

pub get_unlock_points-keeps :
    (env : Env) (id : ℕ) (w : World) → (get_unlock_points env id w).1.db ≡ w.db
unfolding get_unlock_points select_unlock_points
get_unlock_points-keeps env id w = ground arith

get_unlock_points-failed :
    (env : Env) (id : ℕ) (w : World) (e : Error)
    → (get_unlock_points env id w).0 ≡ err e
    → e ≡ failed
unfolding get_unlock_points select_unlock_points
get_unlock_points-failed env id w e h = ground arith

-- A row put at a cell, which names no cell to go back to any more and is the same otherwise.
pub record PutBack (c : Cell) (p p' : ProgressRow) : Type 0 where
  pub position : p'.position ≡ c
  pub prev_row : p'.prev_row ≡ none
  pub prev_col : p'.prev_col ≡ none
  pub rest : p ≡ record p' { position = p.position; prev_row = p.prev_row; prev_col = p.prev_col }

-- The player's row, which names a cell to go back to, is put there and names none any more.
pub record Retreats (user_id dungeon_id : ℕ) (d : Db) (c : Cell) (d' : Db) : Type 0 where
  pub progress : ProgressRow
  pub saved : select (progress_is user_id dungeon_id) d.dungeon_progress ≡ some progress
  pub previous : both progress.prev_row progress.prev_col ≡ some c
  pub stored : d' ≡ record d {
    dungeon_progress = update (progress_is user_id dungeon_id) (retreated c) d.dungeon_progress;
  }
  pub effect :
      Changed (progress_is user_id dungeon_id) (PutBack c) d.dungeon_progress d'.dungeon_progress

-- A player without a saved row, or whose row names no cell to go back to, stays at the dungeon's start or
-- at the row's position.
pub record Stays (user_id dungeon_id : ℕ) (start : Cell) (d : Db) (c : Cell) : Type 0 where
  pub stays :
      ((select (progress_is user_id dungeon_id) d.dungeon_progress ≡ none) × (c ≡ start))
      ⊎ ((p : ProgressRow) × (select (progress_is user_id dungeon_id) d.dungeon_progress ≡ some p)
          × (both p.prev_row p.prev_col ≡ none)
          × (c ≡ p.position))

retreated-PutBack : (c : Cell) (p : ProgressRow) → PutBack c p (retreated c p)
unfolding retreated
retreated-PutBack c p = record { position = refl; prev_row = refl; prev_col = refl; rest = refl }

module _ (env : Env) (user_id dungeon_id : ℕ) where
  retreat_transaction-Retreats :
      (start : Cell) (w : World) (c : Cell) (e : Option ℤ)
      → (retreat_transaction env user_id dungeon_id start w).0 ≡ ok (commit (c, e))
      → (e ≡ none)
        × Retreats user_id dungeon_id w.db c
            (retreat_transaction env user_id dungeon_id start w).1.db
  unfolding retreat_transaction select_progress update_progress stay
  retreat_transaction-Retreats start w c e h =
      elim (Option-cases (select (progress_is user_id dungeon_id) w.db.dungeon_progress)) [
        | inl n ↦ absurd (ground arith)
        | inr (p, n) ↦ elim (Option-cases (both p.prev_row p.prev_col)) [
          | inl b ↦ absurd (ground arith)
          | inr (c', b) ↦ (
            ground arith,
            record {
              progress = p;
              saved = n;
              previous = ground arith;
              stored = ground arith;
              effect =
                  subst (Changed (progress_is user_id dungeon_id) (PutBack c) w.db.dungeon_progress)
                    (sym (ground arith))
                    (Changed-update (progress_is user_id dungeon_id) (PutBack c) (retreated c)
                      w.db.dungeon_progress (retreated-PutBack c));
            },
          )
        ]
      ]

  stay_lem :
      (at : Cell) (w : World) (c : Cell) (e : Option ℤ)
      → (stay env user_id at w).0 ≡ ok (rollback (c, e))
      → ((n : ℤ) × (e ≡ some n)) × (c ≡ at)
  unfolding stay
  stay_lem at w c e h = elim (Result-cases (get_unlock_points env user_id w).0) [
    | inl (x, n) ↦ absurd (ground arith)
    | inr (x, n) ↦ ((x, ground arith), ground arith)
  ]

  retreat_transaction-Stays :
      (start : Cell) (w : World) (c : Cell) (e : Option ℤ)
      → (retreat_transaction env user_id dungeon_id start w).0 ≡ ok (rollback (c, e))
      → ((n : ℤ) × (e ≡ some n)) × Stays user_id dungeon_id start w.db c
  unfolding retreat_transaction select_progress update_progress
  retreat_transaction-Stays start w c e h =
      let next : World = record w { clock = w.clock + 1 } in
      elim (Option-cases (select (progress_is user_id dungeon_id) w.db.dungeon_progress)) [
        | inl n ↦
            let (x, is) = stay_lem start next c e (ground arith) in
            (x, record { stays = inl (n, is) })
        | inr (p, n) ↦ elim (Option-cases (both p.prev_row p.prev_col)) [
          | inl b ↦
              let (x, is) = stay_lem p.position next c e (ground arith) in
              (x, record { stays = inr (p, n, b, is) })
          | inr (c', b) ↦ absurd (ground arith)
        ]
      ]

  module _ (w : World) where
    -- RetreatDungeon changes no table and returns an error, or the cell where a player stays who has
    -- none to go back to; or it takes the player back and returns that cell, or an error if only the
    -- balance could not be read.
    abbrev pub RetreatOutcome : Type 0
    RetreatOutcome =
        let (r, w') = retreat_dungeon env user_id dungeon_id w in
        ((w'.db ≡ w.db)
          × (((x : Error) × (r ≡ err x))
              ⊎ ((row : DungeonRow) × (c : Cell) × (e : ℤ) × (select (dungeon_is dungeon_id)
                      w.db.dungeons
                    ≡ some row)
                  × Stays user_id dungeon_id row.start w.db c
                  × (r ≡ ok (c, e)))))
        ⊎ ((c : Cell) × Retreats user_id dungeon_id w.db c w'.db
            × ((r ≡ err failed) ⊎ ((e : ℤ) × (r ≡ ok (c, e)))))

    module _ (row : DungeonRow) (url : String)
        (n : (get_dungeon_row env dungeon_id w).0 ≡ ok (row, url)) where
      abbrev body : Action (Ending (Cell × Option ℤ))
      body = retreat_transaction env user_id dungeon_id row.start

      abbrev loaded : World
      loaded = (get_dungeon_row env dungeon_id w).1

      abbrev after : Result (Cell × Option ℤ) × World
      after = transaction env body loaded

      keeps : (retreat_dungeon env user_id dungeon_id w).1.db ≡ after.1.db
      unfolding retreat_dungeon
      keeps = elim (Result-cases after.0) [
        | inl (e, h) ↦ ground arith
        | inr ((c, none), h) ↦ ground (arith, get_unlock_points-keeps env user_id after.1)
        | inr ((c, some e), h) ↦ ground arith
      ]

      answer :
          (c : Cell)
          → after.0 ≡ ok (c, none)
          → ((retreat_dungeon env user_id dungeon_id w).0 ≡ err failed)
            ⊎ ((e : ℤ) × ((retreat_dungeon env user_id dungeon_id w).0 ≡ ok (c, e)))
      unfolding retreat_dungeon
      answer c h = elim (Result-cases (get_unlock_points env user_id after.1).0) [
        | inl (e, g) ↦ inl (ground (arith, get_unlock_points-failed env user_id after.1 e))
        | inr (e, g) ↦ inr (e, ground arith)
      ]

      failed_too :
          (x : Error) → after.0 ≡ err x → (retreat_dungeon env user_id dungeon_id w).0 ≡ err x
      unfolding retreat_dungeon
      failed_too x h = ground arith

      stays_too :
          (c : Cell) (e : ℤ)
          → after.0 ≡ ok (c, some e)
          → (retreat_dungeon env user_id dungeon_id w).0 ≡ ok (c, e)
      unfolding retreat_dungeon
      stays_too c e h = ground arith

      stayed :
          (v : Cell × Option ℤ)
          → (body (begun env body loaded)).0 ≡ ok (rollback v)
          → after.0 ≡ ok v
          → after.1.db ≡ loaded.db
          → RetreatOutcome
      stayed (c, o) h r u =
          let ((e, is), t) = retreat_transaction-Stays row.start (begun env body loaded) c o h in
          inl (
            keeps ∙ u ∙ get_dungeon_row-keeps env dungeon_id w,
            inr (
              row,
              c,
              e,
              get_dungeon_row-found env dungeon_id w row url n,
              subst (λ d. Stays user_id dungeon_id row.start d c)
                  (get_dungeon_row-keeps env dungeon_id w) t,
              stays_too c e (r ∙ ap (λ x. ok (c, x)) is),
            ),
          )

      taken_back :
          (v : Cell × Option ℤ)
          → (body (begun env body loaded)).0 ≡ ok (commit v)
          → after.0 ≡ ok v
          → after.1.db ≡ (body (begun env body loaded)).1.db
          → RetreatOutcome
      taken_back (c, e) h r u =
          let t = retreat_transaction-Retreats row.start (begun env body loaded) c e h in
          inr (
            c,
            subst (Retreats user_id dungeon_id w.db c) (sym u ∙ sym keeps) (
                subst (λ d. Retreats user_id dungeon_id d c (body (begun env body loaded)).1.db)
                  (get_dungeon_row-keeps env dungeon_id w) t.1),
            answer c (ground (arith, t.0)),
          )

      loaded_row : RetreatOutcome
      loaded_row = elim (transaction_outcome env body loaded) [
        | inl a ↦ inl (
          keeps ∙ a.unchanged ∙ get_dungeon_row-keeps env dungeon_id w,
          inl (a.error, failed_too a.error a.returned),
        )
        | inr (inl r) ↦ stayed r.value r.ended r.returned r.unchanged
        | inr (inr t) ↦ taken_back t.value t.ended t.returned t.done
      ]

    pub retreat_dungeon-RetreatOutcome : RetreatOutcome
    unfolding retreat_dungeon
    retreat_dungeon-RetreatOutcome = elim (Result-cases (get_dungeon_row env dungeon_id w).0) [
      | inl (e, n) ↦
          inl (ground (arith, get_dungeon_row-keeps env dungeon_id w), inl (e, ground arith))
      | inr ((row, url), n) ↦ loaded_row row url n
    ]
