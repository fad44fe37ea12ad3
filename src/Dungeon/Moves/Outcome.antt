-- ===== src/Dungeon/Moves/Outcome.antt =====
-- Every way in which MoveDungeon can end.
use magic_jigsaw.Prelude.{
  ◌∙◌, sym, if◌then◌else◌, subst, ◌≢◌, String, List, ℕ, ◌≡◌, ◌⊎◌, inl, inr, true, none, some, arith,
  ℤ, Option, Bool-cases, refl,
}
use magic_jigsaw.Db.Schema.{MonsterRow, ProgressRow, Db, Cell, DungeonRow}
use magic_jigsaw.Db.Action.{
  inactive, invalid_move, begun, Action, rollback, Ending, ◌>>=◌, commit, Env, World, Result, Error,
  ok, err, failed, transaction, Result-cases, transaction_outcome,
}
use magic_jigsaw.Dungeon.Grid.{has_cell, has_cell-In}
use magic_jigsaw.Dungeon.Statements.{update_progress, dungeon_is, select_dungeon, select_monster_at}
use magic_jigsaw.Dungeon.Store.{
  has_text, DungeonMoveResult, get_dungeon_row, get_monster_at_cell, move_transaction, move_dungeon,
  load_progress, pay_and_step,
}
use magic_jigsaw.Dungeon.Moves.Step.{Loads, Pays, Step, load_progress-Loads, pay_and_step-Pays}
use magic_jigsaw.Db.Table.{select}

-- An error, or `ok` false.
abbrev pub Refused : Result (Option DungeonMoveResult) → Type 0
Refused r = ((e : Error) × (r ≡ err e)) ⊎ (r ≡ ok none)

-- What is returned once a move is committed: the new cell and balance, or an error of the last
-- statement, which looks for a monster.
abbrev pub Reports : Cell → ℤ → Result (Option DungeonMoveResult) → Type 0
Reports target balance r =
    (r ≡ err failed)
    ⊎ ((m : DungeonMoveResult) × (r ≡ ok (some m)) × (m.position ≡ target) × (m.energy ≡ balance))

module _ (env : Env) where
  pub get_dungeon_row-keeps : (id : ℕ) (w : World) → (get_dungeon_row env id w).1.db ≡ w.db
  unfolding get_dungeon_row select_dungeon
  get_dungeon_row-keeps id w = ground arith

  pub get_dungeon_row-found :
      (id : ℕ) (w : World) (row : DungeonRow) (url : String)
      → (get_dungeon_row env id w).0 ≡ ok (row, url)
      → select (dungeon_is id) w.db.dungeons ≡ some row
  unfolding get_dungeon_row select_dungeon
  get_dungeon_row-found id w row url h = ground arith

  get_monster_at_cell-keeps :
      (id : ℕ) (cell : Cell) (w : World) → (get_monster_at_cell env id cell w).1.db ≡ w.db
  unfolding get_monster_at_cell select_monster_at
  get_monster_at_cell-keeps id cell w = ground arith

  get_monster_at_cell-failed :
      (id : ℕ) (cell : Cell) (w : World) (e : Error)
      → (get_monster_at_cell env id cell w).0 ≡ err e
      → e ≡ failed
  unfolding get_monster_at_cell select_monster_at
  get_monster_at_cell-failed id cell w e h = ground arith

  move_transaction-Pays :
      (user_id dungeon_id : ℕ) (start target : Cell) (w : World) (balance : ℤ) (ds : List String)
      → (move_transaction env user_id dungeon_id start target w).0
        ≡ ok (commit (some (balance, ds)))
      → (p : ProgressRow) × (d : Db) × Loads user_id dungeon_id start w.db p d
        × Pays user_id dungeon_id target p d balance
            (move_transaction env user_id dungeon_id start target w).1.db
  unfolding move_transaction
  move_transaction-Pays user_id dungeon_id start target w balance ds h =
      elim (Result-cases (load_progress env user_id dungeon_id start w).0) [
        | inl (e, n) ↦ absurd (ground arith)
        | inr (p, n) ↦ (
          p,
          (load_progress env user_id dungeon_id start w).1.db,
          load_progress-Loads env user_id dungeon_id start w p n,
          rw (n, ◌>>=◌)
              (pay_and_step-Pays env user_id dungeon_id target p
                (load_progress env user_id dungeon_id start w).1 balance ds (ground arith)),
        )
      ]

-- Without payment the body asks for no commit, and with it for nothing else.
abbrev WellEnded : {A : Type 0} → Result (Ending (Option A)) → Type 0
WellEnded (err e) = Unit
WellEnded (ok (rollback o)) = o ≡ none
WellEnded (ok (commit o)) = o ≢ none

module _ (env : Env) (user_id dungeon_id : ℕ) (target : Cell) where
  pay_and_step-WellEnded :
      (p : ProgressRow) (w : World) → WellEnded (pay_and_step env user_id dungeon_id target p w).0
  unfolding pay_and_step update_progress
  pay_and_step-WellEnded p w = ground arith

  move_transaction-WellEnded :
      (start : Cell) (w : World)
      → WellEnded (move_transaction env user_id dungeon_id start target w).0
  unfolding move_transaction
  move_transaction-WellEnded start w =
      elim (Result-cases (load_progress env user_id dungeon_id start w).0) [
        | inl (e, n) ↦ rw (n, ◌>>=◌) tt
        | inr (p, n) ↦
            rw (n, ◌>>=◌)
              (pay_and_step-WellEnded p (load_progress env user_id dungeon_id start w).1)
      ]

-- The result of a committed move, with the monster that was found, unless it is defeated.
abbrev reported : Env → Cell → ℤ → List String → Option (MonsterRow × String) → DungeonMoveResult
reported env target balance ds found = record {
  position = target;
  energy = balance;
  monster = elim found [
    | none ↦ none
    | some m ↦ if has_text (env.uuid_string m.0.id) ds then none else some m
  ];
}

module _ (env : Env) (user_id dungeon_id : ℕ) (target : Cell) (w : World) where
  -- MoveDungeon changes no table and returns an error or `ok` false, or it commits a move.
  abbrev pub MoveOutcome : Type 0
  MoveOutcome =
      let (r, w') = move_dungeon env user_id dungeon_id target w in
      ((w'.db ≡ w.db) × Refused r)
      ⊎ ((balance : ℤ) × Step user_id dungeon_id target w.db balance w'.db
          × Reports target balance r)

  -- The answers after the dungeon is loaded, is active, and has the target on its path.
  module _ (row : DungeonRow) (url : String)
      (n : (get_dungeon_row env dungeon_id w).0 ≡ ok (row, url)) (act : row.active ≡ true)
      (on : has_cell target row.path ≡ true) where
    abbrev body : Action (Ending (Option (ℤ × List String)))
    body = move_transaction env user_id dungeon_id row.start target

    abbrev loaded : World
    loaded = (get_dungeon_row env dungeon_id w).1

    abbrev after : Result (Option (ℤ × List String)) × World
    after = transaction env body loaded

    abbrev ran : Result (Ending (Option (ℤ × List String))) × World
    ran = body (begun env body loaded)

    unpaid :
        (v : Option (ℤ × List String))
        → ran.0 ≡ ok (rollback v)
        → after.0 ≡ ok v
        → after.1.db ≡ loaded.db
        → MoveOutcome
    unfolding move_dungeon
    unpaid none e r u =
        inl (ground (arith, get_dungeon_row-keeps env dungeon_id w), inr (ground arith))
    unpaid (some v) e r u = absurd (
        cc (
          subst WellEnded e (
            move_transaction-WellEnded env user_id dungeon_id target row.start
              (begun env body loaded))))

    step :
        (balance : ℤ) (ds : List String)
        → ran.0 ≡ ok (commit (some (balance, ds)))
        → Step user_id dungeon_id target w.db balance ran.1.db
    step balance ds e =
        let t =
          move_transaction-Pays env user_id dungeon_id row.start target (begun env body loaded)
            balance ds e in
        record {
          row = row;
          found = get_dungeon_row-found env dungeon_id w row url n;
          active = act;
          on_path = has_cell-In target row.path on;
          progress = t.0;
          loaded = t.1;
          loads =
              subst (λ d. Loads user_id dungeon_id row.start d t.0 t.1)
                (get_dungeon_row-keeps env dungeon_id w) t.2;
          pays = t.3;
        }

    reports :
        (balance : ℤ) (ds : List String)
        → after.0 ≡ ok (some (balance, ds))
        → Reports target balance (move_dungeon env user_id dungeon_id target w).0
    unfolding move_dungeon
    reports balance ds r =
        elim (Result-cases (get_monster_at_cell env dungeon_id target after.1).0) [
          | inl (e, g) ↦
              inl (ground (arith, get_monster_at_cell-failed env dungeon_id target after.1 e))
          | inr (found, g) ↦ inr (reported env target balance ds found, ground arith, refl, refl)
        ]

    keeps :
        (balance : ℤ) (ds : List String)
        → after.0 ≡ ok (some (balance, ds))
        → (move_dungeon env user_id dungeon_id target w).1.db ≡ after.1.db
    unfolding move_dungeon
    keeps balance ds r = ground (arith, get_monster_at_cell-keeps env dungeon_id target after.1)

    paid :
        (v : Option (ℤ × List String))
        → ran.0 ≡ ok (commit v)
        → after.0 ≡ ok v
        → after.1.db ≡ ran.1.db
        → MoveOutcome
    paid none e r u = absurd (
        subst WellEnded e
          (move_transaction-WellEnded env user_id dungeon_id target row.start
            (begun env body loaded))
          refl)
    paid (some (balance, ds)) e r u = inr (
      balance,
      subst (Step user_id dungeon_id target w.db balance) (sym u ∙ sym (keeps balance ds r))
          (step balance ds e),
      reports balance ds r,
    )

    loaded_row : MoveOutcome
    unfolding move_dungeon
    loaded_row = elim (transaction_outcome env body loaded) [
      | inl a ↦ inl (
        ground (arith, a.returned, a.unchanged, get_dungeon_row-keeps env dungeon_id w),
        inl (a.error, ground (arith, a.returned)),
      )
      | inr (inl r) ↦ unpaid r.value r.ended r.returned r.unchanged
      | inr (inr c) ↦ paid c.value c.ended c.returned c.done
    ]

  -- However the statements of MoveDungeon go, it ends in one of two ways. Either it changes no table
  -- and returns an error or `ok` false. Or it commits one step: the dungeon is active, the target
  -- lies on its path next to the player's cell, the dungeon is not completed, one point is paid, the
  -- player's row, made first if there was none, is put at the target, with the cell before it as the
  -- previous one and the target among the visited cells, and is the same otherwise, no other row changes,
  -- and it returns the target and the balance, or an error if only the look for a monster failed.
  pub move_dungeon-MoveOutcome : MoveOutcome
  unfolding move_dungeon
  move_dungeon-MoveOutcome = elim (Result-cases (get_dungeon_row env dungeon_id w).0) [
    | inl (e, n) ↦
        inl (ground (arith, get_dungeon_row-keeps env dungeon_id w), inl (e, ground arith))
    | inr ((row, url), n) ↦ elim (Bool-cases row.active) [
      | inl act ↦ elim (Bool-cases (has_cell target row.path)) [
        | inl on ↦ loaded_row row url n act on
        | inr off ↦ inl (
          ground (arith, get_dungeon_row-keeps env dungeon_id w),
          inl (invalid_move, ground arith),
        )
      ]
      | inr shut ↦
          inl (ground (arith, get_dungeon_row-keeps env dungeon_id w), inl (inactive, ground arith))
    ]
  ]
