-- ===== src/Expedition/Levels/Changes.antt =====
-- internal/api/expedition.go: an abstract campaign, which is a number of levels, and the admins'
-- handlers as its changes.
use magic_jigsaw.Expedition.Levels.Playable.{Campaign, Campaign-delete}
use magic_jigsaw.Expedition.Levels.Numbering.{NumberedTo, max_index-NumberedTo}
use magic_jigsaw.Expedition.Levels.Store.{
  LevelDeletion, delete_level_transaction, delete_last_expedition_level, expedition_level_count,
}
use magic_jigsaw.Expedition.Levels.Statements.{
  index_is, delete_level, max_index, count_played, select_max_index, played_at,
}
use magic_jigsaw.Expedition.Levels.Handlers.{
  handle_admin_update_expedition_config, handle_admin_delete_expedition_level,
  handle_admin_create_expedition_level, level_from_path, ConfigRequest, Texts,
}
use magic_jigsaw.Prelude.{
  ℕ, zero, suc, ◌+◌, ◌≡◌, ◌≤◌, ◌<◌, ◌⊎◌, inl, inr, refl, sym, ap, subst, ◌∙◌, Bool, true, false,
  Option, none, some, List, String, ℤ, pos, negsuc, ◌==◌, arith, ltb, length,
}
use magic_jigsaw.Db.Table.{select_all, delete}
use magic_jigsaw.Db.Schema.{LevelRow, Db}
use magic_jigsaw.Db.Action.{
  Env, World, Result-cases, commit, rollback, begun, ok, execute, transaction_outcome,
}
use magic_jigsaw.Http.Handler.{Answer, answered, refused}

pub data LevelRequest : Type 0 where
  creates : LevelRequest
  deletes : Option ℤ → LevelRequest
  configures : Option ℤ → ConfigRequest → LevelRequest

pub data LevelReply : Type 0 where
  created : ℕ → LevelReply
  removed : LevelReply
  configured : ℕ → LevelReply

-- What a request may do to a campaign of n levels: it is refused and changes nothing, or adds the level
-- n + 1 to less than a thousand, or removes the n-th, which nobody has played and which is not the
-- first, or configures one of the levels.
pub data Change (played : ℕ → Bool) : ℕ → LevelRequest → Answer LevelReply → ℕ → Type 0 where
  refuses : {n : ℕ} {r : LevelRequest} (s : ℕ) (c : String) → Change played n r (refused s c) n
  adds : {n : ℕ} → n < 1000 → Change played n creates (answered (created (n + 1))) (n + 1)
  removes :
      {n : ℕ}
      → 1 ≤ n
      → played (suc n) ≡ false
      → Change played (suc n) (deletes (some (pos (suc n)))) (answered removed) n
  configs :
      {n k : ℕ} {c : ConfigRequest}
      → 1 ≤ k
      → k ≤ n
      → Change played n (configures (some (pos k)) c) (answered (configured k)) n

abbrev pub level_rows : World → List LevelRow
level_rows w = w.db.expedition_levels

-- Has somebody played the level?
abbrev pub is_played : Db → ℕ → Bool
is_played d i = ltb 0 (length (select_all (played_at i) d.expedition_progress))

pub removal :
    (n level : ℕ) (played : ℕ → Bool) (rows rows' : List LevelRow)
    → Campaign n rows
    → level ≡ n
    → (level == 1) ≡ false
    → 1 ≤ level
    → played level ≡ false
    → rows' ≡ delete (index_is level) rows
    → (n' : ℕ) × Change played n (deletes (some (pos level))) (answered removed) n'
      × Campaign n' rows'
removal zero level played rows rows' h is not_first low p e = absurd (omega (arith, is, low))
removal (suc m) level played rows rows' h is not_first low p e =
    subst
      (λ l.
        (n' : ℕ) × Change played (suc m) (deletes (some (pos l))) (answered removed) n'
        × Campaign n' rows')
      (sym is)
      (
        m,
        removes (ground (arith, is)) (subst (λ l. played l ≡ false) is p),
        subst (Campaign m) (sym (e ∙ ap (λ l. delete (index_is l) rows) is))
            (Campaign-delete m rows h),
      )

abbrev pub reply_with :
    {A : Type 0} → (A → LevelReply) → Answer A × World → Answer LevelReply × World
reply_with f (answered a, w) = (answered (f a), w)
reply_with f (refused s c, w) = (refused s c, w)

module _ (env : Env) where
  abbrev pub level_request : Texts → LevelRequest → World → Answer LevelReply × World
  level_request texts creates w = reply_with created (handle_admin_create_expedition_level env w)
  level_request texts (deletes path) w =
      reply_with (λ _. removed) (handle_admin_delete_expedition_level env path w)
  level_request texts (configures path c) w =
      reply_with configured (handle_admin_update_expedition_config env texts path c w)

  module _ (n : ℕ) where
    -- What is known after steps that change no table.
    abbrev Untouched : World → World → Type 0
    Untouched w w' = w'.db ≡ w.db

    pub count_reads : (w : World) → Untouched w (expedition_level_count env w).1
    unfolding expedition_level_count execute select_max_index
    count_reads w = ground arith

    pub count_answers :
        (w : World) (k : ℕ)
        → NumberedTo n (level_rows w)
        → (expedition_level_count env w).0 ≡ ok k
        → k ≡ n
    unfolding expedition_level_count execute select_max_index
    count_answers w k h e = ground (arith, max_index-NumberedTo n (level_rows w) h)

    -- A path is refused, or it is one of the levels.
    pub path_cases :
        (path : Option ℤ) (w : World)
        → NumberedTo n (level_rows w)
        → let (r, w') = level_from_path env path w in
          Untouched w w' × ((k : ℕ) → r ≡ answered k → (path ≡ some (pos k)) × (1 ≤ k) × (k ≤ n))
    unfolding level_from_path
    path_cases none w h = (refl, λ k e. ground arith)
    path_cases (some (negsuc i)) w h = (refl, λ k e. ground arith)
    path_cases (some (pos i)) w h = elim (Result-cases (expedition_level_count env w).0) [
      | inl (e, r) ↦ (ground (arith, count_reads w), λ k a. ground arith)
      | inr (c, r) ↦ (ground (arith, count_reads w), λ k a. ground (arith, count_answers w c h r))
    ]

  -- How DeleteLastExpeditionLevel can end.
  pub record Deletes (level : ℕ) (v : LevelDeletion) (d d' : Db) : Type 0 where
    pub reported : v.deleted ≡ true
    pub is_last : level ≡ max_index d.expedition_levels
    pub unplayed : is_played d level ≡ false
    pub done : d' ≡ record d { expedition_levels = delete (index_is level) d.expedition_levels }

  deletion_ran :
      (level : ℕ) (w : World) (v : LevelDeletion)
      → (delete_level_transaction env level w).0 ≡ ok (commit v)
      → Deletes level v w.db (delete_level_transaction env level w).1.db
  unfolding delete_level_transaction execute select_max_index count_played delete_level
  deletion_ran level w v h = record {
    reported = ground arith;
    is_last = ground arith;
    unplayed = ground arith;
    done = ground arith;
  }

  deletion_kept :
      (level : ℕ) (w : World) (v : LevelDeletion)
      → (delete_level_transaction env level w).0 ≡ ok (rollback v)
      → v.deleted ≡ false
  unfolding delete_level_transaction execute select_max_index count_played delete_level
  deletion_kept level w v h = ground arith

  pub delete_outcome :
      (level : ℕ) (w : World)
      → let (r, w') = delete_last_expedition_level env level w in
        ((w'.db ≡ w.db) × ((v : LevelDeletion) → r ≡ ok v → v.deleted ≡ false))
        ⊎ ((v : LevelDeletion) × (r ≡ ok v) × Deletes level v w.db w'.db)
  unfolding delete_last_expedition_level
  delete_outcome level w =
      let body = delete_level_transaction env level in
      elim (transaction_outcome env body w) [
        | inl a ↦ inl (a.unchanged, λ v e. ground (arith, a.returned))
        | inr (inl r) ↦ inl (
          r.unchanged,
          λ v e. ground (arith, r.returned, deletion_kept level (begun env body w) r.value r.ended),
        )
        | inr (inr t) ↦ inr (
          t.value,
          t.returned,
          subst (Deletes level t.value w.db) (sym t.done)
              (deletion_ran level (begun env body w) t.value t.ended),
        )
      ]
