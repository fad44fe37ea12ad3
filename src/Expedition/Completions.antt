-- ===== src/Expedition/Completions.antt =====
-- internal/api/expedition.go: what handleCompleteExpedition may do to the tables, and when it pays.
use magic_jigsaw.Dungeon.Credit.{credit_outcome, PaysXp}
use magic_jigsaw.Http.Leaves.{Leaves-respond, Leaves-bind}
use magic_jigsaw.Expedition.Levels.Queries.{table_tiers}
use magic_jigsaw.Expedition.Play.{in_play, complete_expedition_level, update_cleared}
use magic_jigsaw.Expedition.Handlers.{
  load_expedition_state, handle_complete_expedition, complete_after, pieces, complete_open, at_most,
  FinishRequest,
}
use magic_jigsaw.Prelude.{◌<ℤ◌}
use magic_jigsaw.Prelude.{
  ℕ, ◌≡◌, ◌⊎◌, inl, inr, refl, sym, ap, subst, ◌∙◌, Bool, true, ◌&&◌, Option, none, some, ℤ, pos,
  int_lt, arith,
}
use magic_jigsaw.Db.Table.{exists}
use magic_jigsaw.Db.Schema.{Db}
use magic_jigsaw.Db.Action.{execute_ok, execute_err, Env, World}
use magic_jigsaw.Http.Handler.{Answer, calls_bind}
use magic_jigsaw.Expedition.Sessions.{Opens, gated_outcome, load_expedition_state-Leaves}
use magic_jigsaw.Dungeon.Handler.{credit_xp}
use magic_jigsaw.Expedition.Tiers.{ExpeditionTier}

-- The statement that completes the level of the path, which is open to the user, has run; and the
-- level's XP are paid at most if they are positive and it moved a row of the user's that was in
-- progress.
pub record Completes (user_id : ℕ) (path : Option ℤ) (req : FinishRequest) (d d' : Db)
    : Type 0 where
  pub level : ℕ
  pub opens : Opens user_id path level d
  pub first : Bool
  pub between : Db
  pub done :
      update_cleared user_id
        (pos level)
        req.elapsed_seconds
        (at_most (pieces (table_tiers d level)) req.correct_pieces)
        d
      ≡ some (first, between)
  pub paid :
      (d' ≡ between)
      ⊎ ((exists (in_play user_id (pos level)) d.expedition_progress ≡ true)
          × (pos 0 <ℤ (table_tiers d level).xp_reward)
          × PaysXp user_id (table_tiers d level).xp_reward between d')

update_cleared_first :
    (user_id : ℕ) (level elapsed correct : ℤ) (d d' : Db)
    → update_cleared user_id level elapsed correct d ≡ some (true, d')
    → exists (in_play user_id level) d.expedition_progress ≡ true
unfolding update_cleared
update_cleared_first user_id level elapsed correct d d' h = ground arith

module _ (env : Env) (user_id : ℕ) where
  after_credit :
      (t : ExpeditionTier) (first : Bool) (v : World)
      → (complete_after env user_id t first v).1.db
        ≡ (credit_xp env (first && int_lt (pos 0) t.xp_reward) user_id t.xp_reward v).1.db
  after_credit t first v =
      (Leaves-bind (load_expedition_state env user_id) _ (load_expedition_state-Leaves env user_id)
          (λ state. Leaves-respond _)).at
        (credit_xp env (first && int_lt (pos 0) t.xp_reward) user_id t.xp_reward v).1

  module _ (path : Option ℤ) (req : FinishRequest) (d : Db) (level : ℕ) (first : Bool) (v : World)
      (o : Opens user_id path level d) where
    -- After the statement: what is credited.
    completed :
        update_cleared user_id
            (pos level)
            req.elapsed_seconds
            (at_most (pieces (table_tiers d level)) req.correct_pieces)
            d
          ≡ some (first, v.db)
        → Completes user_id path req d
            (complete_after env user_id (table_tiers d level) first v).1.db
    completed done =
        let t = table_tiers d level in
        elim (credit_outcome env user_id (first && int_lt (pos 0) t.xp_reward) t.xp_reward v) [
          | inl u ↦ record {
            level = level;
            opens = o;
            first = first;
            between = v.db;
            done = done;
            paid = inl (after_credit t first v ∙ u);
          }
          | inr (b, pays) ↦ record {
            level = level;
            opens = o;
            first = first;
            between = v.db;
            done = done;
            paid = inr (
              update_cleared_first user_id (pos level) req.elapsed_seconds
                  (at_most (pieces t) req.correct_pieces) d v.db
                  (subst
                    (λ f.
                      update_cleared user_id (pos level) req.elapsed_seconds
                        (at_most (pieces t) req.correct_pieces) d
                      ≡ some (f, v.db))
                    (ground (arith, b)) done),
              ground (arith, b),
              subst (PaysXp user_id t.xp_reward v.db) (sym (after_credit t first v)) pays,
            );
          }
        ]

  module _ (path : Option ℤ) (body : Option FinishRequest) (w : World) where
    abbrev CompletesOrNot : {A : Type 0} → Answer A × World → Type 0
    CompletesOrNot x =
        (x.1.db ≡ w.db)
        ⊎ ((req : FinishRequest) × (body ≡ some req) × Completes user_id path req w.db x.1.db)

    complete_open_outcome :
        (b : Option FinishRequest) (level : ℕ) (w1 : World)
        → b ≡ body
        → w1.db ≡ w.db
        → Opens user_id path level w.db
        → CompletesOrNot (complete_open env user_id level (table_tiers w.db level) b w1)
    unfolding complete_expedition_level
    complete_open_outcome none level w1 e same o = inl same
    complete_open_outcome (some req) level w1 e same o =
        let t = table_tiers w.db level in
        let correct = at_most (pieces t) req.correct_pieces in
        let s = update_cleared user_id (pos level) req.elapsed_seconds correct in
        let m = complete_expedition_level env user_id (pos level) req.elapsed_seconds correct in
        calls_bind CompletesOrNot m 500 "internal" (complete_after env user_id t) w1
          (λ err h. inl (execute_err env s w1 err h ∙ same))
          (λ first h. inr (
            req,
            sym e,
            completed path req w.db level first (m w1).1 o
                (ap s (sym same) ∙ execute_ok env s w1 first h),
          ))

    -- However its statements go, handleCompleteExpedition changes no table, or the level of the path is
    -- one of the campaign's that is open to the user with the stars that the user holds, the statement
    -- that completes it has run, and beyond it at most the level's XP were added to the user's and nothing
    -- else changed, and that only if they are positive and the user had started the level and not ended it.
    pub handle_complete_expedition_outcome :
        CompletesOrNot (handle_complete_expedition env user_id path body w)
    unfolding handle_complete_expedition
    handle_complete_expedition_outcome =
        gated_outcome env user_id path w CompletesOrNot
          (λ level tiers. complete_open env user_id level (tiers level) body) (λ x same. inl same)
          (λ level w1 same o. complete_open_outcome body level w1 refl same o)
