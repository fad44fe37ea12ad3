-- ===== src/Expedition/Levels/Removal.antt =====
-- internal/api/expedition.go: what it means that an admin's request is answered as a change of an abstract
-- campaign, which is a number of levels, and handleAdminDeleteExpeditionLevel, which removes the last one.
use magic_jigsaw.Expedition.Levels.Playable.{Campaign}
use magic_jigsaw.Expedition.Levels.Changes.{
  removal, delete_outcome, path_cases, is_played, Change, removed, reply_with, refuses, LevelReply,
  deletes, LevelRequest, level_rows,
}
use magic_jigsaw.Expedition.Levels.Numbering.{max_index-NumberedTo}
use magic_jigsaw.Expedition.Levels.Store.{delete_last_expedition_level}
use magic_jigsaw.Expedition.Levels.Statements.{index_is, max_index}
use magic_jigsaw.Expedition.Levels.Handlers.{
  delete_refused, delete_after, delete_at, handle_admin_delete_expedition_level, level_from_path,
}
use magic_jigsaw.Prelude.{
  ℕ, ◌≡◌, ◌≤◌, inl, inr, sym, ap, subst, ◌∙◌, false, not, Option, some, String, ℤ, pos, ◌==◌, arith,
}
use magic_jigsaw.Db.Table.{delete}
use magic_jigsaw.Db.Schema.{Db}
use magic_jigsaw.Db.Action.{Env, World}
use magic_jigsaw.Http.Handler.{
  calls_bind, Answer, respond, answered, refused, bind_cases, unless_cases,
}

module _ (n : ℕ) (w : World) where
  -- The answer and the tables are those of a change of the abstract campaign.
  abbrev pub Refines : LevelRequest → Answer LevelReply × World → Type 0
  Refines r x = (n' : ℕ) × Change (is_played w.db) n r x.0 n' × Campaign n' (level_rows x.1)

  module _ (campaign : Campaign n (level_rows w)) where
    pub kept :
        (r : LevelRequest) (s : ℕ) (c : String) (w' : World)
        → w'.db ≡ w.db
        → Refines r (refused s c, w')
    kept r s c w' same =
        (n, refuses s c, subst (λ (d : Db). Campaign n d.expedition_levels) (sym same) campaign)

module _ (env : Env) (n : ℕ) (w : World) (campaign : Campaign n (level_rows w)) where
  delete-Refines :
      (path : Option ℤ) (level : ℕ) (w1 : World)
      → w1.db ≡ w.db
      → path ≡ some (pos level)
      → level ≤ n
      → (level == 1) ≡ false
      → 1 ≤ level
      → Refines n w (deletes path) (reply_with (λ _. removed) (delete_at env level w1))
  delete-Refines path level w1 same is high not_first low =
      let m = delete_last_expedition_level env level in
      let P : Answer (Unit {0}) × World → Type 0 =
        λ x. Refines n w (deletes path) (reply_with (λ _. removed) x) in
      elim (delete_outcome env level w1) [
        | inl (u, denied) ↦
            calls_bind P m 500 "internal" (delete_refused env) w1
              (λ e h. kept n w campaign (deletes path) 500 "internal" (m w1).1 (u ∙ same))
              (λ v h.
                unless_cases P (not v.deleted) 409 "delete_refused" (respond tt) (m w1).1
                  (λ t. kept n w campaign (deletes path) 409 "delete_refused" (m w1).1 (u ∙ same))
                  (λ t. absurd (ground (arith, denied v h))))
        | inr (v, h, c) ↦
            calls_bind P m 500 "internal" (delete_refused env) w1 (λ e h'. absurd (cc))
              (λ v' h'.
                unless_cases P (not v'.deleted) 409 "delete_refused" (respond tt) (m w1).1
                  (λ t. absurd (ground (arith, c.reported)))
                  (λ t.
                    subst
                      (λ (p : Option ℤ).
                        (n' : ℕ) × Change (is_played w.db) n (deletes p) (answered removed) n'
                        × Campaign n' (level_rows (m w1).1))
                      (sym is)
                      (removal n level (is_played w.db) (level_rows w) (level_rows (m w1).1)
                        campaign
                        (subst (λ (d : Db). level ≡ max_index d.expedition_levels) same c.is_last
                          ∙ max_index-NumberedTo n (level_rows w) campaign.numbered)
                        not_first low
                        (subst (λ (d : Db). is_played d level ≡ false) same c.unplayed)
                        (ap (λ (d : Db). d.expedition_levels) c.done
                          ∙ ap (λ (d : Db). delete (index_is level) d.expedition_levels) same))))
      ]

  pub handle_delete-Refines :
      (path : Option ℤ)
      → Refines n w
          (deletes path)
          (reply_with (λ _. removed) (handle_admin_delete_expedition_level env path w))
  unfolding handle_admin_delete_expedition_level
  handle_delete-Refines path =
      let (reads, is_level) = path_cases env n path w campaign.numbered in
      let P : Answer (Unit {0}) × World → Type 0 =
        λ x. Refines n w (deletes path) (reply_with (λ _. removed) x) in
      let w1 = (level_from_path env path w).1 in
      bind_cases P (level_from_path env path) (delete_after env) w
        (λ s c h. kept n w campaign (deletes path) s c w1 reads)
        (λ level h.
          unless_cases P (level == 1) 409 "level_required" (delete_at env level) w1
            (λ t. kept n w campaign (deletes path) 409 "level_required" w1 reads)
            (λ t.
              let (is, low, high) = is_level level h in
              delete-Refines path level w1 reads is high t low))
