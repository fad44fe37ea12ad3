-- ===== src/Expedition/Levels/Refinement.antt =====
-- internal/api/expedition.go: the admins' handlers as changes of an abstract campaign, which is a number of
-- levels.
use magic_jigsaw.Expedition.Levels.Removal.{Refines, kept, handle_delete-Refines}
use magic_jigsaw.Expedition.Levels.Playable.{
  PlayableRow, Campaign-append, Campaign-update, Campaign,
}
use magic_jigsaw.Expedition.Tiers.{LevelConfig}
use magic_jigsaw.Expedition.Levels.Changes.{
  configs, count_answers, adds, count_reads, path_cases, is_played, Change, configured, created,
  reply_with, level_request, deletes, LevelRequest, configures, creates, level_rows,
}
use magic_jigsaw.Expedition.Levels.Numbering.{max_index-NumberedTo}
use magic_jigsaw.Expedition.Levels.Store.{
  update_level_config, level_images, create_expedition_level, expedition_level_count,
}
use magic_jigsaw.Expedition.Levels.Statements.{
  with_config, select_level_images, empty_level, upsert_config, insert_next_level, index_is,
  max_index,
}
use magic_jigsaw.Expedition.Levels.Handlers.{
  bad_category, bad_config, shown, requested_config, configure_at, configure_after, create_after,
  max_expedition_levels, handle_admin_update_expedition_config,
  handle_admin_create_expedition_level, level_from_path, ConfigRequest, Texts,
}
use magic_jigsaw.Prelude.{
  ℕ, ◌+◌, ◌≡◌, ◌≤◌, ◌<◌, refl, sym, ap, subst, ◌∙◌, true, false, Option, some, List, [], ◌∷◌,
  String, ℤ, pos, arith, leb,
}
use magic_jigsaw.Db.Table.{update, exists}
use magic_jigsaw.Db.Schema.{LevelRow, Db}
use magic_jigsaw.Db.Action.{execute_err, execute_ok, Env, World, Error, ok, err, execute}
use magic_jigsaw.Http.Handler.{
  calls_bind, Answer, answered, calls, unless_refused, bind_cases, calls_cases, unless_cases,
}

requested-PlayableRow :
    (category : String) (c : ConfigRequest) (l : LevelRow)
    → bad_config c ≡ false
    → PlayableRow (with_config (requested_config category c) l)
requested-PlayableRow category c l h = record {
  star = ground arith;
  cols = ground arith;
  rows = ground arith;
  seconds = ground arith;
  xp = ground arith;
}

module _ (env : Env) where
  module _ (n : ℕ) (w : World) (campaign : Campaign n (level_rows w)) where
    inserted :
        (d d' : Db) (k : ℕ)
        → n < 1000
        → d ≡ w.db
        → insert_next_level d ≡ some (k, d')
        → (k ≡ n + 1) × Campaign (n + 1) d'.expedition_levels
    unfolding insert_next_level
    inserted d d' k lt same h =
        let is : max_index d.expedition_levels ≡ n =
          ap (λ (x : Db). max_index x.expedition_levels) same
          ∙ max_index-NumberedTo n (level_rows w) campaign.numbered in
        (
          ground (arith, is),
          subst (Campaign (n + 1)) (ground (arith, is)) (
              Campaign-append n (level_rows w) (empty_level (max_index d.expedition_levels + 1))
                (omega (arith, is))
                (record { star = tt; cols = tt; rows = tt; seconds = tt; xp = tt }) lt campaign),
        )

    insert_fails :
        (w1 : World) (e : Error)
        → (create_expedition_level env w1).0 ≡ err e
        → (create_expedition_level env w1).1.db ≡ w1.db
    unfolding create_expedition_level
    insert_fails w1 e h = execute_err env insert_next_level w1 e h

    insert_answers :
        (w1 : World) (k : ℕ)
        → n < 1000
        → w1.db ≡ w.db
        → (create_expedition_level env w1).0 ≡ ok k
        → (k ≡ n + 1) × Campaign (n + 1) (level_rows (create_expedition_level env w1).1)
    unfolding create_expedition_level
    insert_answers w1 k lt same h =
        inserted w1.db (create_expedition_level env w1).1.db k lt same
          (execute_ok env insert_next_level w1 k h)

    handle_create-Refines :
        Refines n w creates (reply_with created (handle_admin_create_expedition_level env w))
    unfolding handle_admin_create_expedition_level
    handle_create-Refines =
        let P : Answer ℕ × World → Type 0 = λ x. Refines n w creates (reply_with created x) in
        let w1 = (expedition_level_count env w).1 in
        let m = create_expedition_level env in
        calls_bind P (expedition_level_count env) 500 "internal" (create_after env) w
          (λ e h. kept n w campaign creates 500 "internal" w1 (count_reads env n w))
          (λ count h.
            unless_cases P (leb max_expedition_levels count) 409 "level_limit"
              (calls m 500 "internal") w1
              (λ t. kept n w campaign creates 409 "level_limit" w1 (count_reads env n w))
              (λ t.
                calls_cases P m 500 "internal" w1
                  (λ e h'.
                    kept n w campaign creates 500 "internal" (m w1).1
                      (insert_fails w1 e h' ∙ count_reads env n w))
                  (λ k h'.
                    let below : n < 1000 =
                      ground (arith, count_answers env n w count campaign.numbered h) in
                    let (is, more) = insert_answers w1 k below (count_reads env n w) h' in
                    (
                      n + 1,
                      subst (λ i. Change (is_played w.db) n creates (answered (created i)) (n + 1))
                          (sym is)
                          (adds (ground (arith, count_answers env n w count campaign.numbered h))),
                      more,
                    ))))

    overwritten :
        (d d' : Db) (i : ℕ) (c : LevelConfig)
        → ((l : LevelRow) → PlayableRow (with_config c l))
        → d ≡ w.db
        → 1 ≤ i
        → i ≤ n
        → upsert_config i c d ≡ some (tt, d')
        → Campaign n d'.expedition_levels
    unfolding upsert_config
    overwritten d d' i c fine same low high h =
        let there : exists (index_is i) d.expedition_levels ≡ true =
          ap (λ (x : Db). exists (index_is i) x.expedition_levels) same
          ∙ campaign.numbered.present i low high in
        subst (Campaign n)
          (ap (λ (x : Db). update (index_is i) (with_config c) x.expedition_levels) (sym same)
            ∙ ground (arith, there))
          (Campaign-update n (index_is i) (with_config c) (level_rows w) (λ l. refl) fine campaign)

    images_read : (w1 : World) → (level_images env w1).1.db ≡ w1.db
    unfolding level_images execute select_level_images
    images_read w1 = ground arith

    configure-Refines :
        (path : Option ℤ) (c : ConfigRequest) (level : ℕ) (w1 : World) (cfg : LevelConfig)
        → ((l : LevelRow) → PlayableRow (with_config cfg l))
        → w1.db ≡ w.db
        → path ≡ some (pos level)
        → 1 ≤ level
        → level ≤ n
        → Refines n w (configures path c) (reply_with configured (configure_at env level cfg w1))
    unfolding update_level_config
    configure-Refines path c level w1 cfg fine same is low high =
        let P : Answer ℕ × World → Type 0 =
          λ x. Refines n w (configures path c) (reply_with configured x) in
        let m = update_level_config env level cfg in
        calls_bind P m 500 "internal" (λ _. shown env level) w1
          (λ e h.
            kept n w campaign (configures path c) 500 "internal" (m w1).1
              (execute_err env (upsert_config level cfg) w1 e h ∙ same))
          (λ a h. (
            n,
            subst (λ p. Change (is_played w.db) n (configures p c) (answered (configured level)) n)
                (sym is) (configs low high),
            subst (λ (d : Db). Campaign n d.expedition_levels) (sym (images_read (m w1).1))
                (overwritten w1.db (m w1).1.db level cfg fine same low high
                  (execute_ok env (upsert_config level cfg) w1 a h)),
          ))

    handle_configure-Refines :
        (texts : Texts) (path : Option ℤ) (c : ConfigRequest)
        → Refines n w
            (configures path c)
            (reply_with configured (handle_admin_update_expedition_config env texts path c w))
    unfolding handle_admin_update_expedition_config
    handle_configure-Refines texts path c =
        let (reads, is_level) = path_cases env n path w campaign.numbered in
        let P : Answer ℕ × World → Type 0 =
          λ x. Refines n w (configures path c) (reply_with configured x) in
        let w1 = (level_from_path env path w).1 in
        let category = texts.trim_space c.category in
        bind_cases P (level_from_path env path) (configure_after env texts c) w
          (λ s code h. kept n w campaign (configures path c) s code w1 reads)
          (λ level h.
            let (is, low, high) = is_level level h in
            let stores = configure_at env level (requested_config category c) in
            unless_cases P (bad_config c) 400 "bad_request"
              (unless_refused (bad_category texts category) 400 "bad_request" stores) w1
              (λ t. kept n w campaign (configures path c) 400 "bad_request" w1 reads)
              (λ t.
                unless_cases P (bad_category texts category) 400 "bad_request" stores w1
                  (λ t'. kept n w campaign (configures path c) 400 "bad_request" w1 reads)
                  (λ t'.
                    configure-Refines path c level w1 (requested_config category c)
                      (λ l. requested-PlayableRow category c l t) reads is low high)))

    -- Where the levels are 1 to n, at most a thousand, and playable, each admin's request to add, remove
    -- or configure a level is answered as a change of an abstract campaign of n levels is, however
    -- its statements go, and leaves a campaign of as many levels as the change says, all playable.
    pub level_request-Refines :
        (texts : Texts) (r : LevelRequest) → Refines n w r (level_request env texts r w)
    level_request-Refines texts creates = handle_create-Refines
    level_request-Refines texts (deletes path) = handle_delete-Refines env n w campaign path
    level_request-Refines texts (configures path c) = handle_configure-Refines texts path c

  abbrev pub level_requests : Texts → List LevelRequest → World → World
  level_requests texts [] w = w
  level_requests texts (r ∷ rs) w = level_requests texts rs (level_request env texts r w).1

  pub level_requests-Campaign :
      (texts : Texts) (rs : List LevelRequest) (n : ℕ) (w : World)
      → Campaign n (level_rows w)
      → (n' : ℕ) × Campaign n' (level_rows (level_requests texts rs w))
  level_requests-Campaign texts [] n w c = (n, c)
  level_requests-Campaign texts (r ∷ rs) n w c =
      let (n', change, c') = level_request-Refines n w c texts r in
      level_requests-Campaign texts rs n' (level_request env texts r w).1 c'
