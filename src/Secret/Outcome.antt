-- ===== src/Secret/Outcome.antt =====
-- What RevealHiddenSecretTile returns and stores, for every way its statements can go.
use magic_jigsaw.Db.Writes.{Placed, Changed-update, Changed}
use magic_jigsaw.Prelude.{
  refl, ap, ℕ, ◌+◌, ◌≡◌, ◌≢◌, ◌⊎◌, inl, inr, some, ℤ, pos, List, [], ◌∷◌, ◌++◌, Bool, true, false,
  arith, Bool-cases, Option-cases, subst, sym, ◌∙◌, leb, length, if◌then◌else◌, ◌&&◌,
}
use magic_jigsaw.Db.Table.{select, update, exists}
use magic_jigsaw.Db.Schema.{Db, SecretRow, RevealRow}
use magic_jigsaw.Db.Action.{
  secret_inactive, tile_out_of_range, Env, World, Action, Error, Ending, ok, err, commit, rollback,
  transaction, begun, transaction_outcome, Result-cases,
}
use magic_jigsaw.Dungeon.Statements.{image_is}
use magic_jigsaw.Secret.Rules.{tile_index_in_range, tile_count}
use magic_jigsaw.Secret.Statements.{
  picture_is, secret_is, reveal_is, with_revealed, select_secret, ensure_reveal, select_reveal,
  update_reveal, insert_picture,
}
use magic_jigsaw.Secret.Store.{
  Revealed, has_tile, get_hidden_secret_row, open_tile, reveal_transaction,
  reveal_hidden_secret_tile,
}
use magic_jigsaw.Secret.Reveal.{
  Unlocked-Gallery, Shows, Unlocked, insert_picture-Placed, Opens, In-has_tile,
  ensure_reveal-Ensured,
}

module _ (env : Env) (user_id secret_id : ℕ) where
  -- What the last statements of the transaction store.
  record Stores (h : SecretRow) (revealed : List ℤ) (completed : Bool) (d : Db) (v : Revealed)
      (d' : Db) : Type 0 where
    tiles : v.tiles ≡ revealed
    all : v.completed ≡ completed
    reward : v.xp_reward ≡ (if completed then h.xp_reward else pos 0)
    stored :
        d'.hidden_secret_progress
        ≡ update
            (reveal_is user_id secret_id)
            (with_revealed revealed completed)
            d.hidden_secret_progress
    unlocked : completed ≡ true → Unlocked user_id secret_id h d d'
    kept : completed ≡ false → d'.hidden_secret_unlocks ≡ d.hidden_secret_unlocks
    secrets : d'.hidden_secrets ≡ d.hidden_secrets

  abbrev updated : List ℤ → Bool → Db → Db
  updated revealed completed d = record d {
    hidden_secret_progress =
        update (reveal_is user_id secret_id) (with_revealed revealed completed)
          d.hidden_secret_progress;
  }

  open_tile-Stores :
      (h : SecretRow) (revealed : List ℤ) (completed : Bool) (w : World) (v : Revealed)
      → (open_tile env user_id secret_id h revealed completed w).0 ≡ ok (commit v)
      → Stores h revealed completed w.db v
          (open_tile env user_id secret_id h revealed completed w).1.db
  unfolding open_tile update_reveal
  open_tile-Stores h revealed false w v e = record {
    tiles = ground arith;
    all = ground arith;
    reward = ground arith;
    stored = ground arith;
    unlocked = λ t. absurd (ground arith);
    kept = λ f. ground arith;
    secrets = ground arith;
  }
  open_tile-Stores h revealed true w v e =
      elim (Option-cases
        (insert_picture user_id secret_id h.image_id (updated revealed true w.db))) [
          | inl n ↦ absurd (ground arith)
          | inr ((t, d), n) ↦
              let k =
                insert_picture-Placed user_id secret_id h.image_id (updated revealed true w.db) d
                  n in
              let ended : (open_tile env user_id secret_id h revealed true w).1.db ≡ d =
                ground arith in
              record {
                tiles = ground arith;
                all = ground arith;
                reward = ground arith;
                stored = ap (λ (x : Db). x.hidden_secret_progress) ended ∙ k.1;
                unlocked = λ t. subst (Unlocked user_id secret_id h w.db) (sym ended) k.0;
                kept = λ f. absurd (ground arith);
                secrets = ap (λ (x : Db). x.hidden_secrets) ended ∙ k.2;
              }
        ]

  open_tile-rollback :
      (h : SecretRow) (revealed : List ℤ) (completed : Bool) (w : World) (v : Revealed)
      → (open_tile env user_id secret_id h revealed completed w).0 ≢ ok (rollback v)
  unfolding open_tile update_reveal
  open_tile-rollback h revealed true w v e = ground arith
  open_tile-rollback h revealed false w v e = ground arith

  module _ (h : SecretRow) (tile : ℤ) where
    abbrev opened : RevealRow → Action (Ending Revealed)
    opened p =
        open_tile env user_id secret_id h (p.revealed ++ tile ∷ [])
          (leb tile_count (length (p.revealed ++ tile ∷ [])))

    -- The tile is opened in the row that is there once the row is ensured, or an error is returned.
    record Reaches (w : World) : Type 0 where
      p : RevealRow
      d : Db
      ensured : ensure_reveal user_id secret_id w.db ≡ some (tt, d)
      saved : select (reveal_is user_id secret_id) d.hidden_secret_progress ≡ some p
      first : p.completed ≡ false
      new : has_tile tile p.revealed ≡ false
      same :
          reveal_transaction env user_id secret_id h tile w
          ≡ opened p (record { db = d; clock = w.clock + 2 })

    reveal_transaction-Reaches :
        (w : World) (r : Ending Revealed)
        → (reveal_transaction env user_id secret_id h tile w).0 ≡ ok r
        → Reaches w
    unfolding reveal_transaction select_reveal
    reveal_transaction-Reaches w r e = elim (Option-cases (ensure_reveal user_id secret_id w.db)) [
      | inl n ↦ absurd (ground arith)
      | inr ((t, d), n) ↦
          elim (Option-cases (select (reveal_is user_id secret_id) d.hidden_secret_progress)) [
            | inl m ↦ absurd (ground arith)
            | inr (p, m) ↦ record {
              p = p;
              d = d;
              ensured = n;
              saved = m;
              first = ground arith;
              new = ground arith;
              same = ground arith;
            }
          ]
    ]

    reveal_transaction-Opens :
        (w : World) (v : Revealed)
        → (reveal_transaction env user_id secret_id h tile w).0 ≡ ok (commit v)
        → Opens user_id secret_id tile h w.db v
            (reveal_transaction env user_id secret_id h tile w).1.db
    reveal_transaction-Opens w v e =
        let t = reveal_transaction-Reaches w (commit v) e in
        let (q, z, hs) = ensure_reveal-Ensured user_id secret_id w.db t.d t.p t.ensured t.saved in
        let s =
          open_tile-Stores h (t.p.revealed ++ tile ∷ [])
            (leb tile_count (length (t.p.revealed ++ tile ∷ [])))
            (record { db = t.d; clock = w.clock + 2 }) v (rw (sym t.same) e) in
        let d' = (opened t.p (record { db = t.d; clock = w.clock + 2 })).1.db in
        let unlocked : v.completed ≡ true → Unlocked user_id secret_id h w.db d' = λ c.
          subst
            (λ us.
              Placed (picture_is user_id secret_id)
                (record { user_id = user_id; secret_id = secret_id; image_id = h.image_id }) us
                d'.hidden_secret_unlocks)
            z (s.unlocked (sym s.all ∙ c)) in
        let kept : v.completed ≡ false → d'.hidden_secret_unlocks ≡ w.db.hidden_secret_unlocks =
          λ c. s.kept (sym s.all ∙ c) ∙ z in
        rw t.same (record {
          before = t.p;
          rows = t.d.hidden_secret_progress;
          ensured = q;
          first = t.first;
          new = λ m. ground (arith, t.new, In-has_tile tile t.p.revealed m);
          tiles = s.tiles;
          all = rw s.tiles s.all;
          stored = rw (s.tiles, s.all) s.stored;
          reward = rw s.all s.reward;
          effect =
              subst
                (Changed (reveal_is user_id secret_id) (Shows v.tiles v.completed)
                  t.d.hidden_secret_progress)
                (sym (rw (s.tiles, s.all) s.stored))
                (Changed-update (reveal_is user_id secret_id) (Shows v.tiles v.completed)
                  (with_revealed v.tiles v.completed) t.d.hidden_secret_progress
                  (λ x. record { revealed = refl; done = refl; rest = refl }));
          unlocked = unlocked;
          kept = kept;
          secrets = s.secrets ∙ hs;
          gallery = λ u i g. elim (Bool-cases v.completed) [
            | inl c ↦ (Unlocked-Gallery user_id secret_id h w.db d' (unlocked c)).1 u i g
            | inr c ↦ rw (kept c) g
          ];
        })

    reveal_transaction-rollback :
        (w : World) (v : Revealed)
        → (reveal_transaction env user_id secret_id h tile w).0 ≢ ok (rollback v)
    reveal_transaction-rollback w v e =
        let t = reveal_transaction-Reaches w (rollback v) e in
        open_tile-rollback h (t.p.revealed ++ tile ∷ [])
          (leb tile_count (length (t.p.revealed ++ tile ∷ [])))
          (record { db = t.d; clock = w.clock + 2 }) v (rw (sym t.same) e)

  abbrev pub shown : Db → SecretRow → Bool
  shown d h = secret_is secret_id h && exists (image_is h.image_id) d.images

  get_hidden_secret_row-keeps : (w : World) → (get_hidden_secret_row env secret_id w).1.db ≡ w.db
  unfolding get_hidden_secret_row select_secret
  get_hidden_secret_row-keeps w = ground arith

  get_hidden_secret_row-found :
      (w : World) (h : SecretRow)
      → (get_hidden_secret_row env secret_id w).0 ≡ ok h
      → select (shown w.db) w.db.hidden_secrets ≡ some h
  unfolding get_hidden_secret_row select_secret
  get_hidden_secret_row-found w h e = ground arith

  module _ (tile : ℤ) (w : World) where
    -- RevealHiddenSecretTile changes no table and returns an error, or it opens the tile.
    abbrev pub RevealOutcome : Type 0
    RevealOutcome =
        let (r, w') = reveal_hidden_secret_tile env user_id secret_id tile w in
        ((w'.db ≡ w.db) × ((e : Error) × (r ≡ err e)))
        ⊎ ((h : SecretRow) × (v : Revealed) × (select (shown w.db) w.db.hidden_secrets ≡ some h)
            × (h.active ≡ true)
            × (tile_index_in_range tile ≡ true)
            × (r ≡ ok v)
            × Opens user_id secret_id tile h w.db v w'.db)

    module _ (h : SecretRow) (n : (get_hidden_secret_row env secret_id w).0 ≡ ok h)
        (act : h.active ≡ true) (on : tile_index_in_range tile ≡ true) where
      abbrev body : Action (Ending Revealed)
      body = reveal_transaction env user_id secret_id h tile

      abbrev loaded : World
      loaded = (get_hidden_secret_row env secret_id w).1

      same : reveal_hidden_secret_tile env user_id secret_id tile w ≡ transaction env body loaded
      unfolding reveal_hidden_secret_tile
      same = ground (arith, on, n, act)

      active_secret : RevealOutcome
      active_secret = rw same (elim (transaction_outcome env body loaded) [
        | inl a ↦ inl (a.unchanged ∙ get_hidden_secret_row-keeps w, (a.error, a.returned))
        | inr (inl r) ↦
            absurd (reveal_transaction-rollback h tile (begun env body loaded) r.value r.ended)
        | inr (inr t) ↦
            let k = reveal_transaction-Opens h tile (begun env body loaded) t.value t.ended in
            inr (
              h,
              t.value,
              get_hidden_secret_row-found w h n,
              act,
              on,
              t.returned,
              subst
                  (λ d. Opens user_id secret_id tile h d t.value (transaction env body loaded).1.db)
                  (get_hidden_secret_row-keeps w)
                  (subst (Opens user_id secret_id tile h loaded.db t.value) (sym t.done) k),
            )
      ])

    -- However its statements go, RevealHiddenSecretTile either changes no table and returns an error,
    -- or the tile is one of the nine, the secret is active and its picture exists, the player had not
    -- completed it nor opened the tile, the row with the tile added is saved, made first if there was
    -- none, and returned, marked completed exactly when it then holds nine tiles or more, which alone
    -- pays the secret's reward and adds its picture to the player's gallery, unless that has an entry for
    -- the secret, which stays as it is; else the gallery stays.
    pub reveal_hidden_secret_tile-RevealOutcome : RevealOutcome
    unfolding reveal_hidden_secret_tile
    reveal_hidden_secret_tile-RevealOutcome = elim (Bool-cases (tile_index_in_range tile)) [
      | inr off ↦ inl (ground arith, (tile_out_of_range, ground arith))
      | inl on ↦ elim (Result-cases (get_hidden_secret_row env secret_id w).0) [
        | inl (e, n) ↦ inl (ground (arith, get_hidden_secret_row-keeps w), (e, ground arith))
        | inr (h, n) ↦ elim (Bool-cases h.active) [
          | inl act ↦ active_secret h n act on
          | inr idle ↦
              inl (ground (arith, get_hidden_secret_row-keeps w), (secret_inactive, ground arith))
        ]
      ]
    ]
