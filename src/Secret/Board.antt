-- ===== src/Secret/Board.antt =====
-- RevealHiddenSecretTile of internal/repository/hidden_secret.go keeps the saved boards and the galleries
-- sound.
use magic_jigsaw.Secret.Sound.{
  BoardSound, BoardsSound, HasPicture, all_tiles, tile_index_in_range-In, BoardSound-fresh,
  BoardSound-mono,
}
use magic_jigsaw.Dungeon.Statements.{image_is}
use magic_jigsaw.Stories.Rows.{found-and}
use magic_jigsaw.Db.Writes.{exists-and}
use magic_jigsaw.Prelude.{
  Option-cases, ◌&&◌, ◌==◌, ℕ, ◌≡◌, inl, inr, none, some, ℤ, List, [], ◌∷◌, ◌++◌, true, refl, arith,
  Bool-cases, subst, sym, ◌∙◌, ap, length, All, In, ==_refl, ◌≤◌,
}
use magic_jigsaw.Lists.{All-append, Distinct-append, pigeonhole, In-All, All-mono}
use magic_jigsaw.Db.Table.{
  exists, Once, select, select-passes, All-select, All-update-Once, Once-update, Once-append,
  select-append,
}
use magic_jigsaw.Db.Schema.{Db, SecretRow, RevealRow}
use magic_jigsaw.Db.Action.{Env, World, ok}
use magic_jigsaw.Secret.Rules.{tile_index_in_range}
use magic_jigsaw.Secret.Statements.{secret_is, picture_is, reveal_is, fresh_reveal, with_revealed}
use magic_jigsaw.Secret.Store.{Revealed, reveal_hidden_secret_tile}
use magic_jigsaw.Secret.Reveal.{Opens, Unlocked-Gallery}
use magic_jigsaw.Secret.Outcome.{shown, reveal_hidden_secret_tile-RevealOutcome}

module _ (user_id secret_id : ℕ) where
  reveal_is-keys :
      (p : RevealRow)
      → reveal_is user_id secret_id p ≡ true
      → (p.user_id ≡ user_id) × (p.secret_id ≡ secret_id)
  reveal_is-keys p h = (ground arith, ground arith)

  fresh_reveal-is : reveal_is user_id secret_id (fresh_reveal user_id secret_id) ≡ true
  fresh_reveal-is = ground (arith, ==_refl user_id, ==_refl secret_id)

  -- One row at most for a player and a secret, with the new row too.
  Once-fresh :
      (ps : List RevealRow)
      → select (reveal_is user_id secret_id) ps ≡ none
      → (u s : ℕ) → Once (reveal_is u s) ps
      → Once (reveal_is u s) (ps ++ fresh_reveal user_id secret_id ∷ [])
  Once-fresh ps e u s o =
      Once-append (reveal_is u s) ps (fresh_reveal user_id secret_id)
        (elim (Bool-cases (reveal_is u s (fresh_reveal user_id secret_id))) [
          | inl same ↦ inl (
              subst (λ j. select (reveal_is u j) ps ≡ none) (ground arith)
                (subst (λ v. select (reveal_is v secret_id) ps ≡ none) (ground arith) e))
          | inr other ↦ inr other
        ])
        o

  module _ (tile : ℤ) (h : SecretRow) (d : Db) (v : Revealed) (d' : Db)
      (o : Opens user_id secret_id tile h d v d') (b : BoardsSound d)
      (is : select (secret_is secret_id) d.hidden_secrets ≡ some h) where
    pictures : All (HasPicture d'.hidden_secrets) d'.hidden_secret_unlocks
    pictures = rw o.secrets (elim (Bool-cases v.completed) [
      | inr f ↦ rw (o.kept f) b.pictures
      | inl t ↦ elim (o.unlocked t) [
        | inl (_, same) ↦ rw same b.pictures
        | inr (_, added) ↦ rw added (
            All-append (HasPicture d.hidden_secrets) d.hidden_secret_unlocks
              (record { user_id = user_id; secret_id = secret_id; image_id = h.image_id })
              b.pictures (λ h' e. ground (arith, is, e)))
      ]
    ])

    -- The player's entry for the secret has its picture.
    pub pictured :
        v.completed ≡ true
        → exists
            (λ g. picture_is user_id secret_id g && g.image_id == h.image_id)
            d'.hidden_secret_unlocks
          ≡ true
    pictured t =
        elim (Option-cases (select (picture_is user_id secret_id) d'.hidden_secret_unlocks)) [
          | inl n ↦
              absurd
                (ground (arith, (Unlocked-Gallery user_id secret_id h d d' (o.unlocked t)).0, n))
          | inr (g, n) ↦
              let has =
                All-select (HasPicture d'.hidden_secrets) (picture_is user_id secret_id)
                  d'.hidden_secret_unlocks g pictures n in
              let key : secret_id ≡ g.secret_id = ground (
                arith,
                select-passes (picture_is user_id secret_id) d'.hidden_secret_unlocks g n,
              ) in
              let found : select (secret_is g.secret_id) d'.hidden_secrets ≡ some h =
                subst (λ i. select (secret_is i) d'.hidden_secrets ≡ some h) key
                  (rw o.secrets is) in
              exists-and (picture_is user_id secret_id) (λ g. g.image_id == h.image_id)
                d'.hidden_secret_unlocks g n (ground (arith, has h found, ==_refl h.image_id))
        ]

    -- The rows that the tile is added to.
    record Prepared : Type 0 where
      saved : select (reveal_is user_id secret_id) o.rows ≡ some o.before
      each : All (BoardSound d') o.rows
      once : (u s : ℕ) → Once (reveal_is u s) o.rows

    prepared : Prepared
    prepared =
        let old =
          All-mono (BoardSound d) (BoardSound d') (BoardSound-mono d d' o.gallery)
            d.hidden_secret_progress b.each in
        elim o.ensured [
          | inl (e, same) ↦ record {
            saved = rw same e;
            each = rw same old;
            once = λ u s. rw same (b.once u s);
          }
          | inr (e, fresh, added) ↦ record {
            saved =
                rw (added, fresh)
                  (select-append (reveal_is user_id secret_id) d.hidden_secret_progress
                    (fresh_reveal user_id secret_id) e fresh_reveal-is);
            each = rw added (
                All-append (BoardSound d') d.hidden_secret_progress (fresh_reveal user_id secret_id)
                  old (BoardSound-fresh d' user_id secret_id));
            once = λ u s. rw added (Once-fresh d.hidden_secret_progress e u s (b.once u s));
          }
        ]

    before-BoardSound : BoardSound d' o.before
    before-BoardSound =
        All-select (BoardSound d') (reveal_is user_id secret_id) o.rows o.before prepared.each
          prepared.saved

    pub opened-BoardSound :
        tile_index_in_range tile ≡ true → BoardSound d' (with_revealed v.tiles v.completed o.before)
    opened-BoardSound on =
        let k =
          reveal_is-keys o.before
            (select-passes (reveal_is user_id secret_id) o.rows o.before prepared.saved) in
        record {
          tiles = rw o.tiles (
              All-append (λ t. In t all_tiles) o.before.revealed tile before-BoardSound.tiles
                (tile_index_in_range-In tile on));
          distinct =
              rw o.tiles (Distinct-append o.before.revealed tile before-BoardSound.distinct o.new);
          completed = o.all;
          gallery = λ e. rw (k.0, k.1) (Unlocked-Gallery user_id secret_id h d d' (o.unlocked e)).0;
        }

    Opens-BoardsSound : tile_index_in_range tile ≡ true → BoardsSound d'
    Opens-BoardsSound on = record {
      secrets = λ i. rw o.secrets (b.secrets i);
      pictures = pictures;
      each = subst (All (BoardSound d')) (sym o.stored) (
          All-update-Once (BoardSound d') (reveal_is user_id secret_id)
            (with_revealed v.tiles v.completed) o.rows o.before (prepared.once user_id secret_id)
            prepared.saved (opened-BoardSound on) prepared.each);
      once = λ u s. rw o.stored (
          Once-update (reveal_is u s) (reveal_is user_id secret_id)
            (with_revealed v.tiles v.completed) o.rows (λ x. refl) (prepared.once u s));
    }

module _ (env : Env) (user_id secret_id : ℕ) (tile : ℤ) (w : World) (b : BoardsSound w.db) where
  shown_secret :
      (h : SecretRow)
      → select (shown env user_id secret_id w.db) w.db.hidden_secrets ≡ some h
      → select (secret_is secret_id) w.db.hidden_secrets ≡ some h
  shown_secret h e =
      (found-and (secret_is secret_id) (λ h. exists (image_is h.image_id) w.db.images)
        w.db.hidden_secrets h (b.secrets secret_id) e).0

  -- However its statements go, RevealHiddenSecretTile keeps the saved boards sound: their tiles are
  -- distinct and among the nine, a board is completed exactly when all nine are open, the player of a
  -- completed one has an entry for the secret in the gallery, every entry of the gallery has the
  -- picture of its secret, there is one secret at most for an id, and a player has one board at most
  -- for a secret.
  pub reveal_hidden_secret_tile-BoardsSound :
      BoardsSound (reveal_hidden_secret_tile env user_id secret_id tile w).1.db
  reveal_hidden_secret_tile-BoardsSound =
      elim (reveal_hidden_secret_tile-RevealOutcome env user_id secret_id tile w) [
        | inl (same, _) ↦ subst BoardsSound (sym same) b
        | inr (h, v, e, _, on, _, o) ↦
            Opens-BoardsSound user_id secret_id tile h w.db v _ o b (shown_secret h e) on
      ]

  -- When RevealHiddenSecretTile reports that the secret is completed, each of the nine tiles is among
  -- the revealed ones that it returns, no other tile is, and the player's entry for the secret is in the
  -- gallery, with the secret's picture, where the boards and the gallery were sound before.
  pub reveal_hidden_secret_tile_completes :
      (v : Revealed)
      → (reveal_hidden_secret_tile env user_id secret_id tile w).0 ≡ ok v
      → v.completed ≡ true
      → All (λ t. In t v.tiles) all_tiles
        × All (λ t. In t all_tiles) v.tiles
        × ((h : SecretRow) × (select (secret_is secret_id) w.db.hidden_secrets ≡ some h)
            × (exists
                  (λ g. picture_is user_id secret_id g && g.image_id == h.image_id)
                  (reveal_hidden_secret_tile env user_id secret_id tile
                    w).1.db.hidden_secret_unlocks
                ≡ true))
  reveal_hidden_secret_tile_completes v e c =
      elim (reveal_hidden_secret_tile-RevealOutcome env user_id secret_id tile w) [
        | inl (_, (x, r)) ↦ absurd (cc)
        | inr (h, v', e', _, on, r, o) ↦
            let is = shown_secret h e' in
            let s = opened-BoardSound user_id secret_id tile h w.db v' _ o b is on in
            let same : v' ≡ v = cc in
            let done : v'.completed ≡ true = ap (λ (x : Revealed). x.completed) same ∙ c in
            let long : 9 ≤ length v'.tiles = ground (arith, o.all, done) in
            (
              subst (λ (x : Revealed). All (λ t. In t x.tiles) all_tiles) same
                  (In-All (λ t. In t v'.tiles) all_tiles
                    (pigeonhole v'.tiles all_tiles s.distinct s.tiles long)),
              subst (λ (x : Revealed). All (λ t. In t all_tiles) x.tiles) same s.tiles,
              (h, is, pictured user_id secret_id tile h w.db v' _ o b is done),
            )
      ]
