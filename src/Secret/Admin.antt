-- ===== src/Secret/Admin.antt =====
-- internal/repository/hidden_secret.go: UpdateHiddenSecret.
use magic_jigsaw.Prelude.{
  refl, false, ==_refl, List, Bool-cases, true, ℕ, ◌≡◌, ◌≢◌, ◌⊎◌, inl, inr, Bool, ◌&&◌, Option,
  none, some, String, ℤ, ◌==◌, if◌then◌else◌, arith, Option-cases, subst, sym,
}
use magic_jigsaw.Db.Writes.{Changed, Changed-update, select-delete_all, select-delete_other}
use magic_jigsaw.Db.Table.{select, update, delete, exists}
use magic_jigsaw.Db.Schema.{Db, SecretRow, RevealRow}
use magic_jigsaw.Db.Action.{
  Env, World, Action, Statement, Error, Ending, ok, err, commit, rollback, not_found, pure, on_row,
  raise, branch, ◌>>=◌, execute, transaction, begun, transaction_outcome,
}
use magic_jigsaw.Dungeon.Statements.{image_is}
use magic_jigsaw.Points.Statements.{fits_int4}
use magic_jigsaw.Secret.Statements.{secret_is, reveal_is}

pub record SaveHiddenSecretParams : Type 0 where
  pub title : String
  pub subtitle : String
  pub image_id : ℕ
  pub xp_reward : ℤ
  pub tile_grid_cols : ℤ
  pub tile_grid_rows : ℤ
  pub tile_play_seconds : ℤ
  pub active : Bool

-- SELECT image_id FROM hidden_secrets WHERE id = $1 FOR UPDATE
unfoldable pub select_secret_image : ℕ → Statement (Option ℕ)
select_secret_image id d = elim (select (secret_is id) d.hidden_secrets) [
  | none ↦ some (none, d)
  | some h ↦ some (some h.image_id, d)
]

abbrev pub with_params : SaveHiddenSecretParams → SecretRow → SecretRow
with_params p h = record h {
  title = p.title;
  subtitle = p.subtitle;
  image_id = p.image_id;
  xp_reward = p.xp_reward;
  tile_grid_cols = p.tile_grid_cols;
  tile_grid_rows = p.tile_grid_rows;
  tile_play_seconds = p.tile_play_seconds;
  active = p.active;
}

-- The parameters that columns of 32 bits hold.
abbrev pub params_fit : SaveHiddenSecretParams → Bool
params_fit p =
    fits_int4 p.xp_reward
    && (fits_int4 p.tile_grid_cols && (fits_int4 p.tile_grid_rows && fits_int4 p.tile_play_seconds))

-- UPDATE hidden_secrets SET ... WHERE id = $1: the image must exist.
unfoldable pub update_secret : ℕ → SaveHiddenSecretParams → Statement (Unit {0})
update_secret id p d =
    if params_fit p && exists (image_is p.image_id) d.images
    then some
        (tt, record d { hidden_secrets = update (secret_is id) (with_params p) d.hidden_secrets })
    else none

abbrev pub reveal_of : ℕ → RevealRow → Bool
reveal_of secret_id p = p.secret_id == secret_id

-- DELETE FROM hidden_secret_progress WHERE secret_id = $1
unfoldable pub delete_reveals : ℕ → Statement (Unit {0})
delete_reveals id d =
    some (tt, record d { hidden_secret_progress = delete (reveal_of id) d.hidden_secret_progress })

module _ (env : Env) where
  unfoldable pub update_transaction : ℕ → SaveHiddenSecretParams → Action (Ending (Unit {0}))
  unfolding execute
  update_transaction id p = do
    old ← execute env (select_secret_image id)
    on_row old (raise not_found) λ image. do
      _ ← execute env (update_secret id p)
      branch (image == p.image_id) (pure (commit tt))
          do _ ← execute env (delete_reveals id); pure (commit tt)

  unfoldable pub update_hidden_secret : ℕ → SaveHiddenSecretParams → Action (Unit {0})
  update_hidden_secret id p = transaction env (update_transaction id p)

-- A secret that has the parameters, and its id as before.
pub record Takes (p : SaveHiddenSecretParams) (h h' : SecretRow) : Type 0 where
  pub id : h'.id ≡ h.id
  pub title : h'.title ≡ p.title
  pub subtitle : h'.subtitle ≡ p.subtitle
  pub image : h'.image_id ≡ p.image_id
  pub reward : h'.xp_reward ≡ p.xp_reward
  pub cols : h'.tile_grid_cols ≡ p.tile_grid_cols
  pub rows : h'.tile_grid_rows ≡ p.tile_grid_rows
  pub seconds : h'.tile_play_seconds ≡ p.tile_play_seconds
  pub active : h'.active ≡ p.active

-- The secret has the new parameters, and no other secret changes. The boards stay as they are if its
-- image stays; if it changes, no player has a board of this secret, and those of other secrets are what
-- they were. The gallery and the players stay as they are.
pub record Updates (id : ℕ) (p : SaveHiddenSecretParams) (d d' : Db) : Type 0 where
  pub secret : SecretRow
  pub found : select (secret_is id) d.hidden_secrets ≡ some secret
  pub secrets : Changed (secret_is id) (Takes p) d.hidden_secrets d'.hidden_secrets
  pub kept : secret.image_id ≡ p.image_id → d'.hidden_secret_progress ≡ d.hidden_secret_progress
  pub dropped :
      secret.image_id ≢ p.image_id
      → (u : ℕ) → select (reveal_is u id) d'.hidden_secret_progress ≡ none
  pub others :
      (u s : ℕ)
      → s ≢ id
      → select (reveal_is u s) d'.hidden_secret_progress
        ≡ select (reveal_is u s) d.hidden_secret_progress
  pub gallery : d'.hidden_secret_unlocks ≡ d.hidden_secret_unlocks
  pub users : d'.users ≡ d.users

reveal_of-own : (id u : ℕ) (x : RevealRow) → reveal_is u id x ≡ true → reveal_of id x ≡ true
reveal_of-own id u x h = ground arith

reveal_of-other :
    (id u s : ℕ) → s ≢ id → (x : RevealRow) → reveal_is u s x ≡ true → reveal_of id x ≡ false
reveal_of-other id u s ne x h = elim (Bool-cases (reveal_of id x)) [
  | inr f ↦ f
  | inl t ↦ absurd (ne (ground arith))
]

module _ (id : ℕ) (p : SaveHiddenSecretParams) (d : Db) (s : SecretRow)
    (n : select (secret_is id) d.hidden_secrets ≡ some s) where
  Updates-boards :
      (boards : List RevealRow)
      → ((boards ≡ d.hidden_secret_progress) × (s.image_id ≡ p.image_id))
        ⊎ ((boards ≡ delete (reveal_of id) d.hidden_secret_progress) × (s.image_id ≢ p.image_id))
      → Updates id p d (record d {
        hidden_secrets = update (secret_is id) (with_params p) d.hidden_secrets;
        hidden_secret_progress = boards;
      })
  Updates-boards boards o = record {
    secret = s;
    found = n;
    secrets = Changed-update (secret_is id) (Takes p) (with_params p) d.hidden_secrets (λ h.
        record {
          id = refl;
          title = refl;
          subtitle = refl;
          image = refl;
          reward = refl;
          cols = refl;
          rows = refl;
          seconds = refl;
          active = refl;
        });
    kept = λ e. elim o [ inl (same, _) ↦ same | inr (_, ne) ↦ absurd (ne e) ];
    dropped = λ ne u. elim o [
      | inl (_, e) ↦ absurd (ne e)
      | inr (gone, _) ↦ rw gone (
          select-delete_all (reveal_is u id) (reveal_of id) d.hidden_secret_progress
            (reveal_of-own id u))
    ];
    others = λ u i ne. elim o [
      | inl (same, _) ↦ rw same refl
      | inr (gone, _) ↦ rw gone (
          select-delete_other (reveal_is u i) (reveal_of id) d.hidden_secret_progress
            (reveal_of-other id u i ne))
    ];
    gallery = refl;
    users = refl;
  }

module _ (env : Env) (id : ℕ) (p : SaveHiddenSecretParams) where
  update_transaction-Updates :
      (w : World)
      → (update_transaction env id p w).0 ≡ ok (commit tt)
      → Updates id p w.db (update_transaction env id p w).1.db
  unfolding update_transaction select_secret_image update_secret delete_reveals
  update_transaction-Updates w h = elim (Option-cases (select (secret_is id) w.db.hidden_secrets)) [
    | inl n ↦ absurd (ground arith)
    | inr (s, n) ↦ elim (Bool-cases (s.image_id == p.image_id)) [
      | inl same ↦ subst (Updates id p w.db) (ground arith) (
          Updates-boards id p w.db s n w.db.hidden_secret_progress
            (inl (refl, ground (arith, same))))
      | inr other ↦ subst (Updates id p w.db) (ground arith) (
          Updates-boards id p w.db s n (delete (reveal_of id) w.db.hidden_secret_progress)
            (inr (refl, λ e. absurd (ground (arith, other, e, ==_refl p.image_id)))))
    ]
  ]

  update_transaction-rollback : (w : World) → (update_transaction env id p w).0 ≢ ok (rollback tt)
  unfolding update_transaction select_secret_image update_secret delete_reveals
  update_transaction-rollback w h = ground arith

  -- However its statements go, UpdateHiddenSecret either changes no table and returns an error, or the
  -- secret exists and takes each of the parameters, and no other secret changes; when its image stays, all
  -- saved boards stay, and when it changes, no player has a board of this secret any more and every
  -- player's board of any other secret is what it was; the gallery and the players stay as they were.
  pub update_hidden_secret-Updates :
      (w : World)
      → let (r, w') = update_hidden_secret env id p w in
        ((w'.db ≡ w.db) × ((e : Error) × (r ≡ err e))) ⊎ ((r ≡ ok tt) × Updates id p w.db w'.db)
  unfolding update_hidden_secret
  update_hidden_secret-Updates w = elim (transaction_outcome env (update_transaction env id p) w) [
    | inl a ↦ inl (a.unchanged, (a.error, a.returned))
    | inr (inl r) ↦
        absurd (update_transaction-rollback (begun env (update_transaction env id p) w) r.ended)
    | inr (inr t) ↦ inr (
      t.returned,
      subst (Updates id p w.db) (sym t.done)
          (update_transaction-Updates (begun env (update_transaction env id p) w) t.ended),
    )
  ]
