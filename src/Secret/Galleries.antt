-- ===== src/Secret/Galleries.antt =====
-- internal/repository/hidden_secret.go: any sequence of the players' calls of RevealHiddenSecretTile and the
-- admins' of UpdateHiddenSecret, and the galleries.
use magic_jigsaw.Prelude.{ℕ, ◌≡◌, inl, inr, sym, subst, some, List, [], ◌∷◌, ℤ, Bool-cases}
use magic_jigsaw.Db.Table.{select-append_found, select}
use magic_jigsaw.Db.Schema.{Db, SecretRow, PictureRow}
use magic_jigsaw.Db.Action.{Env, World}
use magic_jigsaw.Secret.Statements.{picture_is}
use magic_jigsaw.Secret.Store.{Revealed, reveal_hidden_secret_tile}
use magic_jigsaw.Secret.Reveal.{Opens}
use magic_jigsaw.Secret.Outcome.{reveal_hidden_secret_tile-RevealOutcome}
use magic_jigsaw.Secret.Admin.{
  SaveHiddenSecretParams, update_hidden_secret, update_hidden_secret-Updates,
}

pub data SecretCall : Type 0 where
  reveals : ℕ → ℕ → ℤ → SecretCall
  updates : ℕ → SaveHiddenSecretParams → SecretCall

module _ (env : Env) where
  abbrev pub secret_call : SecretCall → World → World
  secret_call (reveals user_id secret_id tile) w =
      (reveal_hidden_secret_tile env user_id secret_id tile w).1
  secret_call (updates id p) w = (update_hidden_secret env id p w).1

  abbrev pub secret_calls : List SecretCall → World → World
  secret_calls [] w = w
  secret_calls (c ∷ cs) w = secret_calls cs (secret_call c w)

  module _ (user_id secret_id : ℕ) (g : PictureRow) where
    -- The player's entry for the secret.
    abbrev pub Entry : Db → Type 0
    Entry d = select (picture_is user_id secret_id) d.hidden_secret_unlocks ≡ some g

    Opens-Entry :
        (u s : ℕ) (tile : ℤ) (h : SecretRow) (d : Db) (v : Revealed) (d' : Db)
        → Opens u s tile h d v d'
        → Entry d
        → Entry d'
    Opens-Entry u s tile h d v d' o e = elim (Bool-cases v.completed) [
      | inr f ↦ rw (o.kept f) e
      | inl t ↦ elim (o.unlocked t) [
        | inl (_, same) ↦ rw same e
        | inr (_, added) ↦
            rw added
              (select-append_found (picture_is user_id secret_id) d.hidden_secret_unlocks _ g e)
      ]
    ]

    secret_call-Entry : (c : SecretCall) (w : World) → Entry w.db → Entry (secret_call c w).db
    secret_call-Entry (reveals u s tile) w e =
        elim (reveal_hidden_secret_tile-RevealOutcome env u s tile w) [
          | inl (same, _) ↦ subst Entry (sym same) e
          | inr (h, v, _, _, _, _, o) ↦ Opens-Entry u s tile h w.db v _ o e
        ]
    secret_call-Entry (updates id p) w e = elim (update_hidden_secret-Updates env id p w) [
      | inl (same, _) ↦ subst Entry (sym same) e
      | inr (_, u) ↦ rw (u.gallery) e
    ]

    -- Over any sequence of calls of RevealHiddenSecretTile and UpdateHiddenSecret, however their statements
    -- go, a player's entry for a secret in the gallery stays as it is, with the picture that it has: also
    -- when the secret gets another picture, and the player uncovers that one.
    pub secret_calls-Entry :
        (cs : List SecretCall) (w : World) → Entry w.db → Entry (secret_calls cs w).db
    secret_calls-Entry [] w e = e
    secret_calls-Entry (c ∷ cs) w e =
        secret_calls-Entry cs (secret_call c w) (secret_call-Entry c w e)
