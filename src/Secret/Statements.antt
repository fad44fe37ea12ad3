-- ===== src/Secret/Statements.antt =====
-- The SQL of internal/repository/hidden_secret.go that players' and admins' changes run.
use magic_jigsaw.Prelude.{
  ℕ, Bool, false, ◌&&◌, Option, none, some, List, [], ◌∷◌, ◌++◌, ℤ, ◌==◌, if◌then◌else◌,
}
use magic_jigsaw.Db.Table.{select, update, exists}
use magic_jigsaw.Db.Schema.{SecretRow, RevealRow, PictureRow}
use magic_jigsaw.Db.Action.{Statement}
use magic_jigsaw.Dungeon.Statements.{image_is}
use magic_jigsaw.Points.Statements.{user_is}

abbrev pub secret_is : ℕ → SecretRow → Bool
secret_is id h = h.id == id

-- FROM hidden_secrets h JOIN images i ON i.id = h.image_id WHERE h.id = $1
unfoldable pub select_secret : ℕ → Statement (Option SecretRow)
select_secret id d =
    some (select (λ h. secret_is id h && exists (image_is h.image_id) d.images) d.hidden_secrets, d)

abbrev pub reveal_is : ℕ → ℕ → RevealRow → Bool
reveal_is user_id secret_id p = p.user_id == user_id && p.secret_id == secret_id

abbrev pub fresh_reveal : ℕ → ℕ → RevealRow
fresh_reveal user_id secret_id = record {
  user_id = user_id;
  secret_id = secret_id;
  revealed = [];
  completed = false;
}

-- INSERT INTO hidden_secret_progress ... ON CONFLICT (user_id, secret_id) DO NOTHING
unfoldable pub ensure_reveal : ℕ → ℕ → Statement (Unit {0})
ensure_reveal user_id secret_id d =
    if exists (reveal_is user_id secret_id) d.hidden_secret_progress
    then some (tt, d)
    else if exists (user_is user_id) d.users && exists (secret_is secret_id) d.hidden_secrets
    then some (
      tt,
      record d {
        hidden_secret_progress = d.hidden_secret_progress ++ fresh_reveal user_id secret_id ∷ [];
      },
    )
    else none

-- SELECT revealed, completed FROM hidden_secret_progress ... FOR UPDATE
unfoldable pub select_reveal : ℕ → ℕ → Statement (Option RevealRow)
select_reveal user_id secret_id d =
    some (select (reveal_is user_id secret_id) d.hidden_secret_progress, d)

abbrev pub with_revealed : List ℤ → Bool → RevealRow → RevealRow
with_revealed revealed completed p = record p { revealed = revealed; completed = completed }

-- UPDATE hidden_secret_progress SET revealed = $3, completed = $4
unfoldable pub update_reveal : ℕ → ℕ → List ℤ → Bool → Statement (Unit {0})
update_reveal user_id secret_id revealed completed d = some (
  tt,
  record d {
    hidden_secret_progress =
        update (reveal_is user_id secret_id) (with_revealed revealed completed)
          d.hidden_secret_progress;
  },
)

abbrev pub picture_is : ℕ → ℕ → PictureRow → Bool
picture_is user_id secret_id u = u.user_id == user_id && u.secret_id == secret_id

-- INSERT INTO hidden_secret_unlocks ... ON CONFLICT (user_id, secret_id) DO NOTHING
unfoldable pub insert_picture : ℕ → ℕ → ℕ → Statement (Unit {0})
insert_picture user_id secret_id image_id d =
    if exists (picture_is user_id secret_id) d.hidden_secret_unlocks
    then some (tt, d)
    else if exists (user_is user_id) d.users
        && (exists (secret_is secret_id) d.hidden_secrets && exists (image_is image_id) d.images)
    then some (
      tt,
      record d {
        hidden_secret_unlocks =
            d.hidden_secret_unlocks
            ++ record { user_id = user_id; secret_id = secret_id; image_id = image_id } ∷ [];
      },
    )
    else none
