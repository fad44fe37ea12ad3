-- ===== src/Secret/Reveal.antt =====
-- Every way in which RevealHiddenSecretTile can end.
use magic_jigsaw.Db.Writes.{Changed, Placed}
use magic_jigsaw.Prelude.{
  Bool-cases, int_eq_self, ℕ, ◌≡◌, ◌⊎◌, inl, inr, none, some, ℤ, pos, List, [], ◌∷◌, ◌++◌, Bool,
  true, false, arith, Option-cases, leb, length, In, if◌then◌else◌, ==_refl,
}
use magic_jigsaw.Db.Table.{
  exists-append_keeps, select, update, exists, exists-append, select-append,
}
use magic_jigsaw.Db.Schema.{Db, SecretRow, RevealRow, PictureRow}
use magic_jigsaw.Secret.Rules.{tile_count}
use magic_jigsaw.Secret.Statements.{
  reveal_is, picture_is, fresh_reveal, with_revealed, ensure_reveal, insert_picture,
}
use magic_jigsaw.Secret.Store.{Revealed, has_tile}

pub In-has_tile : (t : ℤ) (xs : List ℤ) → In t xs → has_tile t xs ≡ true
unfolding has_tile
In-has_tile t [] h = absurd h
In-has_tile t (x ∷ xs) (inl e) = ground (arith, int_eq_self x)
In-has_tile t (x ∷ xs) (inr h) = ground (arith, In-has_tile t xs h)

-- The row of progress that the tile is added to, and the rows once it is there.
abbrev pub Ensured : ℕ → ℕ → List RevealRow → RevealRow → List RevealRow → Type 0
Ensured user_id secret_id ps p ps' =
    ((select (reveal_is user_id secret_id) ps ≡ some p) × (ps' ≡ ps))
    ⊎ ((select (reveal_is user_id secret_id) ps ≡ none)
        × (p ≡ fresh_reveal user_id secret_id)
        × (ps' ≡ ps ++ fresh_reveal user_id secret_id ∷ []))

abbrev pub Gallery : ℕ → ℕ → Db → Type 0
Gallery user_id secret_id d = exists (picture_is user_id secret_id) d.hidden_secret_unlocks ≡ true

-- A row with these tiles, marked completed or not, and the same otherwise.
pub record Shows (tiles : List ℤ) (completed : Bool) (p p' : RevealRow) : Type 0 where
  pub revealed : p'.revealed ≡ tiles
  pub done : p'.completed ≡ completed
  pub rest : p ≡ record p' { revealed = p.revealed; completed = p.completed }

-- The gallery has the secret's picture, or the entry for the secret that it had before.
abbrev pub Unlocked : ℕ → ℕ → SecretRow → Db → Db → Type 0
Unlocked user_id secret_id h d d' =
    Placed (picture_is user_id secret_id)
      (record { user_id = user_id; secret_id = secret_id; image_id = h.image_id })
      d.hidden_secret_unlocks d'.hidden_secret_unlocks

-- A tile that was closed is opened; the last one unlocks the picture and pays the secret's reward.
pub record Opens (user_id secret_id : ℕ) (tile : ℤ) (h : SecretRow) (d : Db) (v : Revealed)
    (d' : Db) : Type 0 where
  pub before : RevealRow
  pub rows : List RevealRow
  pub ensured : Ensured user_id secret_id d.hidden_secret_progress before rows
  pub first : before.completed ≡ false
  pub new : ¬ In tile before.revealed
  pub tiles : v.tiles ≡ before.revealed ++ tile ∷ []
  pub all : v.completed ≡ leb tile_count (length v.tiles)
  pub stored :
      d'.hidden_secret_progress
      ≡ update (reveal_is user_id secret_id) (with_revealed v.tiles v.completed) rows
  pub effect :
      Changed
        (reveal_is user_id secret_id)
        (Shows v.tiles v.completed)
        rows
        d'.hidden_secret_progress
  pub reward : v.xp_reward ≡ (if v.completed then h.xp_reward else pos 0)
  pub unlocked : v.completed ≡ true → Unlocked user_id secret_id h d d'
  pub kept : v.completed ≡ false → d'.hidden_secret_unlocks ≡ d.hidden_secret_unlocks
  pub secrets : d'.hidden_secrets ≡ d.hidden_secrets
  pub gallery : (u s : ℕ) → Gallery u s d → Gallery u s d'

pub insert_picture-Placed :
    (user_id secret_id image_id : ℕ) (d d' : Db)
    → insert_picture user_id secret_id image_id d ≡ some (tt, d')
    → Placed
        (picture_is user_id secret_id)
        (record { user_id = user_id; secret_id = secret_id; image_id = image_id })
        d.hidden_secret_unlocks
        d'.hidden_secret_unlocks
      × (d'.hidden_secret_progress ≡ d.hidden_secret_progress)
      × (d'.hidden_secrets ≡ d.hidden_secrets)
unfolding insert_picture
insert_picture-Placed user_id secret_id image_id d d' h =
    elim (Bool-cases (exists (picture_is user_id secret_id) d.hidden_secret_unlocks)) [
      | inl t ↦ (inl (t, ground arith), ground arith, ground arith)
      | inr f ↦ (inr (f, ground arith), ground arith, ground arith)
    ]

-- A gallery that got the picture has an entry for the secret, and has lost none.
pub Unlocked-Gallery :
    (user_id secret_id : ℕ) (h : SecretRow) (d d' : Db)
    → Unlocked user_id secret_id h d d'
    → Gallery user_id secret_id d' × ((u s : ℕ) → Gallery u s d → Gallery u s d')
Unlocked-Gallery user_id secret_id h d d' (inl (t, same)) = (rw same t, λ u s g. rw same g)
Unlocked-Gallery user_id secret_id h d d' (inr (f, added)) =
    let row : PictureRow = record {
      user_id = user_id;
      secret_id = secret_id;
      image_id = h.image_id;
    } in
    (
      rw added (
          exists-append (picture_is user_id secret_id) d.hidden_secret_unlocks row
            (ground (arith, ==_refl user_id, ==_refl secret_id))),
      λ u s g. rw added (exists-append_keeps (picture_is u s) d.hidden_secret_unlocks row g),
    )

pub ensure_reveal-Ensured :
    (user_id secret_id : ℕ) (d d' : Db) (p : RevealRow)
    → ensure_reveal user_id secret_id d ≡ some (tt, d')
    → select (reveal_is user_id secret_id) d'.hidden_secret_progress ≡ some p
    → Ensured user_id secret_id d.hidden_secret_progress p d'.hidden_secret_progress
      × (d'.hidden_secret_unlocks ≡ d.hidden_secret_unlocks)
      × (d'.hidden_secrets ≡ d.hidden_secrets)
unfolding ensure_reveal
ensure_reveal-Ensured user_id secret_id d d' p h e =
    elim (Option-cases (select (reveal_is user_id secret_id) d.hidden_secret_progress)) [
      | inl n ↦ (
        inr (
          n,
          ground (
            arith,
            ==_refl user_id,
            ==_refl secret_id,
            select-append (reveal_is user_id secret_id) d.hidden_secret_progress
                (fresh_reveal user_id secret_id) n,
          ),
          ground arith,
        ),
        ground arith,
        ground arith,
      )
      | inr (q, n) ↦ (inl (ground arith, ground arith), ground arith, ground arith)
    ]
