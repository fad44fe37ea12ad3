-- ===== src/Secret/Sound.antt =====
-- What holds of every saved board: its tiles are distinct and among the nine, it is completed exactly
-- when all are open, and its player has an entry for the secret in the gallery, which shows the secret's
-- picture.
use magic_jigsaw.Prelude.{
  negsuc, ℕ, ◌≡◌, inl, inr, some, ℤ, pos, List, [], ◌∷◌, true, refl, arith, zero, suc, leb, length,
  All, In, Distinct,
}
use magic_jigsaw.Db.Table.{Once, select}
use magic_jigsaw.Db.Schema.{Db, SecretRow, RevealRow, PictureRow}
use magic_jigsaw.Secret.Rules.{tile_index_in_range, tile_count}
use magic_jigsaw.Secret.Statements.{secret_is, reveal_is, fresh_reveal}
use magic_jigsaw.Secret.Reveal.{Gallery}

-- The nine indices of tiles.
abbrev pub all_tiles : List ℤ
all_tiles = pos 0 ∷ pos 1 ∷ pos 2 ∷ pos 3 ∷ pos 4 ∷ pos 5 ∷ pos 6 ∷ pos 7 ∷ pos 8 ∷ []

pub record BoardSound (d : Db) (p : RevealRow) : Type 0 where
  pub tiles : All (λ t. In t all_tiles) p.revealed
  pub distinct : Distinct p.revealed
  pub completed : p.completed ≡ leb tile_count (length p.revealed)
  pub gallery : p.completed ≡ true → Gallery p.user_id p.secret_id d

-- An entry of the gallery has the picture of its secret.
abbrev pub HasPicture : List SecretRow → PictureRow → Type 0
HasPicture hs g =
    (h : SecretRow) → select (secret_is g.secret_id) hs ≡ some h → g.image_id ≡ h.image_id

pub record BoardsSound (d : Db) : Type 0 where
  pub secrets : (id : ℕ) → Once (secret_is id) d.hidden_secrets
  pub pictures : All (HasPicture d.hidden_secrets) d.hidden_secret_unlocks
  pub each : All (BoardSound d) d.hidden_secret_progress
  pub once : (u s : ℕ) → Once (reveal_is u s) d.hidden_secret_progress

pub tile_index_in_range-In : (t : ℤ) → tile_index_in_range t ≡ true → In t all_tiles
unfolding tile_index_in_range
tile_index_in_range-In (pos zero) h = inl refl
tile_index_in_range-In (pos (suc zero)) h = inr (inl refl)
tile_index_in_range-In (pos (suc (suc zero))) h = inr (inr (inl refl))
tile_index_in_range-In (pos (suc (suc (suc zero)))) h = inr (inr (inr (inl refl)))
tile_index_in_range-In (pos (suc (suc (suc (suc zero))))) h = inr (inr (inr (inr (inl refl))))
tile_index_in_range-In (pos (suc (suc (suc (suc (suc zero)))))) h =
    inr (inr (inr (inr (inr (inl refl)))))
tile_index_in_range-In (pos (suc (suc (suc (suc (suc (suc zero))))))) h =
    inr (inr (inr (inr (inr (inr (inl refl))))))
tile_index_in_range-In (pos (suc (suc (suc (suc (suc (suc (suc zero)))))))) h =
    inr (inr (inr (inr (inr (inr (inr (inl refl)))))))
tile_index_in_range-In (pos (suc (suc (suc (suc (suc (suc (suc (suc zero))))))))) h =
    inr (inr (inr (inr (inr (inr (inr (inr (inl refl))))))))
tile_index_in_range-In (pos (suc (suc (suc (suc (suc (suc (suc (suc (suc n)))))))))) h =
    absurd (ground arith)
tile_index_in_range-In (negsuc n) h = absurd (ground arith)

pub BoardSound-fresh : (d : Db) (u s : ℕ) → BoardSound d (fresh_reveal u s)
BoardSound-fresh d u s = record {
  tiles = tt;
  distinct = tt;
  completed = refl;
  gallery = λ e. absurd (ground arith);
}

-- A board stays sound as long as the gallery loses no picture.
pub BoardSound-mono :
    (d d' : Db)
    → ((u s : ℕ) → Gallery u s d → Gallery u s d')
    → (p : RevealRow) → BoardSound d p
    → BoardSound d' p
BoardSound-mono d d' k p b = record {
  tiles = b.tiles;
  distinct = b.distinct;
  completed = b.completed;
  gallery = λ e. k p.user_id p.secret_id (b.gallery e);
}
