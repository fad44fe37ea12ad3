-- ===== src/Expedition/Levels/Playable.antt =====
-- internal/models/expedition.go and internal/api/expedition.go: the ranges in which a level can be
-- played, and campaigns whose levels stay in them.
use magic_jigsaw.Expedition.Levels.Statements.{index_is}
use magic_jigsaw.Expedition.Levels.Store.{config_of}
use magic_jigsaw.Prelude.{◌≤ℤ◌}
use magic_jigsaw.Prelude.{
  ℕ, suc, ◌+◌, ◌≡◌, ◌≤◌, ◌<◌, refl, Bool, Option, none, some, List, [], ◌∷◌, ◌++◌, ℤ, pos, arith,
  All,
}
use magic_jigsaw.Db.Table.{All-update, update, delete}
use magic_jigsaw.Db.Schema.{LevelRow}
use magic_jigsaw.Expedition.Levels.Numbering.{
  NumberedTo, NumberedTo-append, NumberedTo-delete, NumberedTo-update,
}
use magic_jigsaw.Expedition.Tiers.{or_default, ExpeditionTier, tier_for_level, effective_tier}
use magic_jigsaw.Db.Writes.{All-delete}
use magic_jigsaw.Lists.{All-append}

-- least <= z <= most
abbrev pub InRange : ℕ → ℕ → ℤ → Type 0
InRange least most z = (pos least ≤ℤ z) × (z ≤ℤ pos most)

-- An override in the range, if there is one.
abbrev pub Allows : ℕ → ℕ → Option ℤ → Type 0
Allows least most none = Unit
Allows least most (some z) = InRange least most z

pub record PlayableRow (l : LevelRow) : Type 0 where
  pub star : Allows 1 5 l.star
  pub cols : Allows 2 20 l.grid_cols
  pub rows : Allows 2 20 l.grid_rows
  pub seconds : Allows 30 3600 l.play_seconds
  pub xp : Allows 0 100000 l.xp_reward

pub record PlayableTier (t : ExpeditionTier) : Type 0 where
  pub star : InRange 1 5 t.star
  pub cols : InRange 2 20 t.grid_cols
  pub rows : InRange 2 20 t.grid_rows
  pub seconds : InRange 30 3600 t.play_seconds
  pub xp : InRange 0 100000 t.xp_reward

-- A campaign of n levels, at most a thousand, all playable.
pub record Campaign (n : ℕ) (rows : List LevelRow) : Type 0 where
  pub numbered : NumberedTo n rows
  pub playable : All PlayableRow rows
  pub capped : n ≤ 1000

pub Campaign-append :
    (n : ℕ) (rows : List LevelRow) (l : LevelRow)
    → l.level_index ≡ n + 1
    → PlayableRow l
    → n < 1000
    → Campaign n rows
    → Campaign (n + 1) (rows ++ l ∷ [])
Campaign-append n rows l e p lt c = record {
  numbered = NumberedTo-append n rows l e c.numbered;
  playable = All-append PlayableRow rows l c.playable p;
  capped = omega (arith, lt);
}

pub Campaign-delete :
    (n : ℕ) (rows : List LevelRow)
    → Campaign (suc n) rows
    → Campaign n (delete (index_is (suc n)) rows)
Campaign-delete n rows c = record {
  numbered = NumberedTo-delete n rows c.numbered;
  playable = All-delete (index_is (suc n)) PlayableRow rows c.playable;
  capped = omega (arith, c.capped);
}

pub Campaign-update :
    (n : ℕ) (p : LevelRow → Bool) (f : LevelRow → LevelRow) (rows : List LevelRow)
    → ((l : LevelRow) → (f l).level_index ≡ l.level_index)
    → ((l : LevelRow) → PlayableRow (f l))
    → Campaign n rows
    → Campaign n (update p f rows)
Campaign-update n p f rows same k c = record {
  numbered = NumberedTo-update n p f rows same c.numbered;
  playable = All-update PlayableRow p f rows (λ l t h. k l) c.playable;
  capped = c.capped;
}

tier_for_level-PlayableTier : (i : ℕ) → PlayableTier (tier_for_level i)
unfolding tier_for_level
tier_for_level-PlayableTier i = record {
  star = ground arith;
  cols = ground arith;
  rows = ground arith;
  seconds = ground arith;
  xp = ground arith;
}

allowed :
    (least most : ℕ) (o : Option ℤ) (z : ℤ)
    → Allows least most o
    → InRange least most z
    → InRange least most (or_default o z)
allowed least most none z a r = r
allowed least most (some x) z a r = a

pub row-PlayableTier :
    (i : ℕ) (o : Option LevelRow)
    → ((l : LevelRow) → o ≡ some l → PlayableRow l)
    → PlayableTier (effective_tier i (config_of o))
unfolding effective_tier
row-PlayableTier i none h = tier_for_level-PlayableTier i
row-PlayableTier i (some l) h =
    let p = h l refl in
    let t = tier_for_level-PlayableTier i in
    record {
      star = allowed 1 5 l.star (tier_for_level i).star p.star t.star;
      cols = allowed 2 20 l.grid_cols (tier_for_level i).grid_cols p.cols t.cols;
      rows = allowed 2 20 l.grid_rows (tier_for_level i).grid_rows p.rows t.rows;
      seconds = allowed 30 3600 l.play_seconds (tier_for_level i).play_seconds p.seconds t.seconds;
      xp = allowed 0 100000 l.xp_reward (tier_for_level i).xp_reward p.xp t.xp;
    }
