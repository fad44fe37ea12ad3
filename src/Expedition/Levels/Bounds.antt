-- ===== src/Expedition/Levels/Bounds.antt =====
-- internal/repository/expedition.go: EffectiveTiers; internal/models/expedition.go: the stars that it
-- makes levels require.
use magic_jigsaw.Expedition.Levels.Queries.{effective_tiers_lem, table_tiers}
use magic_jigsaw.Expedition.Levels.Statements.{index_is, max_index}
use magic_jigsaw.Expedition.Levels.Store.{effective_tiers}
use magic_jigsaw.Prelude.{
  int_add, ℕ, zero, suc, ◌+◌, ◌-◌, ◌*◌, ◌≡◌, ◌≤◌, ◌<◌, inl, inr, refl, ap, subst, ◌∙◌, true, ◌&&◌,
  List, ℤ, pos, negsuc, arith, Bool-cases, leb, pos_part,
}
use magic_jigsaw.Db.Table.{All-select, select}
use magic_jigsaw.Db.Schema.{Db}
use magic_jigsaw.Db.Action.{Env, World, ok}
use magic_jigsaw.Expedition.Levels.Playable.{
  Campaign, PlayableTier, PlayableRow, InRange, row-PlayableTier,
}
use magic_jigsaw.Expedition.Levels.Refinement.{level_requests, level_requests-Campaign}
use magic_jigsaw.Expedition.Levels.Numbering.{max_index-NumberedTo}
use magic_jigsaw.Expedition.Levels.Changes.{LevelRequest, level_rows}
use magic_jigsaw.Expedition.Levels.Handlers.{Texts}
use magic_jigsaw.Expedition.Tiers.{ExpeditionTier, with_star, add_tiers, required_stars_from_tiers}

tiers-Playable :
    (n : ℕ) (d : Db) (i : ℕ)
    → Campaign n d.expedition_levels
    → 1 ≤ i
    → i ≤ n
    → PlayableTier (table_tiers d i)
tiers-Playable n d i c low high =
    let is : max_index d.expedition_levels ≡ n =
      max_index-NumberedTo n d.expedition_levels c.numbered in
    let there : (leb 1 i && leb i (max_index d.expedition_levels)) ≡ true = ground (arith, is) in
    rw there (
      row-PlayableTier i (select (index_is i) d.expedition_levels)
        (λ l h. All-select PlayableRow (index_is i) d.expedition_levels l c.playable h))

most_five : (z : ℤ) → InRange 1 5 z → pos_part z ≤ 5
most_five (pos k) r = omega (arith, r.1)
most_five (negsuc k) r = omega arith

int_add_small :
    (a : ℕ) (z : ℤ) → InRange 1 5 z → a ≤ 10000 → int_add (pos a) z ≡ pos (a + pos_part z)
int_add_small a (pos k) r small = ground arith
int_add_small a (negsuc k) r small = absurd (omega (arith, r.0))

-- A star more on the way keeps the sum small.
with_star_bound :
    (t : ExpeditionTier) (a : ℕ)
    → InRange 1 5 t.star
    → a ≤ 10000
    → (b : ℕ) × (with_star t (pos a) ≡ pos b) × (b ≤ a + 5)
with_star_bound t a r small = elim (Bool-cases t.show_on_main) [
  | inl shown ↦ (
    a + pos_part t.star,
    rw shown (int_add_small a t.star r small),
    omega (arith, most_five t.star r),
  )
  | inr hidden ↦ (a, rw hidden refl, omega arith)
]

add_tiers_bound :
    (tiers : ℕ → ExpeditionTier) (a i k : ℕ)
    → ((j : ℕ) → i ≤ j → j < i + k → InRange 1 5 (tiers j).star)
    → a + 5 * k ≤ 10000
    → (b : ℕ) × (add_tiers tiers (pos a) i k ≡ pos b) × (b ≤ a + 5 * k)
unfolding add_tiers
add_tiers_bound tiers a i zero r small = (a, refl, omega arith)
add_tiers_bound tiers a i (suc k) r small =
    let (b, is, le) =
      with_star_bound (tiers i) a (r i (omega arith) (omega arith)) (omega (arith, small)) in
    let (c, is', le') =
      add_tiers_bound tiers b (i + 1) k
        (λ j low high. r j (omega (arith, low)) (omega (arith, high))) (omega (arith, small, le)) in
    (c, ap (λ z. add_tiers tiers z (i + 1) k) is ∙ is', omega (arith, le, le'))

-- From a campaign of playable levels, at most a thousand, after any sequence of the admins' requests:
-- when EffectiveTiers returns, every level has 1 to 5 stars, a puzzle of 2 to 20 columns and rows, 30 to
-- 3600 seconds and at most 100000 XP, and a level, or the one after the last, requires from no stars
-- to five for each level before it.
pub effective_tiers-Playable :
    (env : Env) (texts : Texts) (rs : List LevelRequest) (n : ℕ) (w : World)
    (tiers : ℕ → ExpeditionTier)
    → Campaign n (level_rows w)
    → let w' = level_requests env texts rs w in
      (effective_tiers env w').0 ≡ ok tiers
      → (n' : ℕ) × Campaign n' (level_rows w')
        × ((i : ℕ) → 1 ≤ i → i ≤ n' → PlayableTier (tiers i))
        × ((i : ℕ)
            → 1 ≤ i
            → i ≤ n' + 1
            → (b : ℕ) × (required_stars_from_tiers tiers i ≡ pos b) × (b ≤ 5 * (i - 1)))
unfolding required_stars_from_tiers
effective_tiers-Playable env texts rs n w tiers c h =
    let w' = level_requests env texts rs w in
    let (n', c') = level_requests-Campaign env texts rs n w c in
    let fine : (i : ℕ) → 1 ≤ i → i ≤ n' → PlayableTier (tiers i) = λ i low high.
      subst (λ (f : ℕ → ExpeditionTier). PlayableTier (f i)) (effective_tiers_lem env w' tiers h)
        (tiers-Playable n' w'.db i c' low high) in
    (
      n',
      c',
      fine,
      λ i low high.
          let (b, is, le) =
            add_tiers_bound tiers 0 1 (i - 1) (λ j l m. (fine j l (omega (arith, m, high))).star)
              (omega (arith, high, c'.capped)) in
          (b, is, omega (arith, le)),
    )
