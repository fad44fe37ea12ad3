-- ===== src/Expedition/Gate.antt =====
-- The campaign that a player sees agrees with the gate that the server keeps.
use magic_jigsaw.Prelude.{
  inr, inl, ℕ, zero, suc, ◌+◌, ◌≡◌, ◌≤◌, true, not, Option, List, [], ◌∷◌, String, ℤ, pos, int_le,
  int_lt, if◌then◌else◌, All, length, refl, arith, Bool-cases, ◌∙◌, sym, ap,
}
use magic_jigsaw.Expedition.Tiers.{
  ExpeditionTier, with_star, required_stars_from_tiers, required_stars_from_tiers-next, add_tiers,
}
use magic_jigsaw.Expedition.Campaign.{
  LevelImage, ExpeditionLevel, level_view, levels_from, build_expedition_state, is_locked,
}

-- The level is shown as the gate and the sum of stars have it.
pub record Agrees (tiers : ℕ → ExpeditionTier) (total_stars : ℤ) (l : ExpeditionLevel)
    : Type 0 where
  pub unlocked : l.unlocked ≡ not (is_locked tiers total_stars l.index)
  pub required :
      l.required_stars
      ≡ (if (tiers l.index).show_on_main then required_stars_from_tiers tiers l.index else pos 0)
  pub locked : is_locked tiers total_stars l.index ≡ true → l.status ≡ "locked"

int_le-not : (a b : ℤ) → int_le a b ≡ not (int_lt b a)
int_le-not a b = ground arith

-- The levels stand in order, from the i-th on.
abbrev pub Numbered : ℕ → List ExpeditionLevel → Type 0
Numbered i [] = Unit
Numbered i (l ∷ ls) = (l.index ≡ i) × Numbered (i + 1) ls

module _ (tiers : ℕ → ExpeditionTier) (images : ℕ → LevelImage) (progress : ℕ → Option String)
    (total_stars : ℤ) where
  level_view-Agrees :
      (i : ℕ) (req : ℤ)
      → req ≡ required_stars_from_tiers tiers i
      → Agrees tiers total_stars (level_view tiers images progress total_stars i req)
  unfolding level_view is_locked
  level_view-Agrees i req e = record {
    unlocked = elim (Bool-cases (tiers i).show_on_main) [
      | inl s ↦ rw (s, e) (int_le-not (required_stars_from_tiers tiers i) total_stars)
      | inr s ↦ rw s refl
    ];
    required = rw e refl;
    locked = λ h. ground (arith, e);
  }

  levels_from-Agrees :
      (i : ℕ) (req : ℤ) (n : ℕ)
      → 1 ≤ i
      → req ≡ required_stars_from_tiers tiers i
      → All (Agrees tiers total_stars) (levels_from tiers images progress total_stars i req n)
  unfolding levels_from
  levels_from-Agrees i req zero h e = tt
  levels_from-Agrees i req (suc n) h e = (
    level_view-Agrees i req e,
    levels_from-Agrees (i + 1) (with_star (tiers i) req) n (omega (arith, h))
        (ap (with_star (tiers i)) e ∙ sym (required_stars_from_tiers-next tiers i h)),
  )

  levels_from-Numbered :
      (i : ℕ) (req : ℤ) (n : ℕ)
      → Numbered i (levels_from tiers images progress total_stars i req n)
        × (length (levels_from tiers images progress total_stars i req n) ≡ n)
  unfolding levels_from level_view
  levels_from-Numbered i req zero = (tt, refl)
  levels_from-Numbered i req (suc n) =
      let (ns, size) = levels_from-Numbered (i + 1) (with_star (tiers i) req) n in
      ((refl, ns), omega (arith, size))

  -- The state that buildExpeditionState makes lists the levels 1 to `level_count`, in order. Each is
  -- shown unlocked exactly when the gate of handleStartExpedition and handleCompleteExpedition lets it
  -- through, shown as "locked" otherwise, and requires what RequiredStarsFromTiers says if it stands on
  -- the map and no star if it does not.
  pub build_expedition_state-Agrees :
      (level_count : ℕ)
      → let ls = (build_expedition_state tiers images progress total_stars level_count).levels in
        Numbered 1 ls × (length ls ≡ level_count) × All (Agrees tiers total_stars) ls
  unfolding build_expedition_state required_stars_from_tiers add_tiers
  build_expedition_state-Agrees level_count = (
    (levels_from-Numbered 1 (pos 0) level_count).0,
    (levels_from-Numbered 1 (pos 0) level_count).1,
    levels_from-Agrees 1 (pos 0) level_count (omega arith) refl,
  )
