-- ===== src/Points/Levels.antt =====
-- internal/models/models.go: XPForLevelUp and LevelFromXP. Levels are 1 to 100, so that the cost of a
-- level is far from the bounds of an int.
use magic_jigsaw.Prelude.{
  sym, subst, ap, ℕ, zero, suc, ◌+◌, ◌-◌, ◌*◌, ◌^◌, ◌≡◌, ◌≤◌, ◌<◌, ◌⊎◌, inl, inr, ℤ, pos, int_lt,
  int_sub, leb, refl, arith, Bool-cases, false, if◌then◌else◌,
}

abbrev pub max_level : ℕ
max_level = 100

abbrev pub xp_base : ℕ
xp_base = 100

unfoldable pub xp_for_level_up : ℕ → ℕ
xp_for_level_up level = if leb max_level level then 0 else xp_base * level * level

-- The loop of LevelFromXP from `level` on, with `n` levels left below the highest.
unfoldable pub climb : ℕ → ℕ → ℤ → ℕ × ℤ
climb zero level remaining = (level, remaining)
climb (suc n) level remaining =
    let above = climb n (level + 1) (int_sub remaining (pos (xp_for_level_up level))) in
    if int_lt remaining (pos (xp_for_level_up level)) then (level, remaining) else above

-- The level, the XP into it, and the XP for the next one.
unfoldable pub level_from_xp : ℤ → ℕ × ℤ × ℕ
level_from_xp xp =
    let (level, remaining) = climb (max_level - 1) 1 xp in (level, remaining, xp_for_level_up level)

-- What the first `n` level-ups cost together.
abbrev pub total_xp : ℕ → ℕ
total_xp zero = 0
total_xp (suc n) = total_xp n + xp_for_level_up (suc n)

-- The level that the loop reaches from the level `start + 1` with `x` XP left, and `into` of them left
-- there.
pub record Reaches (start x level into : ℕ) : Type 0 where
  pub below : ℕ
  pub level_is : level ≡ suc below
  pub least : start ≤ below
  pub most : level ≤ max_level
  pub spent : total_xp below + into ≡ total_xp start + x
  pub short : (level ≡ max_level) ⊎ (into < xp_for_level_up level)

int_sub_small : (a b : ℕ) → b ≤ a → a < 2 ^ 63 → int_sub (pos a) (pos b) ≡ pos (a - b)
int_sub_small a b h s = ground arith

climb-step :
    (n k x : ℕ)
    → xp_for_level_up (suc k) ≤ x
    → x < 2 ^ 63
    → int_lt (pos x) (pos (xp_for_level_up (suc k))) ≡ false
    → climb (suc n) (suc k) (pos x) ≡ climb n (suc (suc k)) (pos (x - xp_for_level_up (suc k)))
unfolding climb
climb-step n k x enough s t =
    rw (t, int_sub_small x (xp_for_level_up (suc k)) enough s)
      (ap (λ l. climb n l (pos (x - xp_for_level_up (suc k)))) (omega arith))

climb-Reaches :
    (n k x : ℕ)
    → suc k + n ≡ 100
    → x < 2 ^ 63
    → (into : ℕ) × ((climb n (suc k) (pos x)).1 ≡ pos into)
      × Reaches k x (climb n (suc k) (pos x)).0 into
unfolding climb
climb-Reaches zero k x e s = (
  x,
  refl,
  record {
    below = k;
    level_is = refl;
    least = omega arith;
    most = omega (arith, e);
    spent = refl;
    short = inl (omega (arith, e));
  },
)
climb-Reaches (suc n) k x e s = elim (Bool-cases (int_lt (pos x) (pos (xp_for_level_up (suc k))))) [
  | inl t ↦ rw t (
    x,
    refl,
    record {
      below = k;
      level_is = refl;
      least = omega arith;
      most = omega (arith, e);
      spent = refl;
      short = inr (ground (arith, t));
    },
  )
  | inr t ↦
      let enough : xp_for_level_up (suc k) ≤ x = ground (arith, t) in
      let (into, is, r) =
        climb-Reaches n (suc k) (x - xp_for_level_up (suc k)) (omega (arith, e))
          (omega (arith, s)) in
      subst (λ (v : ℕ × ℤ). (into : ℕ) × (v.1 ≡ pos into) × Reaches k x v.0 into)
        (sym (climb-step n k x enough s t))
        (
          into,
          is,
          record {
            below = r.below;
            level_is = r.level_is;
            least = omega (arith, r.least);
            most = r.most;
            spent = omega (arith, r.spent, enough);
            short = r.short;
          },
        )
]

-- LevelFromXP of XP that are not negative and fit an int: the level is 1 to 100, the XP are what the
-- level-ups below it cost together and the XP into it, these do not cover the next level-up unless the
-- level is 100, and the last result is what XPForLevelUp says of the level.
pub level_from_xp_lem :
    (x : ℕ)
    → x < 2 ^ 63
    → let (level, remaining, next) = level_from_xp (pos x) in
      (into : ℕ) × (remaining ≡ pos into) × Reaches 0 x level into × (next ≡ xp_for_level_up level)
unfolding level_from_xp
level_from_xp_lem x s =
    let (into, is, r) = climb-Reaches 99 0 x (omega arith) s in (into, is, r, refl)
