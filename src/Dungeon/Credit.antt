-- ===== src/Dungeon/Credit.antt =====
-- internal/api: what the handlers' credit of XP does to the tables.
use magic_jigsaw.Prelude.{
  ℕ, ◌≡◌, ◌⊎◌, inl, inr, refl, Bool, true, false, Option, some, ℤ, ◌+ℤ◌, subst, sym, arith,
  Bool-cases, Option-cases,
}
use magic_jigsaw.Db.Schema.{Db, UserRow}
use magic_jigsaw.Db.Table.{select, update}
use magic_jigsaw.Db.Writes.{Changed, Changed-update, Changed-none}
use magic_jigsaw.Db.Action.{Env, World, execute}
use magic_jigsaw.Points.Statements.{update_xp, select_xp, user_is, gain_xp}
use magic_jigsaw.Dungeon.Handler.{credit_xp}
use magic_jigsaw.Points.Store.{add_xp, get_xp}

-- A user with the XP added, and the same otherwise.
pub record GainsXp (xp : ℤ) (u u' : UserRow) : Type 0 where
  pub total : u'.xp ≡ u.xp +ℤ xp
  pub rest : u ≡ record u' { xp = u.xp }

-- XP are added to the user's, and nothing else changes.
abbrev pub PaysXp : ℕ → ℤ → Db → Db → Type 0
PaysXp user_id xp d d' =
    (r : Option ℤ) × (update_xp user_id xp d ≡ some (r, d'))
    × Changed (user_is user_id) (GainsXp xp) d.users d'.users
    × (d' ≡ record d { users = d'.users })

update_xp-PaysXp :
    (user_id : ℕ) (xp : ℤ) (d : Db) (r : Option ℤ) (d' : Db)
    → update_xp user_id xp d ≡ some (r, d')
    → PaysXp user_id xp d d'
unfolding update_xp
update_xp-PaysXp user_id xp d r d' h = elim (Option-cases (select (user_is user_id) d.users)) [
  | inl n ↦
      let same : d.users ≡ d'.users = ground arith in
      (
        r,
        h,
        subst (Changed (user_is user_id) (GainsXp xp) d.users) same
            (Changed-none (user_is user_id) (GainsXp xp) d.users n),
        ground arith,
      )
  | inr (u, n) ↦
      let set : update (user_is user_id) (gain_xp xp) d.users ≡ d'.users = ground arith in
      (
        r,
        h,
        subst (Changed (user_is user_id) (GainsXp xp) d.users) set (
            Changed-update (user_is user_id) (GainsXp xp) (gain_xp xp) d.users
              (λ x. record { total = refl; rest = refl })),
        ground arith,
      )
]

module _ (env : Env) (user_id : ℕ) where
  pub credit_outcome :
      (b : Bool) (xp : ℤ) (w : World)
      → let w' = (credit_xp env b user_id xp w).1 in
        (w'.db ≡ w.db) ⊎ ((b ≡ true) × PaysXp user_id xp w.db w'.db)
  unfolding credit_xp add_xp get_xp execute select_xp
  credit_outcome false xp w = inl (ground arith)
  credit_outcome true xp w = elim (Bool-cases (env.fails w.clock)) [
    | inl f ↦ inl (ground arith)
    | inr f ↦ elim (Option-cases (update_xp user_id xp w.db)) [
      | inl n ↦ inl (ground arith)
      | inr ((r, d), n) ↦
          let ended : (credit_xp env true user_id xp w).1.db ≡ d = ground arith in
          inr (
            refl,
            subst (PaysXp user_id xp w.db) (sym ended) (update_xp-PaysXp user_id xp w.db r d n),
          )
    ]
  ]
