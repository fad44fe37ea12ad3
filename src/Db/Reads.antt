-- ===== src/Db/Reads.antt =====
-- Methods of the store that change no table.
use magic_jigsaw.Prelude.{
  ◌≡◌, ◌∙◌, refl, Option, none, some, arith, Option-cases, Bool-cases, inl, inr,
}
use magic_jigsaw.Db.Schema.{Db}
use magic_jigsaw.Db.Action.{
  Env, World, Error, Action, Statement, Result-cases, pure, or_raise, execute, ◌>>=◌,
}

pub record Reads {A : Type 0} (m : Action A) : Type 0 where
  pub at : (w : World) → (m w).1.db ≡ w.db

-- A statement that answers from the tables alone.
pub record Selects {A : Type 0} (s : Statement A) : Type 0 where
  pub same : (d d' : Db) (a : A) → s d ≡ some (a, d') → d' ≡ d

module _ {A : Type 0} where
  pub Reads-pure : (a : A) → Reads (pure a)
  Reads-pure a = record { at = λ w. refl }

  pub Reads-or_raise : (o : Option A) (e : Error) → Reads (or_raise o e)
  Reads-or_raise none e = record { at = λ w. refl }
  Reads-or_raise (some a) e = record { at = λ w. refl }

  pub Reads-execute : (env : Env) (s : Statement A) → Selects s → Reads (execute env s)
  unfolding execute
  Reads-execute env s k = record {
    at = λ w. elim (Bool-cases (env.fails w.clock)) [
      | inl f ↦ ground (arith, f)
      | inr f ↦ elim (Option-cases (s w.db)) [
        | inl n ↦ ground (arith, f, n)
        | inr ((a, d), n) ↦ ground (arith, f, n, k.same w.db d a n)
      ]
    ];
  }

  pub Reads-bind :
      {B : Type 0} (m : Action A) (k : A → Action B)
      → Reads m
      → ((a : A) → Reads (k a))
      → Reads (m >>= k)
  Reads-bind m k h f = record {
    at = λ w. elim (Result-cases (m w).0) [
      | inl (e, n) ↦ rw (n, ◌>>=◌) (h.at w)
      | inr (a, n) ↦ rw (n, ◌>>=◌) ((f a).at (m w).1 ∙ h.at w)
    ];
  }

pub ruleset reads_rules = (Reads-pure, Reads-or_raise, Reads-execute, Reads-bind)
