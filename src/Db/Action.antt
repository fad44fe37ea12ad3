-- ===== src/Db/Action.antt =====
-- A method of repository.Store: it works on the database, returns a value or an error, and each of
-- its statements may fail. `clock` counts the calls to the driver; which of them fail, and what
-- UUIDs the server generates, is up to the environment.
use magic_jigsaw.Prelude.{
  subst, ◌∙◌, sym, ap, inr, inl, Bool-cases, ◌⊎◌, false, true, ℕ, ◌+◌, ◌≡◌, refl, String, Bool,
  Option, none, some, arith,
}
use magic_jigsaw.Db.Schema.{Db}

-- The driver, the server and the uuid package. `fails n`: the n-th call to the driver returns an
-- error. `gen_random_uuid n`: what the server's function returns in the n-th call.
pub record Env : Type 0 where
  pub fails : ℕ → Bool
  pub gen_random_uuid : ℕ → ℕ
  pub uuid_string : ℕ → String

pub record World : Type 0 where
  pub db : Db
  pub clock : ℕ

-- The errors that callers tell apart; `failed` is any other, wrapped by fmt.Errorf.
pub data Error : Type 0 where
  not_found inactive completed invalid_move wrong_cell already_defeated monsters_remain : Error
  secret_inactive secret_completed tile_revealed tile_out_of_range : Error
  locked level_too_low : Error
  failed : Error

pub data Result {ℓ} (A : Type ℓ) : Type ℓ where
  ok : A → Result A
  err : Error → Result A

pub Result-cases {ℓ} :
    {A : Type ℓ} (r : Result A) → ((e : Error) × (r ≡ err e)) ⊎ ((a : A) × (r ≡ ok a))
Result-cases (ok a) = inr (a, refl)
Result-cases (err e) = inl (e, refl)

abbrev pub Action {ℓ} : Type ℓ → Type ℓ
Action A = World → Result A × World

module _ {ℓ} {A : Type ℓ} where
  abbrev pub pure : A → Action A
  pure a w = (ok a, w)

  abbrev pub raise : Error → Action A
  raise e w = (err e, w)

  abbrev pub or_raise : Option A → Error → Action A
  or_raise none e w = (err e, w)
  or_raise (some a) e w = (ok a, w)

infixl 5 ◌>>=◌ ◌>>◌
abbrev pub ◌>>=◌ {ℓ κ} : {A : Type ℓ} {B : Type κ} → Action A → (A → Action B) → Action B
◌>>=◌ m f w = let (r, w') = m w in elim r [ ok a ↦ f a w' | err e ↦ (err e, w') ]

abbrev pub ◌>>◌ {ℓ} : {B : Type ℓ} → Action (Unit {0}) → Action B → Action B
m >> k = m >>= λ _. k

-- `if c { return err }`
abbrev pub raise_if : Bool → Error → Action (Unit {0})
raise_if true e w = (err e, w)
raise_if false e w = (ok tt, w)

module _ {ℓ} {A : Type ℓ} where
  -- `if c { m } else { k }`
  abbrev pub branch : Bool → Action A → Action A → Action A
  branch true m k w = m w
  branch false m k w = k w

  -- The two cases of errors.Is(err, pgx.ErrNoRows).
  abbrev pub on_row {κ} : {B : Type κ} → Option B → Action A → (B → Action A) → Action A
  on_row none m k w = m w
  on_row (some b) m k w = k b w

-- What the server answers to a statement: a value and the new tables, or an error.
abbrev pub Statement {ℓ} : Type ℓ → Type ℓ
Statement A = Db → Option (A × Db)

module _ (env : Env) where
  -- pool.QueryRow, pool.Exec and the same of a transaction.
  unfoldable pub execute {ℓ} : {A : Type ℓ} → Statement A → Action A
  execute s w = elim (env.fails w.clock) [
    | true ↦ (err failed, record w { clock = w.clock + 1 })
    | false ↦ elim (s w.db) [
      | none ↦ (err failed, record w { clock = w.clock + 1 })
      | some (a, d) ↦ (ok a, record { db = d; clock = w.clock + 1 })
    ]
  ]

-- A bind that returns a value ran both of its parts.
bind_ok :
    {A B : Type 0} (m : Action A) (k : A → Action B) (w : World) (b : B)
    → ((m >>= k) w).0 ≡ ok b
    → (a : A) × ((m w).0 ≡ ok a) × ((m >>= k) w ≡ k a (m w).1)
bind_ok m k w b h = elim (Result-cases (m w).0) [
  | inl (e, n) ↦ absurd (ground arith)
  | inr (a, n) ↦ (a, n, rw (n, ◌>>=◌) refl)
]

-- What the second part of a bind establishes, the bind establishes.
pub bind_ran :
    {A B : Type 0} (P : Result B × World → Type 0) (m : Action A) (k : A → Action B) (w : World)
    (b : B)
    → ((m >>= k) w).0 ≡ ok b
    → ((a : A) → (m w).0 ≡ ok a → (k a (m w).1).0 ≡ ok b → P (k a (m w).1))
    → P ((m >>= k) w)
bind_ran P m k w b h f =
    let (a, n, same) = bind_ok m k w b h in
    subst P (sym same) (f a n (ap (λ r. r.0) (sym same) ∙ h))

-- What a bind establishes when its first part fails, and when its second part runs.
pub bind_split :
    {A B : Type 0} (P : Result B × World → Type 0) (m : Action A) (k : A → Action B) (w : World)
    → ((e : Error) → (m w).0 ≡ err e → P (err e, (m w).1))
    → ((a : A) → (m w).0 ≡ ok a → P (k a (m w).1))
    → P ((m >>= k) w)
bind_split P m k w f g = elim (Result-cases (m w).0) [
  | inl (e, h) ↦ rw (h, ◌>>=◌) (f e h)
  | inr (a, h) ↦ rw (h, ◌>>=◌) (g a h)
]

-- A statement that returns a value did what the server answered.
pub execute_ok :
    {A : Type 0} (env : Env) (s : Statement A) (w : World) (a : A)
    → (execute env s w).0 ≡ ok a
    → s w.db ≡ some (a, (execute env s w).1.db)
unfolding execute
execute_ok env s w a h = ground arith

-- One that returns an error changed nothing.
pub execute_err :
    {A : Type 0} (env : Env) (s : Statement A) (w : World) (e : Error)
    → (execute env s w).0 ≡ err e
    → (execute env s w).1.db ≡ w.db
unfolding execute
execute_err env s w e h = ground arith

-- How the body of a transaction ends when it returns a nil error: with tx.Commit as its last call,
-- or without, so that the deferred tx.Rollback undoes it.
pub data Ending (A : Type 0) : Type 0 where
  commit : A → Ending A
  rollback : A → Ending A

module _ (env : Env) {A : Type 0} where
  -- tx.Commit, whose failure leaves the tables as they were before the transaction.
  unfoldable pub finish : Db → Result (Ending A) × World → Result A × World
  finish before (err e, w) = (err e, record w { db = before })
  finish before (ok (rollback a), w) = (ok a, record w { db = before })
  finish before (ok (commit a), w) = elim (env.fails w.clock) [
    | true ↦ (err failed, record { db = before; clock = w.clock + 1 })
    | false ↦ (ok a, record w { clock = w.clock + 1 })
  ]

  -- pool.Begin, the statements, and tx.Commit or the deferred tx.Rollback.
  unfoldable pub transaction : Action (Ending A) → Action A
  unfolding finish
  transaction body w = elim (env.fails w.clock) [
    | true ↦ (err failed, record w { clock = w.clock + 1 })
    | false ↦ finish w.db (body (record w { clock = w.clock + 1 }))
  ]

  finish-err :
      (d : Db) (r : Result (Ending A) × World) (e : Error)
      → (finish d r).0 ≡ err e
      → (finish d r).1.db ≡ d
  unfolding finish
  finish-err d (err x, w) e h = refl
  finish-err d (ok (rollback a), w) e h = refl
  finish-err d (ok (commit a), w) e h = ground arith

  -- A transaction that returns an error leaves every table as it was.
  pub transaction-err :
      (body : Action (Ending A)) (w : World) (e : Error)
      → (transaction body w).0 ≡ err e
      → (transaction body w).1.db ≡ w.db
  unfolding transaction
  transaction-err body w e h =
      ground (arith, true, false, finish-err w.db (body (record w { clock = w.clock + 1 })) e)

module _ (env : Env) {A : Type 0} (body : Action (Ending A)) (w : World) where
  -- The world in which the body of the transaction runs.
  abbrev pub begun : World
  begun = record w { clock = w.clock + 1 }

  -- An error, and nothing done.
  pub record Aborts : Type 0 where
    pub error : Error
    pub returned : (transaction env body w).0 ≡ err error
    pub unchanged : (transaction env body w).1.db ≡ w.db

  -- A value, and nothing done.
  pub record RollsBack : Type 0 where
    pub value : A
    pub ended : (body begun).0 ≡ ok (rollback value)
    pub returned : (transaction env body w).0 ≡ ok value
    pub unchanged : (transaction env body w).1.db ≡ w.db

  -- A value, and all done that the body did.
  pub record CommitsTo : Type 0 where
    pub value : A
    pub ended : (body begun).0 ≡ ok (commit value)
    pub returned : (transaction env body w).0 ≡ ok value
    pub done : (transaction env body w).1.db ≡ (body begun).1.db

  outcome_of : (r : Result (Ending A)) → (body begun).0 ≡ r → Aborts ⊎ RollsBack ⊎ CommitsTo
  unfolding transaction
  outcome_of (err e) h = elim (Bool-cases (env.fails w.clock)) [
    | inl f ↦ inl (record { error = failed; returned = ground arith; unchanged = ground arith })
    | inr f ↦ inl (record { error = e; returned = ground arith; unchanged = ground arith })
  ]
  outcome_of (ok (rollback a)) h = elim (Bool-cases (env.fails w.clock)) [
    | inl f ↦ inl (record { error = failed; returned = ground arith; unchanged = ground arith })
    | inr f ↦
        inr
          (inl (record { value = a; ended = h; returned = ground arith; unchanged = ground arith }))
  ]
  outcome_of (ok (commit a)) h = elim (Bool-cases (env.fails w.clock)) [
    | inl f ↦ inl (record { error = failed; returned = ground arith; unchanged = ground arith })
    | inr f ↦ elim (Bool-cases (env.fails (body begun).1.clock)) [
      | inl g ↦ inl (record { error = failed; returned = ground arith; unchanged = ground arith })
      | inr g ↦
          inr (inr (record { value = a; ended = h; returned = ground arith; done = ground arith }))
    ]
  ]

  -- A transaction does all that its body did, or nothing.
  pub transaction_outcome : Aborts ⊎ RollsBack ⊎ CommitsTo
  transaction_outcome = outcome_of (body begun).0 refl
