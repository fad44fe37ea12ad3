-- ===== src/Http/Handler.antt =====
-- A handler of internal/api, once its request is parsed: it works on the database and answers with a
-- status and a code, or with the body of a success. The operators chain its steps as its early
-- returns do.
use magic_jigsaw.Prelude.{inr, inl, refl, ◌≡◌, false, true, Bool, ℕ, String}
use magic_jigsaw.Db.Action.{Result-cases, Error, World, Result, ok, err, Action}

-- `refused`: httpx.Error with this status and code.
pub data Answer {ℓ} (A : Type ℓ) : Type ℓ where
  answered : A → Answer A
  refused : ℕ → String → Answer A

abbrev pub Handler {ℓ} : Type ℓ → Type ℓ
Handler A = World → Answer A × World

module _ {ℓ} {A : Type ℓ} where
  abbrev pub respond : A → Handler A
  respond a w = (answered a, w)

  abbrev pub refuse : ℕ → String → Handler A
  refuse status code w = (refused status code, w)

  -- `if c { return err }`
  abbrev pub unless_refused : Bool → ℕ → String → Handler A → Handler A
  unless_refused true status code k w = (refused status code, w)
  unless_refused false status code k w = k w

  -- `if c { m } else { k }`
  abbrev pub choose : Bool → Handler A → Handler A → Handler A
  choose true m k w = m w
  choose false m k w = k w

infixl 5 ◌>>=◌
abbrev pub ◌>>=◌ {ℓ κ} : {A : Type ℓ} {B : Type κ} → Handler A → (A → Handler B) → Handler B
◌>>=◌ m f w = let (r, w') = m w in elim r [ answered a ↦ f a w' | refused s c ↦ (refused s c, w') ]

module _ {ℓ} {A : Type ℓ} where
  -- A call of the store, with its error as a value.
  abbrev pub attempt : Action A → Handler (Result A)
  attempt m w = let (r, w') = m w in (answered r, w')

  abbrev pub or_refuse : Result A → ℕ → String → Handler A
  or_refuse (ok a) status code w = (answered a, w)
  or_refuse (err e) status code w = (refused status code, w)

  -- A call of the store whose every error is answered in the same way.
  abbrev pub calls : Action A → ℕ → String → Handler A
  calls m status code w = let (r, w') = m w in or_refuse r status code w'

module _ {A B : Type 0} (P : Answer B × World → Type 0) (m : Handler A) (k : A → Handler B)
    (w : World) where
  split_bind :
      (r : Answer A)
      → (m w).0 ≡ r
      → ((status : ℕ) (code : String) → r ≡ refused status code → P (refused status code, (m w).1))
      → ((a : A) → r ≡ answered a → P (k a (m w).1))
      → P ((m >>= k) w)
  split_bind (answered a) h f g = rw (h, ◌>>=◌) (g a refl)
  split_bind (refused s c) h f g = rw (h, ◌>>=◌) (f s c refl)

  -- What both parts of a bind establish, the bind establishes.
  pub bind_cases :
      ((status : ℕ) (code : String)
        → (m w).0 ≡ refused status code
        → P (refused status code, (m w).1))
      → ((a : A) → (m w).0 ≡ answered a → P (k a (m w).1))
      → P ((m >>= k) w)
  bind_cases f g = split_bind (m w).0 refl f g

-- A call of the store is refused when it fails.
pub calls_cases :
    {A : Type 0} (P : Answer A × World → Type 0) (m : Action A) (status : ℕ) (code : String)
    (w : World)
    → ((e : Error) → (m w).0 ≡ err e → P (refused status code, (m w).1))
    → ((a : A) → (m w).0 ≡ ok a → P (answered a, (m w).1))
    → P (calls m status code w)
calls_cases P m status code w f g = elim (Result-cases (m w).0) [
  | inl (e, h) ↦ rw h (f e h)
  | inr (a, h) ↦ rw h (g a h)
]

-- The same with a step after the call.
pub calls_bind :
    {A B : Type 0} (P : Answer B × World → Type 0) (m : Action A) (status : ℕ) (code : String)
    (k : A → Handler B) (w : World)
    → ((e : Error) → (m w).0 ≡ err e → P (refused status code, (m w).1))
    → ((a : A) → (m w).0 ≡ ok a → P (k a (m w).1))
    → P ((calls m status code >>= k) w)
calls_bind P m status code k w f g = elim (Result-cases (m w).0) [
  | inl (e, h) ↦ rw (h, ◌>>=◌, calls, h) (f e h)
  | inr (a, h) ↦ rw (h, ◌>>=◌, calls, h) (g a h)
]

pub unless_cases :
    {A : Type 0} (P : Answer A × World → Type 0) (b : Bool) (status : ℕ) (code : String)
    (k : Handler A) (w : World)
    → (b ≡ true → P (refused status code, w))
    → (b ≡ false → P (k w))
    → P (unless_refused b status code k w)
unless_cases P true status code k w f g = f refl
unless_cases P false status code k w f g = g refl
