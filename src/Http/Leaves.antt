-- ===== src/Http/Leaves.antt =====
-- Handlers that leave the tables as they are.
use magic_jigsaw.Prelude.{◌≡◌, ◌∙◌, refl, ℕ, String, Bool, true, false, inl, inr}
use magic_jigsaw.Db.Action.{World, Action, Result-cases}
use magic_jigsaw.Db.Reads.{Reads}
use magic_jigsaw.Http.Handler.{
  Handler, respond, refuse, unless_refused, attempt, calls, ◌>>=◌, bind_cases,
}

pub record Leaves {A : Type 0} (h : Handler A) : Type 0 where
  pub at : (w : World) → (h w).1.db ≡ w.db

module _ {A : Type 0} where
  pub Leaves-respond : (a : A) → Leaves (respond a)
  Leaves-respond a = record { at = λ w. refl }

  pub Leaves-refuse : (status : ℕ) (code : String) → Leaves (refuse {A = A} status code)
  Leaves-refuse status code = record { at = λ w. refl }

  pub Leaves-unless :
      (b : Bool) (status : ℕ) (code : String) (k : Handler A)
      → Leaves k
      → Leaves (unless_refused b status code k)
  Leaves-unless true status code k l = record { at = λ w. refl }
  Leaves-unless false status code k l = record { at = λ w. l.at w }

  pub Leaves-calls :
      (m : Action A) (status : ℕ) (code : String) → Reads m → Leaves (calls m status code)
  Leaves-calls m status code r = record {
    at = λ w. elim (Result-cases (m w).0) [
      | inl (e, n) ↦ rw n (r.at w)
      | inr (a, n) ↦ rw n (r.at w)
    ];
  }

  pub Leaves-attempt : (m : Action A) → Reads m → Leaves (attempt m)
  Leaves-attempt m r = record { at = λ w. r.at w }

  pub Leaves-bind :
      {B : Type 0} (m : Handler A) (k : A → Handler B)
      → Leaves m
      → ((a : A) → Leaves (k a))
      → Leaves (m >>= k)
  Leaves-bind m k l f = record {
    at = λ w.
        bind_cases (λ x. x.1.db ≡ w.db) m k w (λ s c h. l.at w) (λ a h. (f a).at (m w).1 ∙ l.at w);
  }
