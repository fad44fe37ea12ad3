-- ===== src/Purchases/Handler.antt =====
-- internal/api/points.go: handleConfirmPurchase, once the body is parsed. The verifiers of the stores are
-- an interface; what they answer is up to the services behind them.
use magic_jigsaw.Expedition.Levels.Queries.{total_expedition_stars-Reads}
use magic_jigsaw.Expedition.Levels.Store.{total_expedition_stars}
use magic_jigsaw.Purchases.Ledger.{credit_purchase-Outcome, Credits}
use magic_jigsaw.Purchases.Catalog.{is_known_platform, Reward, reward_for}
use magic_jigsaw.Purchases.Store.{credit_purchase, Purchase, PurchaseBalances}
use magic_jigsaw.Prelude.{
  ℕ, ◌≡◌, ◌⊎◌, inl, inr, refl, sym, subst, ◌∙◌, Bool, true, not, Option, none, some, String, ℤ,
  arith,
}
use magic_jigsaw.Db.Action.{Env, World, Result, ok, err}
use magic_jigsaw.Http.Handler.{
  Answer, Handler, respond, refuse, unless_refused, attempt, calls, ◌>>=◌, calls_bind, unless_cases,
}

pub record ConfirmPurchaseRequest : Type 0 where
  pub product_id : String
  pub source : String
  pub verification_data : String

-- What Verifier.Verify returns: a transaction id, ErrNotVerified, or another error.
pub data Verification : Type 0 where
  verified : String → Verification
  not_verified : Verification
  unreachable : Verification

-- purchases.Verifiers: for a platform with credentials, what its store says of a product and its proof.
pub record Verifiers : Type 0 where
  pub for_platform : String → Option (String → String → Verification)

pub record PurchaseResponse : Type 0 where
  pub points : ℤ
  pub expedition_stars : ℤ

-- The stars of the answer: the bought ones when the total cannot be loaded.
abbrev pub stars_shown : PurchaseBalances → Result ℤ → ℤ
stars_shown b (ok total) = total
stars_shown b (err e) = b.bonus_stars

abbrev pub purchase_of : ConfirmPurchaseRequest → Reward → String → Purchase
purchase_of req reward transaction_id = record {
  product_id = req.product_id;
  platform = req.source;
  transaction_id = transaction_id;
  points = reward.points;
  stars = reward.expedition_stars;
}

module _ (env : Env) (user_id : ℕ) where
  abbrev pub answer_credit : PurchaseBalances × Bool → Handler PurchaseResponse
  answer_credit (balances, credited) = do
    total ← attempt (total_expedition_stars env user_id)
    respond (record { points = balances.points; expedition_stars = stars_shown balances total })

  abbrev pub credit_verified :
      ConfirmPurchaseRequest → Reward → Verification → Handler PurchaseResponse
  credit_verified req reward not_verified = refuse 402 "purchase_not_verified"
  credit_verified req reward unreachable = refuse 503 "verification_unavailable"
  credit_verified req reward (verified transaction_id) = do
    v ← calls (credit_purchase env user_id (purchase_of req reward transaction_id)) 500 "internal"
    answer_credit v

  abbrev pub verify_with :
      ConfirmPurchaseRequest
      → Reward
      → Option (String → String → Verification)
      → Handler PurchaseResponse
  verify_with req reward none = refuse 503 "verification_unavailable"
  verify_with req reward (some verify) =
      credit_verified req reward (verify req.product_id req.verification_data)

  abbrev pub confirm_reward :
      Verifiers → ConfirmPurchaseRequest → Option Reward → Handler PurchaseResponse
  confirm_reward verifiers req none = refuse 400 "unknown_product"
  confirm_reward verifiers req (some reward) =
      unless_refused (not (is_known_platform req.source)) 400 "unknown_source"
        (verify_with req reward (verifiers.for_platform req.source))

  unfoldable pub handle_confirm_purchase :
      Verifiers → Option ConfirmPurchaseRequest → Handler PurchaseResponse
  handle_confirm_purchase verifiers none = refuse 400 "bad_request"
  handle_confirm_purchase verifiers (some req) =
      confirm_reward verifiers req (reward_for req.product_id)

  -- What makes a purchase count: a product of the catalogue, a known platform, and a store that
  -- confirms the purchase.
  pub record Confirmed (verifiers : Verifiers) (req : ConfirmPurchaseRequest) : Type 0 where
    pub reward : Reward
    pub priced : reward_for req.product_id ≡ some reward
    pub known : is_known_platform req.source ≡ true
    pub verify : String → String → Verification
    pub configured : verifiers.for_platform req.source ≡ some verify
    pub transaction_id : String
    pub confirmed : verify req.product_id req.verification_data ≡ verified transaction_id

  module _ (verifiers : Verifiers) (req : ConfirmPurchaseRequest) (w : World) where
    abbrev PaysConfirmed : Answer PurchaseResponse × World → Type 0
    PaysConfirmed x =
        (x.1.db ≡ w.db)
        ⊎ ((c : Confirmed verifiers req) × (v : PurchaseBalances × Bool) × Credits user_id
              (record {
                product_id = req.product_id;
                platform = req.source;
                transaction_id = c.transaction_id;
                points = c.reward.points;
                stars = c.reward.expedition_stars;
              })
              v w.db x.1.db)

    credit_pays :
        (c : Confirmed verifiers req)
        → PaysConfirmed (credit_verified req c.reward (verified c.transaction_id) w)
    credit_pays c =
        let p = purchase_of req c.reward c.transaction_id in
        let m = credit_purchase env user_id p in
        let reads = total_expedition_stars-Reads env user_id in
        elim (credit_purchase-Outcome user_id p env w) [
          | inl (e, r, same) ↦
              calls_bind PaysConfirmed m 500 "internal" answer_credit w (λ e' h. inl same)
                (λ v h. absurd (cc))
          | inr (v, r, inl o) ↦
              calls_bind PaysConfirmed m 500 "internal" answer_credit w (λ e' h. inl o.same)
                (λ v' h. inl (reads.at (m w).1 ∙ o.same))
          | inr (v, r, inr k) ↦
              calls_bind PaysConfirmed m 500 "internal" answer_credit w (λ e' h. absurd (cc))
                (λ v' h. inr (c, v, subst (Credits user_id p v w.db) (sym (reads.at (m w).1)) k))
        ]

    module _ (reward : Reward) (priced : reward_for req.product_id ≡ some reward)
        (known : is_known_platform req.source ≡ true) where
      verified_pays :
          (verify : String → String → Verification) (answer : Verification)
          → verifiers.for_platform req.source ≡ some verify
          → verify req.product_id req.verification_data ≡ answer
          → PaysConfirmed (credit_verified req reward answer w)
      verified_pays verify not_verified configured e = inl refl
      verified_pays verify unreachable configured e = inl refl
      verified_pays verify (verified t) configured e = credit_pays (record {
        reward = reward;
        priced = priced;
        known = known;
        verify = verify;
        configured = configured;
        transaction_id = t;
        confirmed = e;
      })

      verify_pays :
          (o : Option (String → String → Verification))
          → verifiers.for_platform req.source ≡ o
          → PaysConfirmed (verify_with req reward o w)
      verify_pays none e = inl refl
      verify_pays (some verify) e =
          verified_pays verify (verify req.product_id req.verification_data) e refl

    confirm_pays :
        (o : Option Reward)
        → reward_for req.product_id ≡ o
        → PaysConfirmed (confirm_reward verifiers req o w)
    confirm_pays none e = inl refl
    confirm_pays (some reward) e =
        let platform = verifiers.for_platform req.source in
        unless_cases PaysConfirmed (not (is_known_platform req.source)) 400 "unknown_source"
          (verify_with req reward platform) w (λ t. inl refl)
          (λ t. verify_pays reward e (ground arith) platform refl)

    -- However its statements go, handleConfirmPurchase changes no table, or the product is one of the
    -- catalogue's, the platform is known, its store confirmed the purchase, the transaction was not in
    -- the ledger, and it is recorded and the balances of the user grow by what the catalogue says.
    pub handle_confirm_purchase_outcome :
        PaysConfirmed (handle_confirm_purchase verifiers (some req) w)
    unfolding handle_confirm_purchase
    handle_confirm_purchase_outcome = confirm_pays (reward_for req.product_id) refl
