-- ===== src/Quota/Limits.antt =====
-- One limit: the check before a test and the cap on its budget agree.
use btest_rs.Base.{ℕ, ◌-◌, ◌≤◌, ◌<◌, ◌≡◌, refl, ◌↔◌, arith}
use btest_rs.Quota.{QuotaError, Verdict, accept, reject, ◌>>◌, limit_check, cap_budget}

module _ (limit used : ℕ) (error : ℕ → ℕ → QuotaError) where
  -- A limit leaves bytes just when its check accepts.
  pub cap_pos :
      (budget : ℕ)
      → (0 < cap_budget limit used budget)
        ↔ ((0 < budget) × (limit_check limit used error ≡ accept))
  unfolding cap_budget limit_check
  cap_pos budget = ground arith

  -- A refusal has the usage and the limit, which it has reached.
  pub limit_check-reject :
      (e : QuotaError)
      → limit_check limit used error ≡ reject e
      → (e ≡ error used limit) × (0 < limit) × (limit ≤ used)
  unfolding limit_check
  limit_check-reject e h = ground arith

pub cap-le : (limit used budget : ℕ) → cap_budget limit used budget ≤ budget
unfolding cap_budget
cap-le limit used budget = ground arith

pub cap_within : (limit used budget : ℕ) → 0 < limit → cap_budget limit used budget ≤ limit - used
unfolding cap_budget
cap_within limit used budget h = ground arith

pub >>-accept : (v w : Verdict) → ((v >> w) ≡ accept) ↔ ((v ≡ accept) × (w ≡ accept))
>>-accept accept w = (λ e. (refl, e), λ e. e.1)
>>-accept (reject e) w = ground arith

-- A chain of three limits.
pub three_caps :
    (l m n u v w : ℕ) (e f g : ℕ → ℕ → QuotaError) (b : ℕ)
    → (0 < cap_budget n w (cap_budget m v (cap_budget l u b)))
      ↔ ((0 < b) × ((limit_check l u e >> limit_check m v f >> limit_check n w g) ≡ accept))
three_caps l m n u v w e f g b = ground (
  arith,
  cap_pos l u e b,
  cap_pos m v f (cap_budget l u b),
  cap_pos n w g (cap_budget m v (cap_budget l u b)),
)

-- What a chain of three limits leaves is within the budget and within each limit.
pub record IsCapped (l m n u v w b r : ℕ) : Type 0 where
  pub below : r ≤ b
  pub first : 0 < l → r ≤ l - u
  pub second : 0 < m → r ≤ m - v
  pub third : 0 < n → r ≤ n - w

pub three_caps-IsCapped :
    (l m n u v w b : ℕ)
    → IsCapped l m n u v w b (cap_budget n w (cap_budget m v (cap_budget l u b)))
unfolding cap_budget
three_caps-IsCapped l m n u v w b = record {
  below = ground arith;
  first = λ h. ground arith;
  second = λ h. ground arith;
  third = λ h. ground arith;
}
