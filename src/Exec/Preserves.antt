-- ===== src/Exec/Preserves.antt =====
-- Invariants of code that changes the world, one rule for each way to build such code.
use agentic_cloud_pipeline_g.Prelude.{Bool, true, false, if◌then◌else◌}
use agentic_cloud_pipeline_g.World.{World}
use agentic_cloud_pipeline_g.Exec.{Exec, Result, ok, raised, Exception, pure, raise, ◌>>=◌}

-- The code keeps `P`, whether it returns or raises.
pub record Preserves {ℓ} {A : Type ℓ} (P : World → Type 0) (m : Exec A) : Type ℓ where
  pub at : (w : World) → P w → P (m w).1

module _ {ℓ} {A : Type ℓ} {P : World → Type 0} where
  pub Preserves-pure : (a : A) → Preserves P (pure a)
  Preserves-pure a = record { at = λ w h. h }

  pub Preserves-raise : (x : Exception) → Preserves P (raise {A = A} x)
  Preserves-raise x = record { at = λ w h. h }

  pub Preserves-if :
      (b : Bool) (m n : Exec A) → Preserves P m → Preserves P n → Preserves P (if b then m else n)
  Preserves-if true m n h k = h
  Preserves-if false m n h k = k

  -- The same where the state is applied inside the branches.
  pub Preserves-if_at :
      (b : Bool) (m n : Exec A)
      → Preserves P m
      → Preserves P n
      → Preserves P (λ w. if b then m w else n w)
  Preserves-if_at true m n h k = h
  Preserves-if_at false m n h k = k

module _ {ℓ κ} {A : Type ℓ} {B : Type κ} {P : World → Type 0} where
  continue-P :
      (r : Result A) (w : World) (f : A → Exec B)
      → P w
      → ((a : A) → Preserves P (f a))
      → P (◌>>=◌ (λ _. (r, w)) f w).1
  continue-P (ok a) w f h k = (k a).at w h
  continue-P (raised x) w f h k = h

  pub Preserves-bind :
      (m : Exec A) (f : A → Exec B)
      → Preserves P m
      → ((a : A) → Preserves P (f a))
      → Preserves P (m >>= f)
  Preserves-bind m f h k = record { at = λ w p. continue-P (m w).0 (m w).1 f (h.at w p) k }

pub ruleset preserves_rules = (Preserves-pure, Preserves-raise, Preserves-if, Preserves-bind)
