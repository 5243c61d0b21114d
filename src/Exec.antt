-- ===== src/Exec.antt =====
-- Code that changes the world and may raise. What was committed before a raise stays, so the world
-- comes back beside the exception.
pub mod Preserves
use agentic_cloud_pipeline_g.Prelude.{ℕ}
use agentic_cloud_pipeline_g.World.{World}

pub data Exception : Type 0 where
  http_error value_error type_error key_error database_error decode_error attribute_error :
      Exception

pub data Result {ℓ} (A : Type ℓ) : Type ℓ where
  ok : A → Result A
  raised : Exception → Result A

abbrev pub Exec {ℓ} : Type ℓ → Type ℓ
Exec A = World → Result A × World

module _ {ℓ} {A : Type ℓ} where
  abbrev pub pure : A → Exec A
  pure a w = (ok a, w)

  abbrev pub raise : Exception → Exec A
  raise e w = (raised e, w)

module _ {ℓ κ} {A : Type ℓ} {B : Type κ} where
  abbrev continue : Result A → (A → Exec B) → Exec B
  continue (ok a) f w = f a w
  continue (raised e) f w = (raised e, w)

  infixl 10 ◌>>=◌
  abbrev pub ◌>>=◌ : Exec A → (A → Exec B) → Exec B
  ◌>>=◌ m f w = let (r, w') = m w in continue r f w'

infixl 10 ◌>>◌
abbrev pub ◌>>◌ {ℓ κ} : {A : Type ℓ} {B : Type κ} → Exec A → Exec B → Exec B
m >> n = m >>= λ _. n

-- A statement that only writes.
abbrev pub update : (World → World) → Exec (Unit {0})
update f w = (ok tt, f w)

-- The time.
abbrev pub clock : Exec ℕ
clock w = (ok w.now, w)
