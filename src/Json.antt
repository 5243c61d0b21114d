-- ===== src/Json.antt =====
-- JSON values, as the fields of an action's `params` and the columns of type JSONB hold them.
-- A finite float is a whole number of units of 2^-1074, the spacing of the smallest doubles: every
-- finite IEEE double is one, so the reading is exact.
use agentic_cloud_pipeline_g.Prelude.{ℕ, ◌^◌, String, Bool, true, false, ◌&&◌, [], ◌∷◌}
use agentic_cloud_pipeline_g.Prelude.Int.{ℤ}
use agentic_cloud_pipeline_g.Prelude.Dict.{Dict}

pub data Float : Type 0 where
  units : ℤ → Float
  nonfinite : Float

mutual
  pub data Json : Type 0 where
    null : Json
    boolean : Bool → Json
    int : ℤ → Json
    float : Float → Json
    text : String → Json
    array : Items → Json
    object : Fields → Json

  pub data Items : Type 0 where
    nil : Items
    cons : Json → Items → Items

  pub data Fields : Type 0 where
    end : Fields
    field : String → Json → Fields → Fields

-- How many units make 1.
unfoldable pub one_unit : ℕ
one_unit = 2 ^ 1074

abbrev pub Params : Type 0
Params = Dict Json

-- Whether every float of a value is finite: a column of type JSONB refuses one that has another.
unfoldable mutual
  pub is_finite : Json → Bool
  is_finite (float nonfinite) = false
  is_finite (array xs) = are_finite_items xs
  is_finite (object fs) = are_finite_fields fs
  is_finite _ = true

  pub are_finite_items : Items → Bool
  are_finite_items nil = true
  are_finite_items (cons v xs) = is_finite v && are_finite_items xs

  pub are_finite_fields : Fields → Bool
  are_finite_fields end = true
  are_finite_fields (field k v fs) = is_finite v && are_finite_fields fs

unfoldable pub are_finite : Params → Bool
unfolding is_finite
are_finite [] = true
are_finite ((k, v) ∷ ps) = is_finite v && are_finite ps
