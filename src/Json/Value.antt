-- ===== src/Json/Value.antt =====
-- What `json.loads` of the standard library gives, and its dictionaries, in which the last of two
-- equal keys counts.
use adversarial_cognition.Prelude.{String, Bool, Option, none, some, ◌==◌, if◌then◌else◌}
use adversarial_cognition.Prelude.Int.{ℤ}

mutual
  -- A `float` is kept as it is written.
  pub data Value : Type 0 where
    null : Value
    truth : Bool → Value
    integer : ℤ → Value
    real : String → Value
    text : String → Value
    array : Values → Value
    object : Members → Value

  pub data Values : Type 0 where
    done : Values
    item : Value → Values → Values

  pub data Members : Type 0 where
    end : Members
    member : String → Value → Members → Members

-- values.append(v)
unfoldable pub append : Values → Value → Values
append done w = item w done
append (item v vs) w = item v (append vs w)

-- d[k] = v
unfoldable pub assign : Members → String → Value → Members
assign end k v = member k v end
assign (member j w ms) k v = if j == k then member j v ms else member j w (assign ms k v)

-- d.get(k)
unfoldable pub lookup : Members → String → Option Value
lookup end k = none
lookup (member j v ms) k = if j == k then some v else lookup ms k
