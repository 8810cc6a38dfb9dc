-- ===== src/Condition/Tests.antt =====
-- A player with a poison, a haste that has no end, and light.
use otchronos.Prelude.{ℕ, ◌^◌, ◌-◌, ◌≡◌, refl, true, List, [], ◌∷◌, arith}
use otchronos.Condition.{
  Base, IntervalInfo, damage, speed, light, Condition, fresh, new_condition, minus_one,
}
use otchronos.Condition.Stream.{add_value, get_value}
use otchronos.Condition.Fields.{write_attrs, own_attrs}
use otchronos.Condition.Store.{
  load_conditions, save_conditions, create_condition, unserialize, expect,
}
use otchronos.Condition.Restored.{IsStored, is_sized, ticks_from}
use otchronos.Condition.Restore.{kept, load_conditions-save_conditions}

abbrev base : ℕ → ℕ → Base
base type ticks = record {
  condition_type = type;
  id = 0;
  ticks = ticks;
  is_buff = true;
  sub_id = 7;
}

abbrev poison : List IntervalInfo → Condition
poison is = record { base = base 1 4000; extra = damage true 0 is }

abbrev bites : List IntervalInfo
bites =
    record { time_left = 2000; value = 2 ^ 32 - 5; interval = 2000 }
    ∷ record { time_left = 2000; value = 2 ^ 32 - 4; interval = 3000 }
    ∷ []

abbrev haste : Condition
haste = record { base = base 16 minus_one; extra = speed 50 0 0 0 0 }

abbrev torch : ℕ → Condition
torch ticks = record { base = base 256 ticks; extra = light 215 6 0 1000 }

poison-IsStored : IsStored (poison bites)
unfolding fresh is_sized
poison-IsStored = record {
  class = refl;
  sized = refl;
  type_word = omega arith;
  id_word = omega arith;
  ticks_word = omega arith;
  sub_id_word = omega arith;
}

haste-IsStored : IsStored haste
unfolding fresh is_sized
haste-IsStored = record {
  class = refl;
  sized = refl;
  type_word = omega arith;
  id_word = omega arith;
  ticks_word = omega arith;
  sub_id_word = omega arith;
}

torch-IsStored : IsStored (torch 9000)
unfolding fresh is_sized
torch-IsStored = record {
  class = refl;
  sized = refl;
  type_word = omega arith;
  id_word = omega arith;
  ticks_word = omega arith;
  sub_id_word = omega arith;
}

load_conditions-save_conditions_example :
    load_conditions 5 (save_conditions (poison bites ∷ haste ∷ torch 9000 ∷ [])) []
    ≡ torch 9000 ∷ record { base = base 1 5000; extra = damage true 0 bites } ∷ []
unfolding kept ticks_from
load_conditions-save_conditions_example =
    load_conditions-save_conditions (poison bites ∷ haste ∷ torch 9000 ∷ []) 5 (omega arith)
      (poison-IsStored, (haste-IsStored, (torch-IsStored, tt)))

torch_again : load_conditions 2 (save_conditions (torch 9000 ∷ [])) [] ≡ torch 9000 ∷ []
unfolding load_conditions save_conditions write_attrs own_attrs create_condition expect
    new_condition fresh unserialize add_value get_value
torch_again = refl
