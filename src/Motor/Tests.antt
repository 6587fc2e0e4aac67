-- ===== src/Motor/Tests.antt =====
-- Keys of src/motor.rs, and its theorem at a concrete input.
use afeye.Prelude.{◌≡◌, refl, if◌then◌else◌, some, codes, arith}
use afeye.Motor.{key_info, named_key}
use afeye.Motor.Layout.{typed, is_above_digit, typed-key_info}

enter_key : named_key (codes "Enter") ≡ ("Enter", "Enter", 13, some 13, 0)
unfolding named_key
enter_key = refl

-- an exclamation mark
typed-key_info_example : typed (key_info 33) ≡ (if is_above_digit 33 then 32 else 33)
typed-key_info_example = typed-key_info 33 (omega arith) (omega arith)
