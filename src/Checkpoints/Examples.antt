-- ===== src/Checkpoints/Examples.antt =====
-- The ranges at concrete ledgers.
use aurorav1_11_0_test.Base.{◌≡◌, ◌↔◌, refl, true, [], ◌∷◌, arith}
use aurorav1_11_0_test.Checkpoints.{
  Range, is_checkpoint, prev_checkpoint, next_checkpoint, checkpoints, checkpoints_from,
}
use aurorav1_11_0_test.Checkpoints.Bounds.{IsAligned, Within}
use aurorav1_11_0_test.Checkpoints.Loop.{Occurs, checkpoints-Within}

abbrev three : Range
three = record { low = 63; high = 191 }

abbrev later : Range
later = record { low = 127; high = 255 }

three-IsAligned : IsAligned three
unfolding is_checkpoint
three-IsAligned = record {
  low_end = refl;
  high_end = refl;
  ordered = omega arith;
  fits = omega arith;
}

checkpoints_of_three : checkpoints three ≡ 63 ∷ 127 ∷ 191 ∷ []
unfolding checkpoints checkpoints_from
checkpoints_of_three = refl

first_checkpoint : prev_checkpoint 10 ≡ 63
unfolding prev_checkpoint
first_checkpoint = refl

last_checkpoint : next_checkpoint 0xffff_ffff ≡ 0xffff_ffff
unfolding next_checkpoint
last_checkpoint = refl

checkpoints-Within_example :
    Occurs 127 (checkpoints three) ↔ ((is_checkpoint 127 ≡ true) × Within 127 three)
checkpoints-Within_example = checkpoints-Within three 127 three-IsAligned
