-- ===== src/Align/Tests.antt =====
-- Instances of the theorems on alignments.
use noise_v.Base.{◌≡◌, refl, arith}
use noise_v.Align.{align_down, align_up}
use noise_v.Align.Bounds.{align_down-power}

align_up_runs : align_up 4097 4096 ≡ 8192
unfolding align_up align_down
align_up_runs = refl

align_down-power_example : align_down 4097 4096 ≡ 4096
align_down-power_example = align_down-power 12 (omega arith) 4097 (omega arith)
