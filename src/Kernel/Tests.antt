-- ===== src/Kernel/Tests.antt =====
-- The numbers of the versions 5.12.7 and 6.0.0 are ordered as the versions are.
use my_repo.Base.{◌<◌, ◌↔◌, refl, arith}
use my_repo.Kernel.{kernel_version}
use my_repo.Kernel.Order.{Before, kernel_version-Before}

kernel_version-Before_example : (330759 < 393216) ↔ Before 5 12 7 6 0 0
unfolding kernel_version
kernel_version-Before_example =
    kernel_version-Before 5 12 7 6 0 0 330759 393216 (omega arith) (omega arith) (omega arith)
      (omega arith) refl refl
