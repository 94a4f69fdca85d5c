-- ===== src/Iov/Tests.antt =====
-- The theorems on mk_iov.h at a list with room for two entries, of which one is used.
use my_repo.Base.{◌≡◌, refl, true, some, [], ◌∷◌, arith}
use my_repo.Iov.{Iov, iov_add}
use my_repo.Iov.Add.{IsValid, iov_add-IsValid}

abbrev iov : Iov
iov = record {
  iov_idx = 1;
  buf_idx = 0;
  size = 2;
  total_len = 5;
  io = record { iov_base = 100; iov_len = 5 } ∷ record { iov_base = 0; iov_len = 0 } ∷ [];
  buf_to_free = 0 ∷ 0 ∷ [];
}

iov-IsValid : IsValid iov
iov-IsValid = record {
  room = refl;
  used = omega arith;
  bufs = omega arith;
  marked = omega arith;
  sum = refl;
}

iov_add-IsValid_example :
    (done : Iov) × (iov_add iov 200 7 true ≡ some (some 2, done))
    × (done.iov_idx ≡ 2)
    × (done.total_len ≡ 12)
    × IsValid done
iov_add-IsValid_example = iov_add-IsValid iov 200 7 iov-IsValid true (omega arith)
