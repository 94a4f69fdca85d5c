-- ===== src/Iov/Add.antt =====
-- What adding to a gather list keeps.
use my_repo.Base.{
  ℕ, zero, suc, ◌+◌, ◌≤◌, ◌<◌, ◌≡◌, refl, ◌∙◌, Bool, true, false, some, List, [], ◌∷◌, arith,
  length, set, ltb, Bool-cases, inl, inr,
}
use my_repo.Iov.{IoVec, Iov, iov_add, iov_set_free}

-- The lengths of the first `n` entries together.
abbrev pub total : List IoVec → ℕ → ℕ
total io zero = 0
total [] (suc n) = 0
total (v ∷ io) (suc n) = v.iov_len + total io n

-- As many entries and buffers as the list has room for, and the sum of the entries in use.
pub record IsValid (iov : Iov) : Type 0 where
  pub room : length iov.io ≡ iov.size
  pub used : iov.iov_idx ≤ iov.size
  pub bufs : iov.size ≤ length iov.buf_to_free
  pub marked : iov.buf_idx ≤ iov.iov_idx
  pub sum : iov.total_len ≡ total iov.io iov.iov_idx

length-set : {A : Type 0} (xs : List A) (i : ℕ) (v : A) → length (set xs i v) ≡ length xs
length-set [] i v = refl
length-set (x ∷ xs) zero v = refl
length-set (x ∷ xs) (suc i) v = omega (arith, length-set xs i v)

total-set :
    (io : List IoVec) (i : ℕ) (v : IoVec)
    → i < length io
    → total (set io i v) (suc i) ≡ total io i + v.iov_len
total-set [] i v l = absurd (omega arith)
total-set (x ∷ io) zero v l = omega arith
total-set (x ∷ io) (suc i) v l = omega (arith, total-set io i v (omega arith))

module _ (iov : Iov) (buf len : ℕ) (v : IsValid iov) where
  abbrev entry : IoVec
  entry = record { iov_base = buf; iov_len = len }

  -- The list with one entry more, and with `bufs` and `n` for the buffers to free.
  abbrev grown : List ℕ → ℕ → Iov
  grown bufs n = record iov {
    io = set iov.io iov.iov_idx entry;
    iov_idx = iov.iov_idx + 1;
    total_len = iov.total_len + len;
    buf_to_free = bufs;
    buf_idx = n;
  }

  grown-IsValid :
      (bufs : List ℕ) (n : ℕ)
      → iov.iov_idx < iov.size
      → length bufs ≡ length iov.buf_to_free
      → n ≤ iov.buf_idx + 1
      → IsValid (grown bufs n)
  grown-IsValid bufs n l e m = record {
    room = length-set iov.io iov.iov_idx entry ∙ v.room;
    used = omega arith;
    bufs = omega (arith, e, v.bufs);
    marked = omega (arith, m, v.marked);
    sum =
        let next : iov.iov_idx + 1 ≡ suc iov.iov_idx = omega arith in
        rw next
          (omega (arith, total-set iov.io iov.iov_idx entry (omega (arith, l, v.room)), v.sum));
  }

  -- On a valid list with room left, `mk_iov_add` returns the new number of entries, the total grows
  -- by the length of the buffer, and the list is valid again, whether or not the buffer is to be
  -- freed with the list.
  pub iov_add-IsValid :
      (free : Bool)
      → iov.iov_idx < iov.size
      → (done : Iov) × (iov_add iov buf len free ≡ some (some (iov.iov_idx + 1), done))
        × (done.iov_idx ≡ iov.iov_idx + 1)
        × (done.total_len ≡ iov.total_len + len)
        × IsValid done
  unfolding iov_add iov_set_free
  iov_add-IsValid free l =
      let in_io : ltb iov.iov_idx (length iov.io) ≡ true = ground (arith, v.room) in
      let in_bufs : ltb iov.buf_idx (length iov.buf_to_free) ≡ true =
        ground (arith, v.bufs, v.marked) in
      let fits : ltb iov.size (iov.iov_idx + 1) ≡ false = ground arith in
      elim (Bool-cases free) [
        | inl f ↦ (
          grown (set iov.buf_to_free iov.buf_idx buf) (iov.buf_idx + 1),
          rw (iov_add, in_io, f, in_bufs, fits) refl,
          refl,
          refl,
          grown-IsValid (set iov.buf_to_free iov.buf_idx buf) (iov.buf_idx + 1) l
              (length-set iov.buf_to_free iov.buf_idx buf) (omega arith),
        )
        | inr f ↦ (
          grown iov.buf_to_free iov.buf_idx,
          rw (iov_add, in_io, f, fits) refl,
          refl,
          refl,
          grown-IsValid iov.buf_to_free iov.buf_idx l refl (omega arith),
        )
      ]
