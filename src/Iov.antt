-- ===== src/Iov.antt =====
-- The gather lists of monkey/mk_core/mk_iov.h. `io` and `buf_to_free` are the arrays as they were
-- allocated; `none` is an access behind their ends. Lengths are not negative, and the total is
-- below 2 ^ 64.
pub mod Add
mod Tests
use my_repo.Base.{
  ℕ, zero, suc, ◌+◌, Bool, true, false, Option, none, some, List, [], ◌∷◌, length, set, ltb,
  if◌then◌else◌,
}

pub record IoVec : Type 0 where
  pub iov_base : ℕ
  pub iov_len : ℕ

pub record Iov : Type 0 where
  pub iov_idx : ℕ
  pub buf_idx : ℕ
  pub size : ℕ
  pub total_len : ℕ
  pub io : List IoVec
  pub buf_to_free : List ℕ

abbrev pub store : {A : Type 0} → List A → ℕ → A → Option (List A)
store xs i v = if ltb i (length xs) then some (set xs i v) else none

-- The loop that clears the first entries, from the entry `i` on with `k` to go.
unfoldable pub clear : List IoVec → (k i : ℕ) → Option (List IoVec)
clear io zero i = some io
clear io (suc k) i = elim (store io i (record { iov_base = 0; iov_len = 0 })) [
  | none ↦ none
  | some io' ↦ clear io' k (i + 1)
]

unfoldable pub iov_init : Iov → (n offset : ℕ) → Option Iov
unfolding clear
iov_init iov n offset = elim (clear iov.io offset 0) [
  | none ↦ none
  | some io ↦ some (record iov { iov_idx = offset; buf_idx = 0; total_len = 0; size = n; io = io })
]

-- `_mk_iov_set_free`
unfoldable pub iov_set_free : Iov → (buf : ℕ) → Option Iov
iov_set_free mk_io buf = elim (store mk_io.buf_to_free mk_io.buf_idx buf) [
  | none ↦ none
  | some bufs ↦ some (record mk_io { buf_to_free = bufs; buf_idx = mk_io.buf_idx + 1 })
]

-- The result is `none` for -1.
unfoldable pub iov_add : Iov → (buf len : ℕ) (free : Bool) → Option (Option ℕ × Iov)
unfolding iov_set_free
iov_add mk_io buf len free =
    elim (store mk_io.io mk_io.iov_idx (record { iov_base = buf; iov_len = len })) [
      | none ↦ none
      | some io ↦
          let added : Iov = record mk_io {
            io = io;
            iov_idx = mk_io.iov_idx + 1;
            total_len = mk_io.total_len + len;
          } in
          elim (if free then iov_set_free added buf else some added) [
            | none ↦ none
            | some done ↦
                some (if ltb done.size done.iov_idx then none else some done.iov_idx, done)
          ]
    ]
