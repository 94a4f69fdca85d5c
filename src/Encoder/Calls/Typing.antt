-- ===== src/Encoder/Calls/Typing.antt =====
-- The types of the arguments of a variadic call: after the number of a kind of value stand the
-- arguments that the number announces, and a zero stands at the end.
use my_repo.Base.{
  ℕ, zero, suc, ◌^◌, ◌<◌, ◌≡◌, refl, sym, subst, Option, none, some, List, [], ◌∷◌, ◌++◌, map,
  append_assoc, arith,
}
use my_repo.Encoder.ValueTypes.{
  CType, int, unsigned_int, int32, uint32, int64, uint64, size, pointer, double, width, Arg, cast,
}
use my_repo.Encoder.Values.{value_list_terminator}
use my_repo.Encoder.Calls.{Value, expand, expand_all, arguments}

-- What follows the number of a kind of value, from 1 on.
abbrev pub signatures : List (List CType)
signatures =
    (size ∷ [])
    ∷ (pointer ∷ size ∷ [])
    ∷ (size ∷ [])
    ∷ (pointer ∷ size ∷ [])
    ∷ (int ∷ size ∷ [])
    ∷ (pointer ∷ size ∷ [])
    ∷ []
    ∷ (int ∷ [])
    ∷ (int ∷ [])
    ∷ (int ∷ [])
    ∷ (int32 ∷ [])
    ∷ (int64 ∷ [])
    ∷ (unsigned_int ∷ [])
    ∷ (unsigned_int ∷ [])
    ∷ (uint32 ∷ [])
    ∷ (uint64 ∷ [])
    ∷ (double ∷ [])
    ∷ (int ∷ [])
    ∷ (pointer ∷ [])
    ∷ (pointer ∷ size ∷ [])
    ∷ (pointer ∷ [])
    ∷ (pointer ∷ [])
    ∷ (pointer ∷ [])
    ∷ (pointer ∷ [])
    ∷ (pointer ∷ [])
    ∷ []

abbrev pub nth : List (List CType) → ℕ → Option (List CType)
nth [] n = none
nth (t ∷ ts) zero = some t
nth (t ∷ ts) (suc n) = nth ts n

abbrev pub signature : ℕ → Option (List CType)
signature zero = none
signature (suc n) = nth signatures n

abbrev pub Fit : List Arg → Type 0
Fit [] = Unit
Fit (a ∷ given) = (a.bits < 2 ^ width a.type_of) × Fit given

pub data WellTyped : List Arg → Type 0 where
  end : {l : List Arg} → l ≡ cast int 0 ∷ [] → WellTyped l
  value :
      {l rest : List Arg} (number : ℕ) (given : List Arg)
      → signature number ≡ some (map (λ a. a.type_of) given)
      → Fit given
      → WellTyped rest
      → l ≡ cast int number ∷ (given ++ rest)
      → WellTyped l

cast_fits : (t : CType) (v : ℕ) → (cast t v).bits < 2 ^ width t
cast_fits int v = omega arith
cast_fits _ v = omega arith

abbrev casts : List CType → List ℕ → List Arg
casts (t ∷ ts) (v ∷ vs) = cast t v ∷ casts ts vs
casts _ _ = []

casts-Fit : (ts : List CType) (vs : List ℕ) → Fit (casts ts vs)
casts-Fit [] vs = tt
casts-Fit (t ∷ ts) [] = tt
casts-Fit (t ∷ ts) (v ∷ vs) = (cast_fits t v, casts-Fit ts vs)

typed :
    (number : ℕ) (ts : List CType) (vs : List ℕ) (rest : List Arg)
    → signature number ≡ some (map (λ a. a.type_of) (casts ts vs))
    → WellTyped rest
    → WellTyped (cast int number ∷ (casts ts vs ++ rest))
typed number ts vs rest s w = value number (casts ts vs) s (casts-Fit ts vs) w refl

module _ (strlen : ℕ → ℕ) where
  expand-WellTyped :
      (v : Value) (rest : List Arg) → WellTyped rest → WellTyped (expand strlen v ++ rest)
  unfolding expand
  expand-WellTyped (Value.string_length n) rest w = typed 1 (size ∷ []) (n ∷ []) rest refl w
  expand-WellTyped (Value.string_body p n) rest w =
      typed 2 (pointer ∷ size ∷ []) (p ∷ n ∷ []) rest refl w
  expand-WellTyped (Value.binary_length n) rest w = typed 3 (size ∷ []) (n ∷ []) rest refl w
  expand-WellTyped (Value.binary_body p n) rest w =
      typed 4 (pointer ∷ size ∷ []) (p ∷ n ∷ []) rest refl w
  expand-WellTyped (Value.ext_length t n) rest w =
      typed 5 (int ∷ size ∷ []) (t ∷ n ∷ []) rest refl w
  expand-WellTyped (Value.ext_body p n) rest w =
      typed 6 (pointer ∷ size ∷ []) (p ∷ n ∷ []) rest refl w
  expand-WellTyped Value.null rest w = typed 7 [] [] rest refl w
  expand-WellTyped (Value.char v) rest w = typed 8 (int ∷ []) (v ∷ []) rest refl w
  expand-WellTyped (Value.int8 v) rest w = typed 9 (int ∷ []) (v ∷ []) rest refl w
  expand-WellTyped (Value.int16 v) rest w = typed 10 (int ∷ []) (v ∷ []) rest refl w
  expand-WellTyped (Value.int32 v) rest w = typed 11 (int32 ∷ []) (v ∷ []) rest refl w
  expand-WellTyped (Value.int64 v) rest w = typed 12 (int64 ∷ []) (v ∷ []) rest refl w
  expand-WellTyped (Value.uint8 v) rest w = typed 13 (unsigned_int ∷ []) (v ∷ []) rest refl w
  expand-WellTyped (Value.uint16 v) rest w = typed 14 (unsigned_int ∷ []) (v ∷ []) rest refl w
  expand-WellTyped (Value.uint32 v) rest w = typed 15 (uint32 ∷ []) (v ∷ []) rest refl w
  expand-WellTyped (Value.uint64 v) rest w = typed 16 (uint64 ∷ []) (v ∷ []) rest refl w
  expand-WellTyped (Value.double v) rest w = typed 17 (double ∷ []) (v ∷ []) rest refl w
  expand-WellTyped (Value.boolean v) rest w = typed 18 (int ∷ []) (v ∷ []) rest refl w
  expand-WellTyped (Value.msgpack_object v) rest w = typed 19 (pointer ∷ []) (v ∷ []) rest refl w
  expand-WellTyped (Value.msgpack_raw p n) rest w =
      typed 20 (pointer ∷ size ∷ []) (p ∷ n ∷ []) rest refl w
  expand-WellTyped (Value.timestamp v) rest w = typed 21 (pointer ∷ []) (v ∷ []) rest refl w
  expand-WellTyped (Value.legacy_timestamp v) rest w = typed 22 (pointer ∷ []) (v ∷ []) rest refl w
  expand-WellTyped (Value.forward_v1_timestamp v) rest w =
      typed 23 (pointer ∷ []) (v ∷ []) rest refl w
  expand-WellTyped (Value.fluent_bit_v1_timestamp v) rest w =
      typed 24 (pointer ∷ []) (v ∷ []) rest refl w
  expand-WellTyped (Value.string p n) rest w =
      typed 1 (size ∷ []) (n ∷ []) _ refl (typed 2 (pointer ∷ size ∷ []) (p ∷ n ∷ []) rest refl w)
  expand-WellTyped (Value.binary p n) rest w =
      typed 3 (size ∷ []) (n ∷ []) _ refl (typed 4 (pointer ∷ size ∷ []) (p ∷ n ∷ []) rest refl w)
  expand-WellTyped (Value.ext t u p n) rest w =
      typed 5 (int ∷ size ∷ []) (t ∷ n ∷ []) _ refl
        (typed 6 (pointer ∷ size ∷ []) (p ∷ n ∷ []) rest refl w)
  expand-WellTyped (Value.cstring p) rest w =
      typed 1 (size ∷ []) (strlen p ∷ []) _ refl
        (typed 2 (pointer ∷ size ∷ []) (p ∷ strlen p ∷ []) rest refl w)

  -- The arguments of a variadic call, for any values, are well typed: each number of a kind of value
  -- is one from 1 to 25 and is followed by arguments of exactly the types that belong to it, each of
  -- which fits its type, and the list ends with a zero of the type `int`.
  pub arguments-WellTyped : (vs : List Value) → WellTyped (arguments strlen vs)
  unfolding expand_all value_list_terminator
  arguments-WellTyped [] = end refl
  arguments-WellTyped (v ∷ vs) =
      subst WellTyped
        (sym (append_assoc (expand strlen v) (expand_all strlen vs) value_list_terminator))
        (expand-WellTyped v (arguments strlen vs) (arguments-WellTyped vs))
