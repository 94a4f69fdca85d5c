-- ===== src/Encoder/Calls/Tests.antt =====
-- A call with four values, and the extension whose type is lost.
use my_repo.Base.{ℕ, ◌≡◌, refl, List, [], ◌∷◌}
use my_repo.Encoder.ValueTypes.{cast, int, int64}
use my_repo.Encoder.Calls.{Value, arguments, expand_all, append_body_values}
use my_repo.Encoder.Calls.Typing.{WellTyped, arguments-WellTyped}

abbrev strlen : ℕ → ℕ
strlen buffer = 3

-- A string at 100, its number, the number -1 of 8 digits, and nothing.
abbrev values : List Value
values = Value.cstring 100 ∷ Value.uint32 7 ∷ Value.int8 (0xffff_ffff_ffff_ffff) ∷ Value.null ∷ []

arguments-WellTyped_example : WellTyped (arguments strlen values)
arguments-WellTyped_example = arguments-WellTyped strlen values

-- Whatever type the macro of an extension is given, it passes on that of another variable.
lost_type :
    arguments strlen (Value.ext 7 42 100 3 ∷ []) ≡ arguments strlen (Value.ext 7 9 100 3 ∷ [])
unfolding expand_all
lost_type = refl

-- The list that the function for the body is called with.
body_call :
    append_body_values strlen (λ (context : ℕ) l. l) 0 (Value.int64 5 ∷ [])
    ≡ cast int 12 ∷ cast int64 5 ∷ cast int 0 ∷ []
unfolding append_body_values
body_call = refl
