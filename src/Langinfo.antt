-- ===== src/Langinfo.antt =====
-- The replacement of langinfo.h in fluent-bit/flb_langinfo.h: the names of the "C" locale by numbers.
pub mod Items
pub mod Names
mod Tests
use Prim.Native.String.{String}
use my_repo.Base.{
  ℕ, ◌^◌, ◌||◌, List, [], ◌∷◌, Option, none, some, ltb, leb, get_elem?, if◌then◌else◌,
}

abbrev pub lc_time_c : List String
lc_time_c =
    "%a %b %e %H:%M:%S %Y" ∷ "%m/%d/%y" ∷ "%H:%M:%S" ∷ "Sunday" ∷ "Monday" ∷ "Tuesday" ∷ "Wednesday"
    ∷ "Thursday" ∷ "Friday" ∷ "Saturday" ∷ "Sun" ∷ "Mon" ∷ "Tue" ∷ "Wed" ∷ "Thu" ∷ "Fri" ∷ "Sat"
    ∷ "January" ∷ "February" ∷ "March" ∷ "April" ∷ "May" ∷ "June" ∷ "July" ∷ "August" ∷ "September"
    ∷ "October" ∷ "November" ∷ "December" ∷ "Jan" ∷ "Feb" ∷ "Mar" ∷ "Apr" ∷ "May" ∷ "Jun" ∷ "Jul"
    ∷ "Aug" ∷ "Sep" ∷ "Oct" ∷ "Nov" ∷ "Dec" ∷ "AM" ∷ "PM" ∷ "%I:%M:%S %p" ∷ []

-- `item` is the pattern of 32 digits of an `int`; `none` is an access outside the array.
unfoldable pub nl_langinfo : (item : ℕ) → Option String
nl_langinfo item = if leb (2 ^ 31) item || ltb 0x2b item then some "" else get_elem? lc_time_c item
