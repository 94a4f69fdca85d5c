-- ===== src/Uri.antt =====
-- Which characters of a URI are encoded: fluent-bit/flb_uri.h.
pub mod Kept
use my_repo.Base.{ℕ, Bool, true, false, ◌&&◌, ◌||◌, ◌==◌, leb, if◌then◌else◌}

-- `c` is the bit pattern of a `char`; those from 128 on, which may be negative numbers, are in none
-- of the ranges.
unfoldable pub uri_to_encode : (c : ℕ) → Bool
uri_to_encode c =
    if (leb 48 c && leb c 57)
      || ((leb 65 c && leb c 90)
          || ((leb 97 c && leb c 122)
              || (c == 63
                  || (c == 38
                      || (c == 45
                          || (c == 95 || (c == 46 || (c == 126 || (c == 47 || c == 61)))))))))
    then false
    else true
