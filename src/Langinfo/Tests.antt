-- ===== src/Langinfo/Tests.antt =====
-- The names of an item inside the table, of one behind it and of a negative one.
use Prim.Native.String.{String}
use my_repo.Base.{◌+◌, ◌-◌, ◌^◌, ◌≤◌, ◌<◌, ◌≡◌, ◌≢◌, ◌⊎◌, refl, some, [], arith, get_elem?, codes}
use my_repo.Langinfo.{lc_time_c, nl_langinfo}
use my_repo.Langinfo.Items.{abday_1, abmon_1, day_1, mon_1, mon_5, t_fmt_ampm}
use my_repo.Langinfo.Names.{take, text, nl_langinfo_lem, short_names}

nl_langinfo_lem_example :
    ((21 < 44)
      × ((s : String) × (get_elem? lc_time_c 21 ≡ some s)
          × (nl_langinfo 21 ≡ some s)
          × (codes s ≢ [])))
    ⊎ ((44 ≤ 21) × (nl_langinfo 21 ≡ some ""))
nl_langinfo_lem_example = nl_langinfo_lem 21 (omega arith)

short_names_example :
    (text (nl_langinfo (abday_1 + 2)) ≡ take 3 (text (nl_langinfo (day_1 + 2))))
    × (text (nl_langinfo (abmon_1 + 8)) ≡ take 3 (text (nl_langinfo (mon_1 + 8))))
short_names_example = short_names 2 8 (omega arith) (omega arith)

ends :
    (nl_langinfo mon_5 ≡ some "May")
    × (nl_langinfo t_fmt_ampm ≡ some "%I:%M:%S %p")
    × (nl_langinfo 0x2c ≡ some "")
    × (nl_langinfo (2 ^ 32 - 1) ≡ some "")
unfolding nl_langinfo
ends = (refl, refl, refl, refl)
