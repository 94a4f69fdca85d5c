-- ===== src/Langinfo/Items.antt =====
-- The numbers of the items in fluent-bit/flb_langinfo.h.
use my_repo.Base.{ℕ}

abbrev pub d_t_fmt : ℕ
d_t_fmt = 0x00

abbrev pub d_fmt : ℕ
d_fmt = 0x01

abbrev pub t_fmt : ℕ
t_fmt = 0x02

abbrev pub day_1 : ℕ
day_1 = 0x03

abbrev pub day_2 : ℕ
day_2 = 0x04

abbrev pub day_3 : ℕ
day_3 = 0x05

abbrev pub day_4 : ℕ
day_4 = 0x06

abbrev pub day_5 : ℕ
day_5 = 0x07

abbrev pub day_6 : ℕ
day_6 = 0x08

abbrev pub day_7 : ℕ
day_7 = 0x09

abbrev pub abday_1 : ℕ
abday_1 = 0x0a

abbrev pub abday_2 : ℕ
abday_2 = 0x0b

abbrev pub abday_3 : ℕ
abday_3 = 0x0c

abbrev pub abday_4 : ℕ
abday_4 = 0x0d

abbrev pub abday_5 : ℕ
abday_5 = 0x0e

abbrev pub abday_6 : ℕ
abday_6 = 0x0f

abbrev pub abday_7 : ℕ
abday_7 = 0x10

abbrev pub mon_1 : ℕ
mon_1 = 0x11

abbrev pub mon_2 : ℕ
mon_2 = 0x12

abbrev pub mon_3 : ℕ
mon_3 = 0x13

abbrev pub mon_4 : ℕ
mon_4 = 0x14

abbrev pub mon_5 : ℕ
mon_5 = 0x15

abbrev pub mon_6 : ℕ
mon_6 = 0x16

abbrev pub mon_7 : ℕ
mon_7 = 0x17

abbrev pub mon_8 : ℕ
mon_8 = 0x18

abbrev pub mon_9 : ℕ
mon_9 = 0x19

abbrev pub mon_10 : ℕ
mon_10 = 0x1a

abbrev pub mon_11 : ℕ
mon_11 = 0x1b

abbrev pub mon_12 : ℕ
mon_12 = 0x1c

abbrev pub abmon_1 : ℕ
abmon_1 = 0x1d

abbrev pub abmon_2 : ℕ
abmon_2 = 0x1e

abbrev pub abmon_3 : ℕ
abmon_3 = 0x1f

abbrev pub abmon_4 : ℕ
abmon_4 = 0x20

abbrev pub abmon_5 : ℕ
abmon_5 = 0x21

abbrev pub abmon_6 : ℕ
abmon_6 = 0x22

abbrev pub abmon_7 : ℕ
abmon_7 = 0x23

abbrev pub abmon_8 : ℕ
abmon_8 = 0x24

abbrev pub abmon_9 : ℕ
abmon_9 = 0x25

abbrev pub abmon_10 : ℕ
abmon_10 = 0x26

abbrev pub abmon_11 : ℕ
abmon_11 = 0x27

abbrev pub abmon_12 : ℕ
abmon_12 = 0x28

abbrev pub am_str : ℕ
am_str = 0x29

abbrev pub pm_str : ℕ
pm_str = 0x2a

abbrev pub t_fmt_ampm : ℕ
t_fmt_ampm = 0x2b
