-- ===== src/Utf8/Tests.antt =====
-- The theorems on flb_utf8.h at the two bytes of the code point 0xE9.
use my_repo.Base.{
  inl, inr, ◌+◌, ◌*◌, ◌<◌, ◌≡◌, refl, true, false, some, [], ◌∷◌, ◌++◌, arith, get_or,
}
use my_repo.Utf8.{Decoder, utf8_accept, utf8d, utf8_decode, utf8_print, utf8_len, utf8_check}
use my_repo.Utf8.Decode.{utf8_decode_bound, utf8_decode-reject, decode_all}
use my_repo.Utf8.Print.{encode_all, utf8_print-encode_all}
use my_repo.Utf8.RoundTrip.{begin, utf8_decode-encode}

abbrev start : Decoder
start = record { state = 0; codep = 0 }

utf8_decode_bound_example :
    (256 + start.state * 16 + get_or utf8d 0xC3 400 < 400) × ((utf8_decode start 0xC3).state < 9)
utf8_decode_bound_example = utf8_decode_bound start 0xC3 (omega arith) (omega arith)

utf8_decode-reject_example :
    (decode_all (0x41 ∷ 0xA9 ∷ []) (record { state = 1; codep = 0 })).state ≡ 1
utf8_decode-reject_example =
    utf8_decode-reject (0x41 ∷ 0xA9 ∷ []) (record { state = 1; codep = 0 })
      (omega arith, (omega arith, tt)) refl

utf8_decode-encode_example :
    decode_all (0xE2 ∷ 0x82 ∷ 0xAC ∷ []) begin ≡ record { state = utf8_accept; codep = 0x20AC }
utf8_decode-encode_example = utf8_decode-encode 0x20AC (omega arith) (inl (omega arith))

print_run : utf8_print (0x41 ∷ 0xE2 ∷ 0x82 ∷ 0xAC ∷ 0 ∷ []) ≡ some (0x41 ∷ 0x20AC ∷ [], true)
unfolding utf8_print utf8_decode
print_run = refl

-- A surrogate is no code point, and a single continuation byte starts none.
surrogate_run : utf8_print (0xED ∷ 0xA0 ∷ 0x80 ∷ 0 ∷ []) ≡ some ([], false)
unfolding utf8_print utf8_decode
surrogate_run = refl

len_run : (utf8_len 0xE2 ≡ 3) × (utf8_check 0x82 ≡ false)
unfolding utf8_len utf8_check
len_run = (refl, refl)

utf8_print-encode_all_example :
    utf8_print (encode_all (0x41 ∷ 0x20AC ∷ 0x1F600 ∷ []) ++ 0 ∷ 0x42 ∷ 0 ∷ [])
    ≡ some (0x41 ∷ 0x20AC ∷ 0x1F600 ∷ [], true)
utf8_print-encode_all_example =
    utf8_print-encode_all (0x41 ∷ 0x20AC ∷ 0x1F600 ∷ []) (0x42 ∷ 0 ∷ []) (
      (omega arith, omega arith, inl (omega arith)),
      (
        (omega arith, omega arith, inl (omega arith)),
        ((omega arith, omega arith, inr (omega arith)), tt),
      ),
    )
