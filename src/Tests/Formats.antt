-- ===== src/Tests/Formats.antt =====
-- Structs, texts, GUIDs, statuses and dates.
use uki_stub.Common.{ℕ, ◌≡◌, refl, ◌↔◌, inl, inr, some, List, [], ◌∷◌, ◌++◌, arith, All, ok, panic}
use uki_stub.Utf16.{
  encode, decode, to_utf16, string_to_utf16, utf16_ptr_to_string, until_nul, utf16_slice_to_string,
}
use uki_stub.Utf16.RoundTrip.{IsBasic, units, decode-to_utf16, string_to_utf16_iff}
use uki_stub.Guid.{bytes, registry_format}
use uki_stub.Guid.RoundTrip.{bytes-registry_format}
use uki_stub.Status.ErrorMap.{
  status_error, code_of, pointer, ask_all, IsValid, err_map, err_map-IsValid, status_error_contract,
}
use uki_stub.Clock.{EfiTime, get_epoch, is_leap}
use uki_stub.Clock.Epoch.{unix_seconds, year_start, get_epoch_month_before}

-- A letter and a character above the basic plane.
abbrev word : List ℕ
word = 0x41 ∷ 0x1f600 ∷ []

decode-to_utf16_example : decode (units (to_utf16 word)) ≡ word ++ 0 ∷ []
decode-to_utf16_example =
    decode-to_utf16 word (inl (omega arith), (inr (omega arith, omega arith), tt))

string_to_utf16_iff_example : (string_to_utf16 word ≡ encode word ++ 0 ∷ []) ↔ All IsBasic word
string_to_utf16_iff_example =
    string_to_utf16_iff word (inl (omega arith), (inr (omega arith, omega arith), tt))

-- What stands behind the NUL is not read.
utf16_ptr_to_string-accent :
    utf16_ptr_to_string (string_to_utf16 (0x41 ∷ 0xe9 ∷ []) ++ 7 ∷ []) ≡ 0x41 ∷ 0xe9 ∷ []
unfolding utf16_ptr_to_string string_to_utf16 until_nul decode
utf16_ptr_to_string-accent = refl

utf16_slice_to_string-empty : utf16_slice_to_string [] ≡ panic
unfolding utf16_slice_to_string
utf16_slice_to_string-empty = refl

utf16_slice_to_string-pair : utf16_slice_to_string (0x41 ∷ 0xd83d ∷ 0xde00 ∷ []) ≡ ok word
unfolding utf16_slice_to_string decode
utf16_slice_to_string-pair = refl

abbrev guid : List ℕ
guid =
    0xde ∷ 0xa9 ∷ 0x42 ∷ 0x90 ∷ 0xdc ∷ 0x23 ∷ 0x38 ∷ 0x4a ∷ 0x96 ∷ 0xfb ∷ 0x7a ∷ 0xde ∷ 0xd0 ∷ 0x80
    ∷ 0x51 ∷ 0x6a ∷ []

bytes-registry_format_example : bytes (registry_format guid) ≡ guid
bytes-registry_format_example = bytes-registry_format guid (omega arith) refl

-- A status that errMap does not hold, and another one in between.
status_error_contract_example :
    (code_of (status_error 77 err_map).0 ≡ some 77)
    × IsValid (ask_all (78 ∷ 0 ∷ 77 ∷ []) (status_error 77 err_map).1)
    × ((pointer (status_error 77 (ask_all (78 ∷ 0 ∷ 77 ∷ []) (status_error 77 err_map).1)).0
          ≡ pointer (status_error 77 err_map).0)
        ↔ (◌≡◌ {A = ℕ} 77 77))
status_error_contract_example =
    status_error_contract 77 77 (78 ∷ 0 ∷ 77 ∷ []) err_map err_map-IsValid

abbrev leap_day : EfiTime
leap_day = record {
  year = 2024;
  month = 3;
  day = 29;
  hour = 12;
  minute = 30;
  second = 15;
  nanosecond = 5;
}

get_epoch_month_before_example :
    get_epoch leap_day ≡ ok (unix_seconds (record leap_day { month = 2 }), 5)
get_epoch_month_before_example =
    get_epoch_month_before leap_day (omega arith) (omega arith) (omega arith) (omega arith)
      (omega arith) (omega arith) (omega arith) (omega arith) (omega arith)

unix_seconds-leap_day : unix_seconds (record leap_day { month = 2 }) ≡ 1709209815
unfolding unix_seconds year_start is_leap
unix_seconds-leap_day = refl
