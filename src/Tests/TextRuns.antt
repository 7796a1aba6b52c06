-- ===== src/Tests/TextRuns.antt =====
-- src/core/text_utils.c: runs on concrete texts.
use usp_agent_stomp.Common.{
  ℕ, ◌+◌, ◌≤◌, ◌≡◌, refl, Bool, false, some, [], ◌∷◌, arith, ◌==◌, length, All, Bytes, codes,
}
use usp_agent_stomp.Result.{ok}
use usp_agent_stomp.Text.Hex.{hex_byte, binary_loop, string_to_binary, unescape_string}
use usp_agent_stomp.Text.Hex.RoundTrip.{
  IsByte, to_hex, string_to_binary-to_hex, percent_encode, unescape_string-percent_encode,
}
use usp_agent_stomp.Text.Number.{decimal_value, IsStrtoul}
use usp_agent_stomp.Text.Path.{schema_loop, path_to_schema_form}
use usp_agent_stomp.Text.Path.Schema.{schema_of, path_to_schema_form-schema_of}

abbrev some_bytes : Bytes
some_bytes = 0 ∷ 171 ∷ 255 ∷ []

some_bytes-IsByte : All IsByte some_bytes
some_bytes-IsByte = ground arith

string_to_binary-to_hex_example : string_to_binary (to_hex some_bytes) 8 ≡ ok some_bytes
string_to_binary-to_hex_example =
    string_to_binary-to_hex some_bytes 8 some_bytes-IsByte (omega arith)

reads_hex : string_to_binary (codes "00abFF") 8 ≡ ok some_bytes
unfolding string_to_binary binary_loop hex_byte
reads_hex = refl

abbrev is_blank_byte : ℕ → Bool
is_blank_byte c = c == b' '

unescape_string-percent_encode_example :
    unescape_string (percent_encode is_blank_byte (codes "a %b")) ≡ some (codes "a %b")
unescape_string-percent_encode_example =
    unescape_string-percent_encode is_blank_byte (codes "a %b") (ground arith)

abbrev device_path : Bytes
device_path = codes "Device.1.Port.22.Name"

device_path_fits : length (schema_of device_path false) + 4 ≤ 256
unfolding schema_of
device_path_fits = omega arith

device_form_fits : length (path_to_schema_form device_path 256) + 4 ≤ 256
unfolding path_to_schema_form schema_loop
device_form_fits = omega arith

path_to_schema_form-schema_of_example :
    path_to_schema_form device_path 256 ≡ schema_of device_path false
path_to_schema_form-schema_of_example =
    path_to_schema_form-schema_of device_path 256 device_path_fits

-- A reader of digits that stands in for the C library's.
abbrev digits_only : Bytes → ℕ × Bytes
digits_only s = (decimal_value 0 s, [])

digits_only-IsStrtoul : IsStrtoul digits_only
digits_only-IsStrtoul = record { digits = λ s ne h fits. refl }
