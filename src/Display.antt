-- ===== src/Display.antt =====
-- How fields that a device has sent are written into log lines: app/location_display.py.
pub mod Escape
use Prim.Native.Char.{code}
use Prim.Native.String.{[], ◌∷◌, ◌++◌}
use my_tracks.Base.{
  ℕ, String, Option, none, some, Bool, true, false, ◌==◌, compared_numbers, compared_texts,
  if◌then◌else◌,
}

-- value.replace(c, text), for a single character c, given by its code
unfoldable pub replace_char : ℕ → String → String → String
replace_char c text [] = []
replace_char c text (d ∷ s) =
    let rest = replace_char c text s in if code d == c then text ++ rest else d ∷ rest

unfoldable pub escape_log_value : String → String
escape_log_value value =
    replace_char b',' "\\,"
      (replace_char b'\n' "\\n" (replace_char b'\r' "\\r" (replace_char b'\\' "\\\\" value)))

abbrev pub label_of : String → String
label_of kind =
    if kind == "w"
    then "WiFi"
    else if kind == "m"
    then "Mobile"
    else if kind == "o"
    then "Offline"
    else kind

-- An argument that is None or empty is no text.
unfoldable pub format_connection_type_display : String → String → String
format_connection_type_display connection_type wifi_ssid =
    if connection_type == ""
    then "N/A"
    else if connection_type == "w"
    then (if wifi_ssid == "" then label_of connection_type else "WiFi (" ++ (wifi_ssid ++ ")"))
    else label_of connection_type
