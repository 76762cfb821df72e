-- ===== src/Tests/Display.antt =====
-- A network name with a line break in it.
use my_tracks.Base.{◌≡◌, refl}
use my_tracks.Display.{escape_log_value, replace_char, format_connection_type_display}
use my_tracks.Display.Escape.{IsOneLine, unescape, unescape-escape_log_value}

display_tests :
    (escape_log_value "a,b\\c\nd" ≡ "a\\,b\\\\c\\nd")
    × (format_connection_type_display "w" "home" ≡ "WiFi (home)")
    × (format_connection_type_display "m" "home" ≡ "Mobile")
    × (format_connection_type_display "" "home" ≡ "N/A")
unfolding escape_log_value replace_char format_connection_type_display
display_tests = (refl, refl, refl, refl)

unescape-escape_log_value_example :
    IsOneLine (escape_log_value "a,b\nc") × (unescape (escape_log_value "a,b\nc") ≡ "a,b\nc")
unescape-escape_log_value_example = unescape-escape_log_value "a,b\nc"
