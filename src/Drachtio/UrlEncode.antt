-- ===== src/Drachtio/UrlEncode.antt =====
-- `urlencode` of src/drachtio.cpp.
pub mod RoundTrip
mod Tests
use drachtio_server.Common.{
  ℕ, zero, suc, ◌+◌, ◌/◌, ◌%◌, ◌≡◌, Bool, true, false, ◌&&◌, ◌||◌, List, [], ◌∷◌, ◌++◌, leb, ◌==◌,
  if◌then◌else◌, Text,
}

-- 0-9, A-Z, a-z and - _ . ~
abbrev pub is_unreserved : ℕ → Bool
is_unreserved c =
    leb 48 c && leb c 57
    || (leb 65 c && leb c 90
        || (leb 97 c && leb c 122 || (c == b'-' || (c == b'_' || (c == b'.' || c == b'~')))))

-- lookup[n], for n below 16
abbrev pub hex_digit : ℕ → ℕ
hex_digit n = if leb n 9 then 48 + n else 87 + n

unfoldable pub urlencode : Text → Text
urlencode [] = []
urlencode (c ∷ s) =
    if is_unreserved c
    then c ∷ urlencode s
    else b'%' ∷ hex_digit (c / 16 % 16) ∷ hex_digit (c % 16) ∷ urlencode s
