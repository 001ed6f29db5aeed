-- ===== src/Drachtio/UrlEncode/Tests.antt =====
-- Texts with characters that are escaped.
use drachtio_server.Common.{◌≡◌, refl, some, codes, arith}
use drachtio_server.Drachtio.UrlEncode.{urlencode}
use drachtio_server.Drachtio.UrlEncode.RoundTrip.{url_decode, url_decode-urlencode}

url_decode-urlencode_example :
    url_decode (urlencode (codes "sip:1@a;x=/")) ≡ some (codes "sip:1@a;x=/")
url_decode-urlencode_example = url_decode-urlencode (codes "sip:1@a;x=/") (omega arith)

escapes : urlencode (codes "sip:1@a/") ≡ codes "sip%3a1%40a%2f"
unfolding urlencode
escapes = refl
