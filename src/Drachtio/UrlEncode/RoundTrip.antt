-- ===== src/Drachtio/UrlEncode/RoundTrip.antt =====
-- Percent-decoding takes `urlencode` back.
use drachtio_server.Common.{
  ℕ, ◌+◌, ◌-◌, ◌*◌, ◌/◌, ◌%◌, ◌<◌, ◌≡◌, refl, ap, ◌∙◌, false, ◌&&◌, Option, none, some, [], ◌∷◌,
  leb, ◌==◌, if◌then◌else◌, Text, arith, Bool-cases, inl, inr,
}
use drachtio_server.Drachtio.UrlEncode.{urlencode, is_unreserved, hex_digit}

-- RFC 3986: the value of a hexadecimal digit, and decoding; a `%` that is not followed by two such
-- digits is refused.
abbrev pub hex_value : ℕ → Option ℕ
hex_value d =
    if leb 48 d && leb d 57
    then some (d - 48)
    else if leb 97 d && leb d 102
    then some (d - 87)
    else if leb 65 d && leb d 70
    then some (d - 55)
    else none

abbrev decoded : Option ℕ → Option ℕ → Option Text → Option Text
decoded (some h) (some l) (some s) = some ((16 * h + l) ∷ s)
decoded _ _ _ = none

abbrev prepend : ℕ → Option Text → Option Text
prepend c none = none
prepend c (some s) = some (c ∷ s)

pub url_decode : Text → Option Text
url_decode [] = some []
url_decode (c ∷ []) = if c == b'%' then none else some (c ∷ [])
url_decode (c ∷ d ∷ []) =
    let plain = prepend c (url_decode (d ∷ [])) in if c == b'%' then none else plain
url_decode (c ∷ h ∷ l ∷ s) =
    let escaped = decoded (hex_value h) (hex_value l) (url_decode s) in
    let plain = prepend c (url_decode (h ∷ l ∷ s)) in if c == b'%' then escaped else plain

abbrev pub AllBytes : Text → Type 0
AllBytes [] = Unit {0}
AllBytes (c ∷ s) = (c < 256) × AllBytes s

hex_value-hex_digit : (n : ℕ) → n < 16 → hex_value (hex_digit n) ≡ some n
hex_value-hex_digit n h = ground arith

url_decode-nil : url_decode [] ≡ some []
unfolding url_decode
url_decode-nil = refl

url_decode-plain :
    (c : ℕ) (s : Text) → (c == b'%') ≡ false → url_decode (c ∷ s) ≡ prepend c (url_decode s)
unfolding url_decode
url_decode-plain c [] h = rw h
url_decode-plain c (d ∷ []) h = rw h
url_decode-plain c (d ∷ e ∷ s) h = rw h

url_decode-escaped :
    (h l : ℕ) (s : Text)
    → url_decode (b'%' ∷ h ∷ l ∷ s) ≡ decoded (hex_value h) (hex_value l) (url_decode s)
unfolding url_decode
url_decode-escaped h l s = refl

escape :
    (c : ℕ) (s : Text)
    → c < 256
    → (t : Text) → url_decode t ≡ some s
    → url_decode (b'%' ∷ hex_digit (c / 16 % 16) ∷ hex_digit (c % 16) ∷ t) ≡ some (c ∷ s)
escape c s h t f =
    url_decode-escaped (hex_digit (c / 16 % 16)) (hex_digit (c % 16)) t
    ∙ rw
        (
          hex_value-hex_digit (c / 16 % 16) (omega arith),
          hex_value-hex_digit (c % 16) (omega arith),
          f,
        )
        (let whole : 16 * (c / 16 % 16) + c % 16 ≡ c = omega arith in ap (λ d. some (d ∷ s)) whole)

-- For every text of bytes, what `urlencode` writes is well-formed and decodes to the text again.
pub url_decode-urlencode : (s : Text) → AllBytes s → url_decode (urlencode s) ≡ some s
unfolding urlencode
url_decode-urlencode [] b = url_decode-nil
url_decode-urlencode (c ∷ s) b = elim (Bool-cases (is_unreserved c)) [
  | inl u ↦ rw (u, url_decode-plain c (urlencode s) (ground arith), url_decode-urlencode s b.1)
  | inr e ↦ rw e (escape c s b.0 (urlencode s) (url_decode-urlencode s b.1))
]
