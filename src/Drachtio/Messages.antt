-- ===== src/Drachtio/Messages.antt =====
-- The parts of a message from an application: `splitMsg`, `splitTokens`, `splitLines`,
-- `GetValueForHeader` and `parseStartLine` of src/drachtio.cpp.
pub mod Split
mod Tests
use drachtio_server.Common.{
  ℕ, Bool, true, false, Option, none, some, List, [], ◌∷◌, if◌then◌else◌, length, drop, Text,
  text_eq, starts_with, codes,
}

abbrev pub crlf : Text
crlf = 13 ∷ 10 ∷ []

abbrev pub crlf2 : Text
crlf2 = 13 ∷ 10 ∷ 13 ∷ 10 ∷ []

unfoldable pub put_front : ℕ → Option (Text × Text) → Option (Text × Text)
put_front c none = none
put_front c (some (before, after)) = some (c ∷ before, after)

-- `find` of a pattern that is not empty, and the `substr` before it and after it.
unfoldable pub cut_at : Text → Text → Option (Text × Text)
unfolding put_front
cut_at pattern [] = none
cut_at pattern (c ∷ s) =
    let later = put_front c (cut_at pattern s) in
    if starts_with pattern (c ∷ s) then some ([], drop (length pattern) (c ∷ s)) else later

pub record Parts : Type 0 where
  pub meta : Text
  pub start_line : Text
  pub headers : Text
  pub body : Text

unfoldable pub lines_of : Text → Text → Text → Option (Text × Text) → Parts
lines_of meta chunk body none = record {
  meta = meta;
  start_line = chunk;
  headers = [];
  body = body;
}
lines_of meta chunk body (some (start_line, headers)) = record {
  meta = meta;
  start_line = start_line;
  headers = headers;
  body = body;
}

unfoldable pub parts_of_chunk : Text → Text → Option (Text × Text) → Parts
unfolding cut_at lines_of
parts_of_chunk meta chunk none = lines_of meta chunk [] (cut_at crlf chunk)
parts_of_chunk meta chunk (some (head, body)) = lines_of meta head body (cut_at crlf head)

unfoldable pub parts_of : Text → Option (Text × Text) → Parts
unfolding cut_at parts_of_chunk
parts_of msg none = record { meta = msg; start_line = []; headers = []; body = [] }
parts_of msg (some (meta, chunk)) = parts_of_chunk meta chunk (cut_at crlf2 chunk)

unfoldable pub split_msg : Text → Parts
unfolding cut_at parts_of
split_msg msg = parts_of msg (cut_at crlf msg)

-- Boost's string functions: `split` at any of the characters, with or without token_compress_on,
-- `trim`, `iequals`, and the tokens of a `char_separator`.
pub record Strings : Type 0 where
  pub split : Text → Text → List Text
  pub split_compress : Text → Text → List Text
  pub trim : Text → Text
  pub iequals : Text → Text → Bool
  pub tokenize : Text → Text → List Text

module _ (b : Strings) where
  abbrev pub split_tokens : Text → List Text
  split_tokens s = b.split (codes "|") s

  abbrev pub split_lines : Text → List Text
  split_lines [] = []
  split_lines (c ∷ s) = b.split_compress crlf (c ∷ s)

  unfoldable pub find_header : Text → List Text → Option Text
  unfolding cut_at
  find_header name [] = none
  find_header name (line ∷ lines) =
      let rest = find_header name lines in
      elim (cut_at (codes ":") line) [
        | none ↦ rest
        | some (n, value) ↦ if b.iequals (b.trim n) name then some (b.trim value) else rest
      ]

  unfoldable pub get_value_for_header : Text → Text → Option Text
  unfolding find_header
  get_value_for_header headers name = find_header name (split_lines headers)

pub data SipMethod : Type 0 where
  method_invalid method_unknown method_invite method_ack method_prack method_cancel : SipMethod
  method_bye method_options method_register method_info method_update : SipMethod
  method_message method_subscribe method_notify method_refer method_publish : SipMethod

abbrev pub method_names : List (Text × SipMethod)
method_names =
    (codes "INVITE", method_invite)
    ∷ (codes "ACK", method_ack)
    ∷ (codes "PRACK", method_prack)
    ∷ (codes "CANCEL", method_cancel)
    ∷ (codes "BYE", method_bye)
    ∷ (codes "OPTIONS", method_options)
    ∷ (codes "REGISTER", method_register)
    ∷ (codes "INFO", method_info)
    ∷ (codes "UPDATE", method_update)
    ∷ (codes "MESSAGE", method_message)
    ∷ (codes "SUBSCRIBE", method_subscribe)
    ∷ (codes "NOTIFY", method_notify)
    ∷ (codes "REFER", method_refer)
    ∷ (codes "PUBLISH", method_publish)
    ∷ []

-- The chain of `else if`.
unfoldable pub method_of : Text → List (Text × SipMethod) → SipMethod
method_of t [] = method_unknown
method_of t ((name, method) ∷ names) = if text_eq t name then method else method_of t names

-- The method, its name and the request uri; a token that is not there leaves its text empty.
unfoldable pub start_tokens : List Text → SipMethod × Text × Text
unfolding method_of
start_tokens [] = (method_invalid, [], [])
start_tokens (t ∷ []) = (method_of t method_names, t, [])
start_tokens (t ∷ uri ∷ rest) = (method_of t method_names, t, uri)

unfoldable pub parse_start_line : Strings → Text → SipMethod × Text × Text
unfolding start_tokens
parse_start_line b start_line = start_tokens (b.tokenize (codes " ") start_line)
