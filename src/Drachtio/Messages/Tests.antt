-- ===== src/Drachtio/Messages/Tests.antt =====
-- Messages split into their parts.
use drachtio_server.Common.{◌≡◌, refl, [], ◌∷◌, ◌++◌, arith, codes, starts_with, text_eq}
use drachtio_server.Drachtio.Messages.{split_msg, cut_at, method_of, start_tokens, method_ack}
use drachtio_server.Drachtio.Messages.Split.{split_msg-written}

-- A message without an end of line is its meta line alone.
split_msg_meta :
    split_msg (codes "1|ping")
    ≡ record { meta = codes "1|ping"; start_line = []; headers = []; body = [] }
unfolding split_msg cut_at starts_with
split_msg_meta = refl

start_tokens_ack :
    start_tokens (codes "ACK" ∷ codes "sip:a@b" ∷ codes "SIP/2.0" ∷ [])
    ≡ (method_ack, codes "ACK", codes "sip:a@b")
unfolding start_tokens method_of text_eq
start_tokens_ack = refl

split_msg-written_example :
    split_msg (
      codes "1|sip||"
      ++ 13
        ∷ 10
        ∷ ((codes "BYE sip:a@b SIP/2.0" ++ 13 ∷ 10 ∷ (codes "To: x" ++ 13 ∷ 10 ∷ codes "Via: y"))
            ++ 13 ∷ 10 ∷ 13 ∷ 10 ∷ codes "v=0"))
    ≡ record {
      meta = codes "1|sip||";
      start_line = codes "BYE sip:a@b SIP/2.0";
      headers = codes "To: x" ++ 13 ∷ 10 ∷ codes "Via: y";
      body = codes "v=0";
    }
split_msg-written_example =
    split_msg-written (codes "1|sip||") (codes "BYE sip:a@b SIP/2.0") (codes "To: x")
      (codes "Via: y" ∷ []) (codes "v=0") (ground arith) (ground arith) (ground arith)
