-- ===== src/Client/Framing/Limits.antt =====
-- What the fixed sizes do to messages that are too long.
use drachtio_server.Common.{
  ◌<◌, ◌≡◌, refl, false, List, [], ◌∷◌, arith, length, Text, ◌==◌, lt→leb-false,
}
use drachtio_server.Client.Framing.{
  Boost, BoostLaws, Handler, Session, reading, capacity, drain-reading, start_drain, read_handler,
  feed,
}

module _ {S : Type 0} (b : Boost) (h : Handler S) (laws : BoostLaws b) where
  read_handler-stalled :
      (s : Session S) (chunk : Text)
      → capacity < s.message_length
      → read_handler b h s chunk ≡ reading (record s { buffer = b.append s.buffer chunk })
  unfolding read_handler start_drain
  read_handler-stalled s chunk l =
      let full = b.append s.buffer chunk in
      let started : (s.message_length == 0) ≡ false = ground arith in
      rw (started, read_handler)
        (drain-reading b h (length full) (record s { buffer = full })
          (rw (
            lt→leb-false s.message_length (length full)
              (omega (arith, laws.append_bounded s.buffer chunk)))))

  -- A client that has announced a message of more than 12228 bytes is never answered again: whatever it
  -- sends, no message is handled, nothing is written and the read is armed again.
  pub feed-stalled :
      (s : Session S) (chunks : List Text)
      → capacity < s.message_length
      → (t : Session S) × (feed b h s chunks ≡ reading t)
        × (t.app ≡ s.app)
        × (t.sent ≡ s.sent)
        × (t.message_length ≡ s.message_length)
  unfolding feed
  feed-stalled s [] l = (s, refl, refl, refl, refl)
  feed-stalled s (chunk ∷ chunks) l =
      rw (read_handler-stalled s chunk l, feed)
        (feed-stalled (record s { buffer = b.append s.buffer chunk }) chunks l)
