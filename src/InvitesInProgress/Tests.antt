-- ===== src/InvitesInProgress/Tests.antt =====
-- Two INVITEs of one leg.
use mathlib.Core.List.{Memᴰ}
use drachtio_server.Common.{◌≡◌, refl, none, some, [], ◌∷◌, text_eq, codes}
use drachtio_server.InvitesInProgress.{
  Iip, incoming, outgoing, insert, clear_leg, clear, find_by_leg, find_by_transaction_id,
  incoming_destroyed, invite_irq_cleared, destroy_all_reliables, destroy, stop_cancel_timer,
}
use drachtio_server.InvitesInProgress.Reachable.{start, inserted, Reachable-find_by_transaction_id}

abbrev one : Iip
one = incoming 3 11 (codes "a") (some 7) 100

abbrev two : Iip
two = outgoing 3 12 (codes "b") none 101

insert_again : insert (outgoing 4 13 (codes "a") none 102) (one ∷ two ∷ []) ≡ one ∷ two ∷ []
unfolding insert find_by_transaction_id text_eq
insert_again = refl

-- Both entries go, but only the request of the first is released.
clear_both : clear_leg 3 (one ∷ two ∷ []) ≡ ([], invite_irq_cleared 7 ∷ incoming_destroyed 11 ∷ [])
unfolding clear_leg clear find_by_leg destroy_all_reliables destroy stop_cancel_timer text_eq
clear_both = refl

Reachable-find_by_transaction_id_example :
    find_by_transaction_id (codes "b") (insert two (insert one [])) ≡ some two
unfolding insert find_by_transaction_id text_eq
Reachable-find_by_transaction_id_example =
    Reachable-find_by_transaction_id two (insert two (insert one []))
      (inserted two (insert one []) (inserted one [] start)) (Memᴰ.tail (Memᴰ.head refl))
