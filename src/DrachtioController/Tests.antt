-- ===== src/DrachtioController/Tests.antt =====
-- The caches on concrete values.
use drachtio_server.Common.{◌≡◌, refl, true, none, some, [], ◌∷◌, arith, codes, text_eq}
use drachtio_server.SipTransport.{TportName}
use drachtio_server.DrachtioController.{
  Caches, tport_ref, tport_unref, Stack, get_uri, cache_tport_for_subscription,
  flush_tport_for_subscription, find_tport_for_subscription, expire, process_watchdog_timer,
  cache_contact_alias, get_tport_for_contact_alias,
}
use drachtio_server.DrachtioController.Aliases.{
  IsBounded, arrival_from, get_tport_for_contact_alias-cached,
}
use drachtio_server.Common.Dict

abbrev empty : Caches
empty = record { by_uri = []; contact_alias = true; aliases = [] }

abbrev once : Caches
once = (cache_tport_for_subscription (codes "bob") (some (codes "h")) 100 60 5 empty).0

test_find :
    find_tport_for_subscription (some (codes "bob")) (codes "h") once
    ≡ some (record { user = codes "bob"; host = codes "h"; expires = 160; tport = 5 })
unfolding cache_tport_for_subscription get_uri find_tport_for_subscription text_eq Dict.find
    Dict.insert
test_find = refl

test_renewed :
    (cache_tport_for_subscription (codes "bob") (some (codes "h")) 150 60 6 once).1
    ≡ tport_ref 6 ∷ tport_unref 6 ∷ tport_unref 5 ∷ tport_ref 6 ∷ []
unfolding cache_tport_for_subscription get_uri text_eq Dict.find Dict.insert Dict.assign Dict.erase
test_renewed = refl

test_flush :
    flush_tport_for_subscription (some (codes "bob")) (some (codes "h")) once
    ≡ (empty, tport_unref 5 ∷ [])
unfolding cache_tport_for_subscription get_uri flush_tport_for_subscription text_eq Dict.find
    Dict.insert Dict.erase
test_flush = refl

test_expired : process_watchdog_timer 161 once ≡ (empty, tport_unref 5 ∷ [])
unfolding cache_tport_for_subscription get_uri process_watchdog_timer expire text_eq Dict.find
    Dict.insert
test_expired = refl

test_not_expired : process_watchdog_timer 160 once ≡ (once, [])
unfolding cache_tport_for_subscription get_uri process_watchdog_timer expire text_eq Dict.find
    Dict.insert
test_not_expired = refl

-- A user that is there but empty is found under another key than it is entered.
test_empty_user :
    find_tport_for_subscription
      (some [])
      (codes "h")
      (cache_tport_for_subscription [] (some (codes "h")) 100 60 5 empty).0
    ≡ none
unfolding cache_tport_for_subscription get_uri find_tport_for_subscription text_eq Dict.find
    Dict.insert
test_empty_user = refl

abbrev name : TportName
name = record { host = codes "9.9.9.9"; port = codes "4321"; proto = codes "tcp" }

abbrev stack : Stack
stack = record {
  tport_by_name = λ pinned host port. some 8;
  is_secondary = λ tp. true;
  parent = λ tp. 1;
}

empty-IsBounded : IsBounded empty
unfolding IsBounded
empty-IsBounded = ground arith

test_get_tport_for_contact_alias-cached :
    let c' = cache_contact_alias (arrival_from name (codes "10.0.0.1") (codes "5060")) empty in
    IsBounded c'
    × (get_tport_for_contact_alias stack 7
          (codes "TCP")
          (codes "9.9.9.9")
          (codes "10.0.0.1")
          (codes "5060")
          c'
        ≡ (some 8, c'))
test_get_tport_for_contact_alias-cached =
    get_tport_for_contact_alias-cached stack empty name (codes "TCP") (codes "10.0.0.1")
      (codes "5060") 7 8 refl empty-IsBounded refl refl refl refl
