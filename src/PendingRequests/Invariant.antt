-- ===== src/PendingRequests/Invariant.antt =====
-- The two maps and the timer queue of src/pending-request-controller.cpp agree.
use drachtio_server.Common.{
  ℕ, ◌≡◌, ◌≢◌, refl, sym, ap, ◌∙◌, Bool, false, none, some, Text, arith, Option-cases, inl, inr,
}
use drachtio_server.Common.Dict
use drachtio_server.PendingRequests.{
  Sip, Pending, PendingRequests, unique_id, write, add, cleared, find_and_remove, is_retransmission,
}

-- Each transaction leads to the object that has its id, and the Call-ID map leads to that object too.
pub record IsConsistent (s : PendingRequests) : Type 0 where
  pub own_id :
      (id : Text) (a : ℕ)
      → Dict.find id s.by_transaction ≡ some a
      → (s.objects a).transaction_id ≡ id
  pub indexed :
      (id : Text) (a : ℕ)
      → Dict.find id s.by_transaction ≡ some a
      → Dict.find (unique_id (s.objects a).sip) s.by_call_id ≡ some a

-- What makes a new request new: no retransmission, an unused transaction id, and an address at which
-- no pending request stands.
pub record IsNew (address : ℕ) (uuid : Text) (sip : Sip) (s : PendingRequests) : Type 0 where
  pub no_retransmission : is_retransmission sip s ≡ false
  pub new_id : Dict.find uuid s.by_transaction ≡ none
  pub new_address : (id : Text) (a : ℕ) → Dict.find id s.by_transaction ≡ some a → a ≢ address

write_ne : (a b : ℕ) (p : Pending) (objects : ℕ → Pending) → b ≢ a → write a p objects b ≡ objects b
write_ne a b p objects n = ground arith

write_self : (a : ℕ) (p : Pending) (objects : ℕ → Pending) → write a p objects a ≡ p
write_self a p objects = ground arith

-- The maps stay consistent.
pub add-IsConsistent :
    (address handle : ℕ) (uuid : Text) (sip : Sip) (s : PendingRequests)
    → IsNew address uuid sip s
    → IsConsistent s
    → IsConsistent (add address handle uuid sip s)
unfolding add is_retransmission
add-IsConsistent address handle uuid sip s n v = record {
  own_id = λ id a e. elim (Dict.find-insert_cases uuid id address a s.by_transaction n.new_id e) [
    | inl (p, q) ↦ rw (← q, write_self address _ s.objects) p
    | inr old ↦ rw (write_ne address a _ s.objects (n.new_address id a old)) (v.own_id id a old)
  ];
  indexed = λ id a e. elim (Dict.find-insert_cases uuid id address a s.by_transaction n.new_id e) [
    | inl (p, q) ↦
        rw (← q, write_self address _ s.objects)
          (ground (
            arith,
            Dict.find-insert_self (unique_id sip) address s.by_call_id,
            n.no_retransmission,
          ))
    | inr old ↦
        rw (write_ne address a _ s.objects (n.new_address id a old))
          (Dict.find-insert_old (unique_id sip) _ address a s.by_call_id (v.indexed id a old))
  ];
}

cleared-IsConsistent :
    (id : Text) (a : ℕ) (timeout : Bool) (s : PendingRequests)
    → Dict.find id s.by_transaction ≡ some a
    → IsConsistent s
    → IsConsistent (cleared a timeout id s)
cleared-IsConsistent id a timeout s f v = record {
  own_id = λ other b e. v.own_id other b (Dict.find-erase_cases id other b s.by_transaction e).1;
  indexed = λ other b e.
      let (ne, old) = Dict.find-erase_cases id other b s.by_transaction e in
      let there = v.indexed other b old in
      let differ : unique_id (s.objects b).sip ≢ unique_id (s.objects a).sip = λ p.
        let same : some b ≡ some a =
          sym there ∙ ap (λ k. Dict.find k s.by_call_id) p ∙ v.indexed id a f in
        ne (
          sym (v.own_id other b old)
          ∙ ap (λ t. (s.objects t).transaction_id) (cc)
          ∙ v.own_id id a f) in
      Dict.find-erase_ne (unique_id (s.objects a).sip) _ s.by_call_id differ ∙ there;
}

-- The assertion of `findAndRemove` never fails on consistent maps. What is not pending is not found
-- and nothing changes; what is pending is returned, is pending no more, and is no longer taken for a
-- retransmission; the other requests stay pending, and the maps stay consistent.
pub find_and_remove_lem :
    (id : Text) (timeout : Bool) (s : PendingRequests)
    → IsConsistent s
    → (t : PendingRequests) × (find_and_remove id timeout s
        ≡ some (Dict.find id s.by_transaction, t))
      × IsConsistent t
      × (Dict.find id t.by_transaction ≡ none)
      × ((a : ℕ)
          → Dict.find id s.by_transaction ≡ some a
          → is_retransmission (s.objects a).sip t ≡ false)
      × ((other : Text)
          → other ≢ id
          → Dict.find other t.by_transaction ≡ Dict.find other s.by_transaction)
unfolding find_and_remove is_retransmission
find_and_remove_lem id timeout s v = elim (Option-cases (Dict.find id s.by_transaction)) [
  | inl e ↦ (s, rw (e, find_and_remove), v, e, (λ a f. cc), (λ other n. refl))
  | inr (a, e) ↦ (
    cleared a timeout id s,
    rw (e, find_and_remove, v.indexed id a e),
    cleared-IsConsistent id a timeout s e v,
    Dict.find-erase_self id s.by_transaction,
    (λ b f.
        let same : b ≡ a = cc in
        rw (same, Dict.find-erase_self (unique_id (s.objects a).sip) s.by_call_id)),
    (λ other n. Dict.find-erase_ne id other s.by_transaction n),
  )
]
