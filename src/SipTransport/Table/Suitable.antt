-- ===== src/SipTransport/Table/Suitable.antt =====
-- The transport that is chosen for a remote host is one that can reach it.
use mathlib.Core.List.{Memᴰ}
use drachtio_server.Common.{
  ℕ, ◌≤◌, ◌≡◌, refl, length, SortsFew, sym, ap, ◌∙◌, subst, Bool, true, false, not, ◌&&◌, Option,
  none, some, List, [], ◌∷◌, arith, is_some, is_empty, keep_if, if-cases, bind-cases, Text, ◌>>=◌,
}
use drachtio_server.Drachtio.Uris.{parse_sip_uri}
use drachtio_server.SipTransport.{
  SipTransport, Platform, TportName, init, split_net, all_address_chars,
}
use drachtio_server.SipTransport.Table.{
  Transports, values, copy_of, add_each, add_transports, Wanted, wanted_of, candidates,
  fits_address, fits_protocol, choose, is_before, find_appropriate_transport,
}

keep_if-back {ℓ} :
    {A : Type ℓ} (p : A → Bool) (x : A) (xs : List A)
    → Memᴰ x (keep_if p xs)
    → Memᴰ x xs × (p x ≡ true)
keep_if-back p x [] = λ m. elim m [ ]
keep_if-back p x (y ∷ xs) =
    if-cases (λ l. Memᴰ x l → Memᴰ x (y ∷ xs) × (p x ≡ true)) (p y) _ _
      (λ e m. elim m [
        | Memᴰ.head q ↦ (Memᴰ.head q, ap p q ∙ e)
        | Memᴰ.tail n ↦ let (n', e') = keep_if-back p x xs n in (Memᴰ.tail n', e')
      ])
      (λ e m. let (n, e') = keep_if-back p x xs m in (Memᴰ.tail n, e'))

keep_if-mem {ℓ} :
    {A : Type ℓ} (p : A → Bool) (x : A) (xs : List A)
    → Memᴰ x xs
    → p x ≡ true
    → Memᴰ x (keep_if p xs)
keep_if-mem p x [] m e = elim m [ ]
keep_if-mem p x (y ∷ xs) m e =
    if-cases (Memᴰ x) (p y) _ _
      (λ q. elim m [ Memᴰ.head h ↦ Memᴰ.head h | Memᴰ.tail n ↦ Memᴰ.tail (keep_if-mem p x xs n e) ])
      (λ q. elim m [
        | Memᴰ.head h ↦ absurd (ground (arith, e, q, ap p h))
        | Memᴰ.tail n ↦ keep_if-mem p x xs n e
      ])

abbrev pub Fits : Wanted → SipTransport → Type 0
Fits w t = (fits_address w t ≡ true) × (fits_protocol w t ≡ true)

-- One of the table that fits, or none where none does.
abbrev pub Suits : Wanted → List SipTransport → Option SipTransport → Type 0
Suits w ts none = (t : SipTransport) → Memᴰ t ts → Fits w t → true ≡ false
Suits w ts (some t) = Memᴰ t ts × Fits w t

-- The master has no name, since none is given to it.
abbrev NoName : Option SipTransport → Type 0
NoName none = true ≡ true
NoName (some t) = t.name ≡ none

init-NoName : (platform : Platform) (t : SipTransport) → t.name ≡ none → NoName (init platform t)
unfolding init
init-NoName platform t e = bind-cases NoName _ _ refl (λ uri.
    if-cases NoName (not (all_address_chars t.external_ip)) _ _ (λ q. refl)
      (λ q.
        if-cases NoName (is_empty t.local_net) _ _ (λ q'. e)
          (λ q'. bind-cases NoName (split_net t.local_net) _ refl (λ net. e))))

abbrev NoMaster : Option Transports → Type 0
NoMaster none = true ≡ true
NoMaster (some s) = s.master.name ≡ none

some-master :
    (t : SipTransport) (first : ℕ) (o : Option (List (ℕ × SipTransport)))
    → t.name ≡ none
    → NoMaster (
        o >>= λ table. some (record { by_tport = table; master = record t { tport = some first } }))
some-master t first o e = bind-cases NoMaster o _ refl (λ table. e)

with-master :
    (o : Option SipTransport) (first : ℕ) (table : Option (List (ℕ × SipTransport)))
    → NoName o
    → NoMaster (
        o >>= λ t. table >>= λ table'.
        some (record { by_tport = table'; master = record t { tport = some first } }))
with-master none first table n = refl
with-master (some t) first table n = some-master t first table n

add_transports-NoMaster :
    (platform : Platform) (config : SipTransport) (first : ℕ) (tports : List (ℕ × TportName))
    (s : Transports)
    → NoMaster (add_transports platform config first tports s)
unfolding add_transports copy_of
add_transports-NoMaster platform config first tports s =
    with-master _ first (add_each platform config tports s.by_tport) (
      init-NoName platform (record config { network = []; range = 0; tport = none; name = none })
        refl)

-- A list of at most one candidate is what is left after the sort, too.
choose-Suits :
    (w : Wanted) (master : SipTransport) (ts sorted : List SipTransport)
    → master.name ≡ none
    → keep_if (fits_protocol w) (keep_if (fits_address w) ts) ≡ sorted
    → Suits w ts (choose w master sorted)
choose-Suits w master ts [] n q =
    let none-left : (t : SipTransport) → Memᴰ t ts → Fits w t → true ≡ false = λ t m (a, p).
      elim (subst (Memᴰ t) q
        (keep_if-mem (fits_protocol w) t _ (keep_if-mem (fits_address w) t ts m a) p)) [ ] in
    let e : (not w.is_explicit && (is_some master.tport && is_some master.name)) ≡ false =
      ground (arith, n) in
    rw e none-left
choose-Suits w master ts (t ∷ rest) n q =
    let (m, p) = keep_if-back (fits_protocol w) t _ (subst (Memᴰ t) (sym q) (Memᴰ.head refl)) in
    let (m', a) = keep_if-back (fits_address w) t ts m in (m', (a, p))

few-kept :
    (sort : List SipTransport → Option (List SipTransport)) (ts : List SipTransport)
    → SortsFew sort
    → length ts ≤ 1
    → sort ts ≡ some ts
few-kept sort [] o l = o.nothing
few-kept sort (t ∷ []) o l = o.one t
few-kept sort (t ∷ u ∷ ts) o l = absurd (omega arith)

-- Once transports have been added, and at most one transport of the table has the address family and the
-- protocol wanted (the comparison of two is no strict weak order, so that sorting them may be undefined
-- behaviour), given that `std::sort` leaves a list of at most one as it is: the transport that is found
-- for a remote host is that one, and none is found only if there is none, since the master transport is
-- never a substitute.
pub find_appropriate_transport-Suits :
    (platform : Platform)
    (sort : (SipTransport → SipTransport → Bool) → List SipTransport → Option (List SipTransport))
    (config : SipTransport) (first : ℕ) (tports : List (ℕ × TportName)) (remote proto : Text)
    (s₀ s : Transports)
    → ((host : Text) → SortsFew (sort (is_before platform host)))
    → add_transports platform config first tports s₀ ≡ some s
    → let w = wanted_of remote proto (parse_sip_uri platform.uris remote) in
      length (candidates w s) ≤ 1
      → (found : Option SipTransport) × (find_appropriate_transport platform sort remote proto s
          ≡ some found)
        × Suits w (values s.by_tport) found
unfolding find_appropriate_transport
find_appropriate_transport-Suits platform sort config first tports remote proto s₀ s o e l =
    let w = wanted_of remote proto (parse_sip_uri platform.uris remote) in
    (
      choose w s.master (candidates w s),
      rw (few-kept (sort (is_before platform w.host)) (candidates w s) (o w.host) l) refl,
      choose-Suits w s.master (values s.by_tport) (candidates w s)
          (rw e at (add_transports-NoMaster platform config first tports s₀)) refl,
    )
