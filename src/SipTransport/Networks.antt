-- ===== src/SipTransport/Networks.antt =====
-- Being in a network is agreeing with it in the bits that count.
use Prim.Native.Nat.{bit_and, bit_and-bitwise, digits, min}
use native.Mathlib.Nat.{
  le_refl, pow-suc, one-le-pow, div-add-mod', mod-lt, div-lt_iff_lt-mul, mul-div_cancel,
}
use drachtio_server.Common.{
  ℕ, zero, suc, ◌+◌, ◌-◌, ◌*◌, ◌/◌, ◌%◌, ◌^◌, ◌≤◌, ◌<◌, ◌≡◌, refl, sym, ap, ap₂, ◌∙◌, Bool, true,
  false, ◌&&◌, ◌||◌, arith, ◌==◌, ltb, lt→ltb, ==_iff, Bool-cases, inl, inr, Text,
}
use drachtio_server.SipTransport.{SipTransport, Platform, mask_of, is_in_network}

-- `bitwise` counts digits with its first number: any count that is large enough does.
enough : (n m a b : ℕ) → a ≤ n → a ≤ m → digits (λ y. 0) min n a b ≡ digits (λ y. 0) min m a b
enough zero zero a b l k = refl
enough zero (suc m) zero b l k = refl
enough zero (suc m) (suc a) b l k = absurd (omega arith)
enough (suc n) zero zero b l k = refl
enough (suc n) zero (suc a) b l k = absurd (omega arith)
enough (suc n) (suc m) zero b l k = refl
enough (suc n) (suc m) (suc a) b l k =
    ap (λ d. d * 2 + min (suc a % 2) (b % 2))
      (enough n m (suc a / 2) (b / 2) (omega arith) (omega arith))

-- The lowest bit and the others.
lowest : (a b : ℕ) → bit_and a b ≡ bit_and (a / 2) (b / 2) * 2 + min (a % 2) (b % 2)
lowest zero b = simp bit_and-bitwise (omega arith)
lowest (suc a) b = simp bit_and-bitwise (
    ap (λ d. d * 2 + min (suc a % 2) (b % 2))
      (enough a (suc a / 2) (suc a / 2) (b / 2) (omega arith) (le_refl (suc a / 2))))

twice : (q k : ℕ) → q * 2 ^ suc k ≡ 2 * (q * 2 ^ k)
twice q k = omega (arith, ap (λ (x : ℕ). q * x) (pow-suc 2 k))

-- The lowest `k` bits of a mask are 0.
bit_and-shift :
    (k q r m : ℕ) → r < 2 ^ k → bit_and (q * 2 ^ k + r) (m * 2 ^ k) ≡ bit_and q m * 2 ^ k
bit_and-shift zero q r m l =
    let e : q * 2 ^ 0 + r ≡ q = omega arith in
    let e' : m * 2 ^ 0 ≡ m = omega arith in omega (arith, ap₂ bit_and e e')
bit_and-shift (suc k) q r m l =
    let half : (q * 2 ^ suc k + r) / 2 ≡ q * 2 ^ k + r / 2 = omega (arith, twice q k) in
    let half' : (m * 2 ^ suc k) / 2 ≡ m * 2 ^ k = omega (arith, twice m k) in
    let even : (m * 2 ^ suc k) % 2 ≡ 0 = omega (arith, twice m k) in
    let rest : r / 2 < 2 ^ k = omega (arith, pow-suc 2 k) in
    let small : min ((q * 2 ^ suc k + r) % 2) ((m * 2 ^ suc k) % 2) ≡ 0 = rw even (omega arith) in
    omega (
      arith,
      lowest (q * 2 ^ suc k + r) (m * 2 ^ suc k),
      ap₂ bit_and half half',
      small,
      bit_and-shift k q (r / 2) m rest,
      twice (bit_and q m) k,
    )

-- A mask of `j` ones keeps what fits it.
bit_and-ones : (j q : ℕ) → q < 2 ^ j → bit_and q (2 ^ j - 1) ≡ q
bit_and-ones zero q l = let e : q ≡ 0 = omega arith in rw e refl
bit_and-ones (suc j) q l =
    let half : (2 ^ suc j - 1) / 2 ≡ 2 ^ j - 1 = omega (arith, pow-suc 2 j, one-le-pow j 2) in
    let odd : (2 ^ suc j - 1) % 2 ≡ 1 = omega (arith, pow-suc 2 j, one-le-pow j 2) in
    let bit : min (q % 2) ((2 ^ suc j - 1) % 2) ≡ q % 2 = rw odd (omega arith) in
    omega (
      arith,
      lowest q (2 ^ suc j - 1),
      ap (bit_and (q / 2)) half,
      bit,
      bit_and-ones j (q / 2) (omega (arith, pow-suc 2 j)),
    )

-- The network bits of a 32-bit number.
abbrev pub prefix : ℕ → ℕ → ℕ
prefix netbits ip = ip / 2 ^ (32 - netbits)

-- A test that all numbers below a bound pass.
abbrev all_below : (ℕ → Bool) → ℕ → Bool
all_below p zero = true
all_below p (suc n) = p n && all_below p n

all_below-lt : (p : ℕ → Bool) (n i : ℕ) → all_below p n ≡ true → i < n → p i ≡ true
all_below-lt p zero i e l = absurd (omega arith)
all_below-lt p (suc n) i e l = elim (Bool-cases (i == n)) [
  | inl q ↦ let q' : i ≡ n = ground arith in rw q' (ground (arith, e))
  | inr q ↦ all_below-lt p n i (ground (arith, e)) (ground (arith, q))
]

abbrev mask_fits : ℕ → Bool
mask_fits n =
    2 ^ 32 - 1 - (2 ^ 32 - 1) / 2 ^ n == (2 ^ n - 1) * 2 ^ (32 - n)
    && (2 ^ n * 2 ^ (32 - n) == 2 ^ 32 && (n == 0 || ltb 0 ((2 ^ n - 1) * 2 ^ (32 - n))))

and-both : (a b : Bool) → (a && b) ≡ true → (a ≡ true) × (b ≡ true)
and-both true true e = (refl, refl)
and-both true false e = absurd (ground (arith, e))
and-both false b e = absurd (ground (arith, e))

mask-shift :
    (n : ℕ)
    → n < 32
    → (2 ^ 32 - 1 - (2 ^ 32 - 1) / 2 ^ n ≡ (2 ^ n - 1) * 2 ^ (32 - n))
      × (2 ^ n * 2 ^ (32 - n) ≡ 2 ^ 32)
      × ((n == 0 || ltb 0 ((2 ^ n - 1) * 2 ^ (32 - n))) ≡ true)
mask-shift n l =
    let (e, rest) = and-both _ _ (all_below-lt mask_fits 32 n refl l) in
    let (e', e'') = and-both _ _ rest in ((==_iff _ _).0 e, (==_iff _ _).0 e', e'')

mask_of-shift :
    (platform : Platform) (n : ℕ) → n < 32 → mask_of platform n ≡ (2 ^ n - 1) * 2 ^ (32 - n)
unfolding mask_of
mask_of-shift platform n l = rw (lt→ltb n 32 l) (mask-shift n l).0

masked :
    (platform : Platform) (n ip : ℕ)
    → n < 32
    → ip < 2 ^ 32
    → bit_and ip (mask_of platform n) ≡ prefix n ip * 2 ^ (32 - n)
masked platform n ip l k =
    let b = 2 ^ (32 - n) in
    let positive : 0 < b = one-le-pow (32 - n) 2 (omega arith) in
    let whole : ip / b * b + ip % b ≡ ip = div-add-mod' ip b in
    let small : ip % b < b = mod-lt ip positive in
    let top : ip / b < 2 ^ n = (div-lt_iff_lt-mul positive).1 (rw (mask-shift n l).1 k) in
    ap₂ bit_and (sym whole) (mask_of-shift platform n l)
    ∙ bit_and-shift (32 - n) (ip / b) (ip % b) (2 ^ n - 1) small
    ∙ ap (λ x. x * b) (bit_and-ones n (ip / b) top)

-- Equal multiples of a positive number.
==-mul : (a b m : ℕ) → 0 < m → (a * m == b * m) ≡ (a == b)
==-mul a b m l = elim (Bool-cases (a == b)) [
  | inl e ↦ let q : a ≡ b = (==_iff a b).0 e in rw q (ground arith)
  | inr e ↦ elim (Bool-cases (a * m == b * m)) [
    | inl e' ↦
        let q : a ≡ b =
          sym (mul-div_cancel a l)
          ∙ ap (λ x. x / m) ((==_iff (a * m) (b * m)).0 e')
          ∙ mul-div_cancel b l in
        absurd (ground (arith, q, e))
    | inr e' ↦ e' ∙ sym e
  ]
]

-- An address is in a network of `netbits` bits, from 1 to 31, if and only if its first `netbits` bits are
-- those of the network's address.
pub is_in_network-prefix :
    (platform : Platform) (netbits : ℕ) (address : Text) (t : SipTransport)
    → 0 < netbits
    → netbits < 32
    → t.netmask ≡ mask_of platform netbits
    → t.range < 2 ^ 32
    → platform.address address < 2 ^ 32
    → is_in_network platform address t
      ≡ (prefix netbits (platform.address address) == prefix netbits t.range)
unfolding is_in_network
is_in_network-prefix platform netbits address t z l e r a =
    let kept : (t.netmask == 0) ≡ false =
      rw (e, mask_of-shift platform netbits l) (ground (arith, (mask-shift netbits l).2)) in
    rw
      (
        kept,
        e,
        masked platform netbits (platform.address address) l a,
        masked platform netbits t.range l r,
      )
      (==-mul (prefix netbits (platform.address address)) (prefix netbits t.range)
        (2 ^ (32 - netbits)) (one-le-pow (32 - netbits) 2 (omega arith)))
