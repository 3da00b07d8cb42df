-- ===== src/Subscription/PrivateHost/Ranges.antt =====
-- Which addresses the host test refuses, against the reserved blocks in CIDR notation.
use webhook_idp.Common.{
  ℕ, ◌+◌, ◌*◌, ◌/◌, ◌<◌, Bool, true, false, ◌&&◌, ◌||◌, ◌≡◌, refl, ap, ◌==◌, ==_iff, [], ◌∷◌, ◌++◌,
  all, arith, some, leb,
}
use webhook_idp.Common.Text.{
  Text, txt, split, is_digit, digits_value, to_lower_case, lower, ◌===◌, starts_with,
}
use webhook_idp.Common.Split.{
  lacks, split-lacks, split-append, all_below, all_below_sound, to_lower_case-of_lower, all-append,
}
use webhook_idp.Subscription.PrivateHost.{
  is_private_or_reserved_host, private_host_functions, is_private_ipv4, is_ipv4,
  private_host_functions, decimal, is_group, number, out_of_range, reserved_octets, four_groups,
}

-- An address as a number of 32 bits.
abbrev pub address : ℕ → ℕ → ℕ → ℕ → ℕ
address a b c d = 16777216 * a + 65536 * b + 256 * c + d

-- 0.0.0.0/8, 10.0.0.0/8, 127.0.0.0/8, 169.254.0.0/16, 172.16.0.0/12 and 192.168.0.0/16.
abbrev pub is_reserved : ℕ → Bool
is_reserved n =
    (n / 16777216 == 0)
    || (n / 16777216 == 10)
    || (n / 16777216 == 127)
    || (n / 65536 == 256 * 169 + 254)
    || (n / 1048576 == 16 * 172 + 1)
    || (n / 65536 == 256 * 192 + 168)

-- The dotted text of an address.
abbrev pub dotted : ℕ → ℕ → ℕ → ℕ → Text
dotted a b c d = decimal a ++ (b'.' ∷ (decimal b ++ (b'.' ∷ (decimal c ++ (b'.' ∷ decimal d)))))

abbrev pub is_lower : ℕ → Bool
is_lower c = lower c == c

dot_is_lower : is_lower b'.' ≡ true
unfolding lower
dot_is_lower = refl

-- A text that begins with a digit.
abbrev BeginsWithDigit : Text → Type 0
BeginsWithDigit [] = ⊥
BeginsWithDigit (c ∷ s) = is_digit c ≡ true

digits_ne_localhost : (s t : Text) → BeginsWithDigit s → ((s ++ t) === txt "localhost") ≡ false
unfolding ◌===◌ txt is_digit
digits_ne_localhost [] t h = elim h [ ]
digits_ne_localhost (c ∷ s) t h = ground arith

digits_ne_bracket : (s t : Text) → BeginsWithDigit s → starts_with (s ++ t) (txt "[") ≡ false
unfolding starts_with txt is_digit
digits_ne_bracket [] t h = elim h [ ]
digits_ne_bracket (c ∷ s) t h = ground arith

-- What the tests read of the text of an octet.
is_octet_text : ℕ → Bool
unfolding is_group is_digit decimal digits_value lower
is_octet_text n =
    is_group (decimal n)
    && lacks b'.' (decimal n)
    && all is_digit (decimal n)
    && (digits_value 0 (decimal n) == n)
    && all is_lower (decimal n)

octet_table : all_below 256 is_octet_text ≡ true
unfolding is_octet_text
octet_table = refl

within : (n : ℕ) → n < 256 → out_of_range (some n) ≡ false
unfolding out_of_range
within n h = ground arith

module _ (n : ℕ) (h : n < 256) where
  octet_text : is_octet_text n ≡ true
  octet_text = all_below_sound 256 is_octet_text n octet_table h

  octet-is_group : is_group (decimal n) ≡ true
  octet-is_group = unfold is_octet_text in ground (arith, octet_text)

  octet-lacks_dot : lacks b'.' (decimal n) ≡ true
  octet-lacks_dot = unfold is_octet_text in ground (arith, octet_text)

  octet-number : number (decimal n) ≡ some n
  unfolding number
  octet-number =
      unfold is_octet_text in ground (arith, octet_text, ==_iff (digits_value 0 (decimal n)) n)

  octet-digits : BeginsWithDigit (decimal n)
  unfolding decimal is_digit
  octet-digits = ground arith

  octet-lower : all is_lower (decimal n) ≡ true
  octet-lower = unfold is_octet_text in ground (arith, octet_text)

module _ (a b c d : ℕ) (ha : a < 256) (hb : b < 256) (hc : c < 256) (hd : d < 256) where
  split-dotted : split b'.' (dotted a b c d) ≡ decimal a ∷ decimal b ∷ decimal c ∷ decimal d ∷ []
  split-dotted = rw (
    split-append b'.' (decimal a) _ (octet-lacks_dot a ha),
    split-append b'.' (decimal b) _ (octet-lacks_dot b hb),
    split-append b'.' (decimal c) _ (octet-lacks_dot c hc),
    split-lacks b'.' (decimal d) (octet-lacks_dot d hd),
  )

  is_ipv4-dotted : is_ipv4 (dotted a b c d) ≡ true
  unfolding is_ipv4 four_groups
  is_ipv4-dotted = rw (
    split-dotted,
    octet-is_group a ha,
    octet-is_group b hb,
    octet-is_group c hc,
    octet-is_group d hd,
  )

  byte : address a b c d / 16777216 ≡ a
  byte = omega arith

  link_local : (address a b c d / 65536 == 256 * 169 + 254) ≡ (a == 169 && b == 254)
  link_local = ground arith

  block_172 : (address a b c d / 1048576 == 16 * 172 + 1) ≡ (a == 172 && leb 16 b && leb b 31)
  block_172 = ground arith

  block_192 : (address a b c d / 65536 == 256 * 192 + 168) ≡ (a == 192 && b == 168)
  block_192 = ground arith

  reserved_octets-is_reserved :
      reserved_octets (some a ∷ some b ∷ some c ∷ some d ∷ []) ≡ is_reserved (address a b c d)
  unfolding reserved_octets
  reserved_octets-is_reserved = cc (
    ap (λ k. k == 0) byte,
    ap (λ k. k == 10) byte,
    ap (λ k. k == 127) byte,
    link_local,
    block_172,
    block_192,
  )

  pub is_private_ipv4-dotted : is_private_ipv4 (dotted a b c d) ≡ is_reserved (address a b c d)
  unfolding is_private_ipv4
  is_private_ipv4-dotted =
      rw (split-dotted, octet-number a ha, octet-number b hb, octet-number c hc, octet-number d hd)
        (rw (within a ha, within b hb, within c hc, within d hd) reserved_octets-is_reserved)

  dotted-lower : to_lower_case (dotted a b c d) ≡ dotted a b c d
  dotted-lower = to_lower_case-of_lower _ (
      ground (
        arith,
        all-append is_lower (decimal a)
            (b'.' ∷ (decimal b ++ (b'.' ∷ (decimal c ++ (b'.' ∷ decimal d))))),
        all-append is_lower (decimal b) (b'.' ∷ (decimal c ++ (b'.' ∷ decimal d))),
        all-append is_lower (decimal c) (b'.' ∷ decimal d),
        octet-lower a ha,
        octet-lower b hb,
        octet-lower c hc,
        octet-lower d hd,
        dot_is_lower,
      ))

  -- The test of a hostname that is a dotted address of four octets is exactly the test that the
  -- address lies in one of the blocks 0.0.0.0/8, 10.0.0.0/8, 127.0.0.0/8, 169.254.0.0/16,
  -- 172.16.0.0/12 and 192.168.0.0/16.
  pub is_private_or_reserved_host-dotted :
      is_private_or_reserved_host (dotted a b c d) ≡ is_reserved (address a b c d)
  unfolding is_private_or_reserved_host
  is_private_or_reserved_host-dotted = rw (
    dotted-lower,
    digits_ne_localhost (decimal a) _ (octet-digits a ha),
    digits_ne_bracket (decimal a) _ (octet-digits a ha),
    is_ipv4-dotted,
    is_private_ipv4-dotted,
  )

hosts :
    (is_private_or_reserved_host (txt "LOCALHOST") ≡ true)
    × (is_private_or_reserved_host (txt "172.20.1.1") ≡ true)
    × (is_private_or_reserved_host (txt "8.8.8.8") ≡ false)
    × (is_private_or_reserved_host (txt "1.2.3.999") ≡ true)
    × (is_private_or_reserved_host (txt "[::ffff:a9fe:a9fe]") ≡ true)
    × (is_private_or_reserved_host (txt "[::ffff:808:808]") ≡ false)
    × (is_private_or_reserved_host (txt "[fe80::1]") ≡ true)
    × (is_private_or_reserved_host (txt "[fe90::1]") ≡ false)
    × (is_private_or_reserved_host (txt "localhost.") ≡ false)
    × (is_private_or_reserved_host (txt "example.com") ≡ false)
unfolding private_host_functions
hosts = (refl, refl, refl, refl, refl, refl, refl, refl, refl, refl)
