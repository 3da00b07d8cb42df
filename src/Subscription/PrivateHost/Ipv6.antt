-- ===== src/Subscription/PrivateHost/Ipv6.antt =====
-- Bracketed hosts: addresses of IPv6, and those that embed an IPv4 address.
use webhook_idp.Common.{
  ℕ, ◌+◌, ◌*◌, ◌/◌, ◌%◌, ◌<◌, true, false, ◌≡◌, refl, ap, ◌∙◌, [], ◌∷◌, ◌++◌, all, arith, reverse,
}
use mathlib.Core.List.{reverse-append, reverse-reverse}
use webhook_idp.Common.Text.{
  Text, txt, split, join, to_lower_case, lower, ◌===◌, starts_with, ends_with,
}
use webhook_idp.Common.Split.{lacks, split-lacks, split-append, to_lower_case-of_lower, all-append}
use webhook_idp.Subscription.PrivateHost.{
  is_private_or_reserved_host, is_private_ipv6, is_private_ipv4, is_hex, is_hextet, hex_value,
  hex_digit, mapped_ipv4, mapped_private, inner,
}
use webhook_idp.Subscription.PrivateHost.Ranges.{
  is_reserved, address, is_private_ipv4-dotted, is_lower,
}

abbrev pub bracketed : Text → Text
bracketed s = b'[' ∷ (s ++ b']' ∷ [])

reverse-concat : (s : Text) (c : ℕ) → reverse (s ++ c ∷ []) ≡ c ∷ reverse s
reverse-concat s c = rw reverse-append

inner-bracketed : (s : Text) → inner (bracketed s) ≡ s
unfolding inner
inner-bracketed s = rw reverse-concat (reverse-reverse s)

reverse-bracketed : (s : Text) → reverse (bracketed s) ≡ b']' ∷ reverse (b'[' ∷ s)
reverse-bracketed s = reverse-concat (b'[' ∷ s) b']'

ends_with-bracketed : (s : Text) → ends_with (bracketed s) (txt "]") ≡ true
unfolding ends_with txt
ends_with-bracketed s = rw reverse-bracketed (unfold starts_with in refl)

bracketed-lower : (s : Text) → all is_lower s ≡ true → to_lower_case (bracketed s) ≡ bracketed s
bracketed-lower s h =
    to_lower_case-of_lower _ (unfold lower in ground (arith, all-append is_lower s (b']' ∷ [])))

bracketed-ne-localhost : (s : Text) → (bracketed s === txt "localhost") ≡ false
unfolding ◌===◌ txt
bracketed-ne-localhost s = refl

starts_with-bracketed : (s : Text) → starts_with (bracketed s) (txt "[") ≡ true
unfolding starts_with txt
starts_with-bracketed s = refl

-- A bracketed hostname in lower case is tested as the IPv6 address between the brackets.
pub is_private_or_reserved_host-bracketed :
    (s : Text)
    → all is_lower s ≡ true
    → is_private_or_reserved_host (bracketed s) ≡ is_private_ipv6 s
unfolding is_private_or_reserved_host
is_private_or_reserved_host-bracketed s h = rw (
  bracketed-lower s h,
  bracketed-ne-localhost s,
  starts_with-bracketed s,
  ends_with-bracketed s,
  inner-bracketed s,
)

hex_digit-lt : (c : ℕ) → is_hex c ≡ true → hex_digit c < 16
unfolding is_hex hex_digit
hex_digit-lt c h = ground arith

hex-is_lower : (s : Text) → all is_hex s ≡ true → all is_lower s ≡ true
unfolding is_hex lower
hex-is_lower [] h = refl
hex-is_lower (c ∷ s) h = ground (arith, hex-is_lower s)

hex-lacks_colon : (s : Text) → all is_hex s ≡ true → lacks b':' s ≡ true
unfolding is_hex
hex-lacks_colon [] h = refl
hex-lacks_colon (c ∷ s) h = ground (arith, hex-lacks_colon s)

hextet-hex : (s : Text) → is_hextet s ≡ true → all is_hex s ≡ true
unfolding is_hextet
hextet-hex s h = ground arith

hextet-lt : (s : Text) → is_hextet s ≡ true → hex_value 0 s < 65536
unfolding is_hextet hex_value
hextet-lt [] h = cc
hextet-lt (a ∷ []) h = ground (arith, hex_digit-lt a)
hextet-lt (a ∷ b ∷ []) h = ground (arith, hex_digit-lt a, hex_digit-lt b)
hextet-lt (a ∷ b ∷ c ∷ []) h = ground (arith, hex_digit-lt a, hex_digit-lt b, hex_digit-lt c)
hextet-lt (a ∷ b ∷ c ∷ d ∷ []) h =
    ground (arith, hex_digit-lt a, hex_digit-lt b, hex_digit-lt c, hex_digit-lt d)
hextet-lt (a ∷ b ∷ c ∷ d ∷ e ∷ s) h = ground arith

module _ (hi lo : ℕ) (hhi : hi < 65536) (hlo : lo < 65536) where
  embedded : address (hi / 256 % 256) (hi % 256) (lo / 256 % 256) (lo % 256) ≡ 65536 * hi + lo
  embedded = omega arith

  is_private_ipv4-mapped : is_private_ipv4 (mapped_ipv4 hi lo) ≡ is_reserved (65536 * hi + lo)
  unfolding mapped_ipv4 join
  is_private_ipv4-mapped =
      is_private_ipv4-dotted (hi / 256 % 256) (hi % 256) (lo / 256 % 256) (lo % 256) (omega arith)
        (omega arith) (omega arith) (omega arith)
      ∙ ap is_reserved embedded

-- The text `::ffff:hi:lo` of an address.
abbrev pub mapped : Text → Text → Text
mapped hi lo = b':' ∷ b':' ∷ b'f' ∷ b'f' ∷ b'f' ∷ b'f' ∷ b':' ∷ (hi ++ (b':' ∷ lo))

module _ (hi lo : Text) (hhi : is_hextet hi ≡ true) (hlo : is_hextet lo ≡ true) where
  mapped-lower : all is_lower (mapped hi lo) ≡ true
  mapped-lower =
      unfold lower in
      ground (
        arith,
        all-append is_lower hi (b':' ∷ lo),
        hex-is_lower hi (hextet-hex hi hhi),
        hex-is_lower lo (hextet-hex lo hlo),
      )

  split-mapped : split b':' (hi ++ (b':' ∷ lo)) ≡ hi ∷ lo ∷ []
  split-mapped = rw (
    split-append b':' hi lo (hex-lacks_colon hi (hextet-hex hi hhi)),
    split-lacks b':' lo (hex-lacks_colon lo (hextet-hex lo hlo)),
  )

  is_private_ipv6-mapped : is_private_ipv6 (mapped hi lo) ≡ mapped_private (hi ∷ lo ∷ [])
  unfolding is_private_ipv6
  is_private_ipv6-mapped =
      rw (to_lower_case-of_lower (mapped hi lo) mapped-lower)
        (unfold ◌===◌ txt starts_with in rw split-mapped)

  -- For two groups of one to four hexadecimal digits in lower case, the host `[::ffff:hi:lo]` is
  -- refused exactly when the IPv4 address that it embeds lies in one of the reserved blocks.
  pub is_private_or_reserved_host-mapped :
      is_private_or_reserved_host (bracketed (mapped hi lo))
      ≡ is_reserved (65536 * hex_value 0 hi + hex_value 0 lo)
  unfolding mapped_private
  is_private_or_reserved_host-mapped =
      is_private_or_reserved_host-bracketed (mapped hi lo) mapped-lower
      ∙ (is_private_ipv6-mapped
          ∙ rw (hhi, hlo) (is_private_ipv4-mapped _ _ (hextet-lt hi hhi) (hextet-lt lo hlo)))
