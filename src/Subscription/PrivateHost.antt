-- ===== src/Subscription/PrivateHost.antt =====
-- packages/webhook-api/src/domain/subscription/value-objects/target-url.vo.ts, from line 47: which
-- hostnames are private or reserved. A regular expression is written as the test that it makes:
-- no group of digits holds a dot or a colon, so the groups are what lies between those.
-- `Number` and `parseInt` are applied to texts of digits only, where the model agrees with them.
pub mod Ranges
pub mod Ipv6
use webhook_idp.Common.{
  ℕ, ◌+◌, ◌-◌, ◌*◌, ◌/◌, ◌%◌, Bool, true, false, ◌&&◌, ◌||◌, ◌==◌, ltb, leb, if◌then◌else◌, List,
  [], ◌∷◌, map, reverse, Option, none, some, length, all, any, drop,
}
use webhook_idp.Common.Text.{
  Text, txt, ◌===◌, to_lower_case, starts_with, ends_with, includes, split, join, is_digit,
  digits_value,
}

-- `\d{1,3}`
is_group : Text → Bool
is_group s = leb 1 (length s) && leb (length s) 3 && all is_digit s

pub four_groups : List Text → Bool
unfolding is_group is_digit
four_groups (a ∷ b ∷ c ∷ d ∷ []) = is_group a && is_group b && is_group c && is_group d
four_groups _ = false

-- `/^\d{1,3}\.\d{1,3}\.\d{1,3}\.\d{1,3}$/.test(host)`
pub is_ipv4 : Text → Bool
is_ipv4 host = four_groups (split b'.' host)

-- `Number(s)`; `none` is `NaN`.
number : Text → Option ℕ
unfolding is_digit digits_value
number s = if all is_digit s then some (digits_value 0 s) else none

-- `Number.isNaN(n) || n < 0 || n > 255`
out_of_range : Option ℕ → Bool
out_of_range none = true
out_of_range (some n) = ltb 255 n

-- The tests on the first two octets; an octet that is not there is `undefined`.
reserved_octets : List (Option ℕ) → Bool
reserved_octets (some a ∷ some b ∷ _) =
    (a == 0)
    || (a == 10)
    || (a == 127)
    || (a == 169 && b == 254)
    || (a == 172 && leb 16 b && leb b 31)
    || (a == 192 && b == 168)
reserved_octets (some a ∷ _) = (a == 0) || (a == 10) || (a == 127)
reserved_octets _ = false

pub is_private_ipv4 : Text → Bool
is_private_ipv4 host =
    let octets = map number (split b'.' host) in
    if any out_of_range octets then true else reserved_octets octets

-- `[0-9a-f]`
is_hex : ℕ → Bool
is_hex c = (leb b'0' c && leb c b'9') || (leb b'a' c && leb c b'f')

hex_digit : ℕ → ℕ
hex_digit c = if leb c b'9' then c - b'0' else c - b'a' + 10

-- `parseInt(s, 16)`, on hexadecimal digits in lower case.
pub hex_value : ℕ → Text → ℕ
hex_value n [] = n
hex_value n (c ∷ s) = hex_value (16 * n + hex_digit c) s

-- `[0-9a-f]{1,4}`
pub is_hextet : Text → Bool
unfolding is_hex
is_hextet s = leb 1 (length s) && leb (length s) 4 && all is_hex s

-- The text of a number of at most three decimal digits, as `join` writes it.
unfoldable pub decimal : ℕ → Text
decimal n =
    if ltb n 10
    then (n + b'0') ∷ []
    else if ltb n 100
    then (n / 10 + b'0') ∷ (n % 10 + b'0') ∷ []
    else (n / 100 + b'0') ∷ (n / 10 % 10 + b'0') ∷ (n % 10 + b'0') ∷ []

-- `[(hi >> 8) & 0xff, hi & 0xff, (lo >> 8) & 0xff, lo & 0xff].join('.')`
mapped_ipv4 : ℕ → ℕ → Text
unfolding decimal join
mapped_ipv4 hi lo =
    join b'.' (map decimal (hi / 256 % 256 ∷ hi % 256 ∷ lo / 256 % 256 ∷ lo % 256 ∷ []))

-- What follows the prefix `::ffff:` of an address: its parts between colons.
mapped_private : List Text → Bool
mapped_private (dotted ∷ []) = is_ipv4 dotted && is_private_ipv4 dotted
mapped_private (hi ∷ lo ∷ []) =
    (is_hextet hi && is_hextet lo)
    && is_private_ipv4 (mapped_ipv4 (hex_value 0 hi) (hex_value 0 lo))
mapped_private _ = false

pub is_private_ipv6 : Text → Bool
is_private_ipv6 host =
    let normalized = to_lower_case host in
    if normalized === txt "::1" || normalized === txt "::"
    then true
    else if starts_with normalized (txt "fe80:")
    then true
    else if starts_with normalized (txt "fc") || starts_with normalized (txt "fd")
    then true
    else if starts_with normalized (txt "::ffff:")
    then mapped_private (split b':' (drop 7 normalized))
    else false

-- `host.slice(1, -1)` of a text of at least two units.
inner : Text → Text
inner host = reverse (drop 1 (reverse (drop 1 host)))

pub is_private_or_reserved_host : Text → Bool
is_private_or_reserved_host hostname =
    let host = to_lower_case hostname in
    if host === txt "localhost"
    then true
    else if starts_with host (txt "[") && ends_with host (txt "]")
    then is_private_ipv6 (inner host)
    else if is_ipv4 host
    then is_private_ipv4 host
    else if includes host b':'
    then is_private_ipv6 host
    else false

-- What a test of the functions above computes with.
unfoldable pub private_host_functions : Unit {0}
unfolding is_private_or_reserved_host is_private_ipv6 is_private_ipv4 is_ipv4 mapped_private
    is_hextet hex_value hex_digit mapped_ipv4 four_groups number out_of_range reserved_octets inner
    split starts_with ends_with includes to_lower_case ◌===◌ txt
private_host_functions = tt
