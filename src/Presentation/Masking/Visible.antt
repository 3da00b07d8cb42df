-- ===== src/Presentation/Masking/Visible.antt =====
-- What a masked URL depends on.
use webhook_idp.Common.{
  ℕ, zero, suc, ◌+◌, ◌≡◌, ◌⊎◌, inl, inr, refl, ap, Bool, true, ◌&&◌, ◌||◌, ◌==◌, leb, all, List, [],
  ◌∷◌, length, take, arith, some, ◌-◌,
}
use webhook_idp.Common.Text.{Text, split, is_digit}
use webhook_idp.Subscription.PrivateHost.{private_host_functions, four_groups}
use webhook_idp.Subscription.TargetUrl.{Url, UrlParser}
use webhook_idp.Presentation.Masking.{
  Random, mask_domain_label, mask_subdomains, mask_labels, mask_hostname, mask_parsed,
  mask_target_url, domain_of, subdomains_of, is_masked_whole, hostname_draws,
}

-- One to three decimal digits.
abbrev pub is_octet_label : Text → Bool
is_octet_label label = leb 1 (length label) && (leb (length label) 3 && all is_digit label)

four_octets :
    (labels : List Text) → four_groups labels ≡ ((length labels == 4) && all is_octet_label labels)
unfolding private_host_functions
four_octets [] = refl
four_octets (a ∷ []) = refl
four_octets (a ∷ b ∷ []) = refl
four_octets (a ∷ b ∷ c ∷ []) = refl
four_octets (a ∷ b ∷ c ∷ d ∷ []) = ground arith
four_octets (a ∷ b ∷ c ∷ d ∷ e ∷ labels) = ground arith

-- A host of which nothing may be shown: one label, or four of digits.
abbrev pub hides_all : Text → Bool
hides_all hostname =
    let labels = split b'.' hostname in
    (length labels == 1) || ((length labels == 4) && all is_octet_label labels)

-- Two URLs that differ at most in what is hidden: the user's name and password; the host, where both
-- are of one label, or of four of one to three digits; and else the labels of the host but for the
-- first three units of the last but one.
pub record Alike (a b : Url) : Type 0 where
  pub protocol : a.protocol ≡ b.protocol
  pub port : a.port ≡ b.port
  pub pathname : a.pathname ≡ b.pathname
  pub search : a.search ≡ b.search
  pub hash : a.hash ≡ b.hash
  pub host :
      (hides_all a.hostname ≡ true) × (hides_all b.hostname ≡ true)
      ⊎ ((length (split b'.' a.hostname) ≡ length (split b'.' b.hostname))
          × (take 3 (domain_of (split b'.' a.hostname))
              ≡ take 3 (domain_of (split b'.' b.hostname)))
          × (hides_all a.hostname ≡ hides_all b.hostname))

is_masked_whole_lem : (hostname : Text) → is_masked_whole hostname ≡ hides_all hostname
unfolding is_masked_whole private_host_functions
is_masked_whole_lem hostname =
    ap (λ b. (length (split b'.' hostname) == 1) || b) (four_octets (split b'.' hostname))

length-take :
    (n : ℕ) (xs ys : List Text) → length xs ≡ length ys → length (take n xs) ≡ length (take n ys)
length-take zero xs ys h = refl
length-take (suc n) [] [] h = refl
length-take (suc n) [] (y ∷ ys) h = absurd (ground arith)
length-take (suc n) (x ∷ xs) [] h = absurd (ground arith)
length-take (suc n) (x ∷ xs) (y ∷ ys) h = omega (arith, length-take n xs ys (omega arith))

subdomains-length :
    (xs ys : List Text)
    → length xs ≡ length ys
    → length (subdomains_of xs) ≡ length (subdomains_of ys)
unfolding subdomains_of
subdomains-length xs ys h = rw (← h) (length-take (length xs - 2) xs ys h)

module _ (random : Random) where
  subdomains_alike :
      (i : ℕ) (xs ys : List Text)
      → length xs ≡ length ys
      → mask_subdomains random i xs ≡ mask_subdomains random i ys
  unfolding mask_subdomains
  subdomains_alike i [] [] h = refl
  subdomains_alike i [] (y ∷ ys) h = absurd (ground arith)
  subdomains_alike i (x ∷ xs) [] h = absurd (ground arith)
  subdomains_alike i (x ∷ xs) (y ∷ ys) h = rw (subdomains_alike (i + 1) xs ys (omega arith)) refl

  labels_alike :
      (i : ℕ) (xs ys : List Text)
      → length xs ≡ length ys
      → take 3 (domain_of xs) ≡ take 3 (domain_of ys)
      → mask_labels random i xs ≡ mask_labels random i ys
  unfolding mask_labels mask_domain_label
  labels_alike i xs ys h d =
      let same : length (subdomains_of xs) ≡ length (subdomains_of ys) =
        subdomains-length xs ys h in
      let hidden = subdomains_alike i (subdomains_of xs) (subdomains_of ys) same in
      cc (hidden, d, same)

  hostname-Alike :
      (i : ℕ) (a b : Url)
      → Alike a b
      → (mask_hostname random i a.hostname ≡ mask_hostname random i b.hostname)
        × (hostname_draws a.hostname ≡ hostname_draws b.hostname)
  unfolding mask_hostname hostname_draws
  hostname-Alike i a b h = elim h.host [
    | inl (p, q) ↦
        rw (is_masked_whole_lem a.hostname, is_masked_whole_lem b.hostname, p, q) (refl, refl)
    | inr (labels, domain, whole) ↦
        rw
          (
            is_masked_whole_lem a.hostname,
            is_masked_whole_lem b.hostname,
            whole,
            labels_alike i _ _ labels domain,
            subdomains-length _ _ labels,
          )
          (refl, refl)
  ]

  parsed-Alike : (i : ℕ) (a b : Url) → Alike a b → mask_parsed random i a ≡ mask_parsed random i b
  unfolding mask_parsed
  parsed-Alike i a b h =
      let host = (hostname-Alike i a b h).0 in
      cc (host, h.protocol, h.port, h.pathname, h.search, h.hash)

  -- A masked URL depends on nothing that is hidden: two URLs that differ only there are masked to the
  -- same text by the same draws, and take as many of them.
  pub mask_target_url-Alike :
      (parse : UrlParser) (i : ℕ) (s t : Text) (a b : Url)
      → parse s ≡ some a
      → parse t ≡ some b
      → Alike a b
      → mask_target_url random parse i s ≡ mask_target_url random parse i t
  unfolding mask_target_url
  mask_target_url-Alike parse i s t a b hs ht h =
      rw (mask_target_url, hs, ht, parsed-Alike i a b h, (hostname-Alike i a b h).1) refl
