-- ===== src/Presentation/Masking.antt =====
-- packages/webhook-api/src/presentation/common/interceptors/target-url-masking.interceptor.ts. A call
-- of `Math.random` is the next draw of a source; a function that draws gives back the number of
-- draws made.
pub mod Shape
pub mod Visible
use webhook_idp.Common.{
  ℕ, zero, suc, ◌+◌, ◌-◌, ◌<◌, Bool, ◌||◌, none, some, List, [], ◌∷◌, ◌++◌, ◌==◌, if◌then◌else◌,
  length, take, ltb,
}
use webhook_idp.Common.Text.{Text, txt, split, join}
use webhook_idp.Subscription.PrivateHost.{is_ipv4}
use webhook_idp.Subscription.TargetUrl.{Url, UrlParser}
use webhook_idp.Presentation.Dto.{SubscriptionResponseDto, PaginatedSubscriptionsResponseDto}

-- `scaled i n` is `Math.floor(Math.random() * n)` at the draw `i`.
pub record Random : Type 0 where
  pub scaled : ℕ → ℕ → ℕ
  pub scaled-lt : (i n : ℕ) → 0 < n → scaled i n < n

-- What a handler of the program returns: a subscription, a page of them, or anything else.
pub data ResponseData : Type 0 where
  one : SubscriptionResponseDto → ResponseData
  page : PaginatedSubscriptionsResponseDto → ResponseData
  other : Text → ResponseData

-- `'*'.repeat(count)`
unfoldable pub repeat_asterisk : ℕ → Text
repeat_asterisk zero = []
repeat_asterisk (suc n) = b'*' ∷ repeat_asterisk n

-- `labels[n]`, where it is there.
unfoldable pub label_at : List Text → ℕ → Text
label_at [] n = []
label_at (label ∷ labels) zero = label
label_at (label ∷ labels) (suc n) = label_at labels n

-- The last but one label, and those before it.
unfoldable pub domain_of : List Text → Text
domain_of labels = label_at labels (length labels - 2)

unfoldable pub subdomains_of : List Text → List Text
subdomains_of labels = take (length labels - 2) labels

unfoldable pub is_masked_whole : Text → Bool
is_masked_whole hostname = (length (split b'.' hostname) == 1) || is_ipv4 hostname

-- The number of draws that `maskHostname` makes.
unfoldable pub hostname_draws : Text → ℕ
hostname_draws hostname =
    if is_masked_whole hostname then 1 else length (subdomains_of (split b'.' hostname)) + 1

module _ (random : Random) where
  -- `randomAsterisks(min, max)` at the draw `i`.
  unfoldable pub random_asterisks : ℕ → ℕ → ℕ → Text
  random_asterisks i min max = repeat_asterisk (min + random.scaled i (max - min + 1))

  -- `maskDomainLabel`
  unfoldable pub mask_domain_label : ℕ → Text → Text
  mask_domain_label i label = take 3 label ++ random_asterisks i 3 8

  -- `subdomains.map(() => randomAsterisks(4, 12))`
  unfoldable pub mask_subdomains : ℕ → List Text → List Text
  mask_subdomains i [] = []
  mask_subdomains i (_ ∷ subdomains) = random_asterisks i 4 12 ∷ mask_subdomains (i + 1) subdomains

  -- `maskHostname`
  unfoldable pub mask_labels : ℕ → List Text → Text
  mask_labels i labels = join b'.' (
      mask_subdomains i (subdomains_of labels)
      ++ mask_domain_label (i + length (subdomains_of labels)) (domain_of labels) ∷ txt "**" ∷ [])

  unfoldable pub mask_hostname : ℕ → Text → Text
  mask_hostname i hostname =
      if is_masked_whole hostname
      then random_asterisks i 6 14
      else mask_labels i (split b'.' hostname)

  -- `maskTargetUrl`, where the parsed URL is given.
  unfoldable pub mask_parsed : ℕ → Url → Text
  mask_parsed i parsed =
      let port = if ltb 0 (length parsed.port) then b':' ∷ parsed.port else [] in
      parsed.protocol
      ++ (txt "//"
          ++ (mask_hostname i parsed.hostname
              ++ (port ++ (parsed.pathname ++ (parsed.search ++ parsed.hash)))))

  module _ (parse : UrlParser) where
    -- `maskTargetUrl`, with the draws that it makes.
    unfoldable pub mask_target_url : ℕ → Text → Text × ℕ
    mask_target_url i target_url = elim (parse target_url) [
      | none ↦ (target_url, 0)
      | some parsed ↦ (mask_parsed i parsed, hostname_draws parsed.hostname)
    ]

    -- `maskSubscription`
    unfoldable pub mask_subscription : ℕ → SubscriptionResponseDto → SubscriptionResponseDto × ℕ
    mask_subscription i s =
        let (masked, draws) = mask_target_url i s.target_url in
        (record s { target_url = masked }, draws)

    unfoldable pub mask_items : ℕ → List SubscriptionResponseDto → List SubscriptionResponseDto
    mask_items i [] = []
    mask_items i (s ∷ items) =
        let (masked, draws) = mask_subscription i s in masked ∷ mask_items (i + draws) items

    -- `maskResponse`
    unfoldable pub mask_response : ResponseData → ResponseData
    mask_response (one s) = one (mask_subscription 0 s).0
    mask_response (page p) = page (record p { items = mask_items 0 p.items })
    mask_response (other text) = other text
