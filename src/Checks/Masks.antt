-- ===== src/Checks/Masks.antt =====
-- The theorems on masked URLs, at concrete inputs.
use webhook_idp.Common.{◌≡◌, refl, some, [], inl, inr}
use webhook_idp.Common.Text.{Text, txt, split, is_digit}
use webhook_idp.Subscription.TargetUrl.{Url, UrlParser}
use webhook_idp.Presentation.Masking.{Random, mask_target_url, domain_of, subdomains_of, label_at}
use webhook_idp.Presentation.Masking.Visible.{mask_target_url-Alike}

-- The lowest of the numbers that may be drawn.
abbrev pub lowest : Random
lowest = record { scaled = λ i n. 0; scaled-lt = λ i n h. h }

abbrev url_at : Text → Url
url_at host = record {
  href = host;
  protocol = txt "https:";
  username = [];
  password = [];
  hostname = host;
  port = [];
  pathname = txt "/hook";
  search = [];
  hash = [];
}

-- A parser that takes the text for the host.
abbrev host_parser : UrlParser
host_parser host = some (url_at host)

mask_target_url-Alike_example :
    mask_target_url lowest host_parser 0 (txt "shop.example.com")
    ≡ mask_target_url lowest host_parser 0 (txt "bank.exact.org")
unfolding domain_of subdomains_of label_at split is_digit txt
mask_target_url-Alike_example =
    mask_target_url-Alike lowest host_parser 0 (txt "shop.example.com") (txt "bank.exact.org")
      (url_at (txt "shop.example.com")) (url_at (txt "bank.exact.org")) refl refl
      (record {
        protocol = refl;
        port = refl;
        pathname = refl;
        search = refl;
        hash = refl;
        host = inr (refl, refl, refl);
      })

-- Nothing of an address of four numbers is shown.
address_test :
    mask_target_url lowest host_parser 0 (txt "8.8.4.4")
    ≡ mask_target_url lowest host_parser 0 (txt "191.20.7.101")
unfolding split is_digit txt
address_test =
    mask_target_url-Alike lowest host_parser 0 (txt "8.8.4.4") (txt "191.20.7.101")
      (url_at (txt "8.8.4.4")) (url_at (txt "191.20.7.101")) refl refl
      (record {
        protocol = refl;
        port = refl;
        pathname = refl;
        search = refl;
        hash = refl;
        host = inl (refl, refl);
      })
