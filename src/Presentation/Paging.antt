-- ===== src/Presentation/Paging.antt =====
-- packages/webhook-api/src/presentation/common/interceptors/pagination.interceptor.ts
use webhook_idp.Common.{
  ℕ, ◌≤◌, ◌≡◌, Bool, not, ◌||◌, ◌&&◌, Option, none, some, ◌++◌, arith, ltb, all, ◌==◌, length,
  if◌then◌else◌,
}
use webhook_idp.Common.Text.{Text, txt, is_digit, digits_value}
use webhook_idp.Common.Exec.{Result, ok, err, ◌>>=◌, >>=-eq-ok}

-- A value of the query string as the HTTP server gives it.
pub data QueryValue : Type 0 where
  undefined : QueryValue
  text : Text → QueryValue
  structured : QueryValue

abbrev pub default_page : ℕ
default_page = 1

abbrev pub default_page_size : ℕ
default_page_size = 20

pub record ResolvedPagination : Type 0 where
  pub page : ℕ
  pub page_size : ℕ

unfoldable pub positive_integer_expected : Text → Text
positive_integer_expected field_name =
    txt "\"" ++ (field_name ++ txt "\" must be a positive integer")

-- `/^\d+$/`
unfoldable pub is_number : Text → Bool
is_number value = not (length value == 0) && all is_digit value

-- `parsePositiveInt`: the message is that of the `BadRequestException`. The number is exact; a
-- double is so below 2 ^ 53.
unfoldable pub parse_positive_int : QueryValue → Text → Result Text (Option ℕ)
parse_positive_int undefined field_name = ok none
parse_positive_int structured field_name = err (positive_integer_expected field_name)
parse_positive_int (text value) field_name =
    if not (is_number value) || ltb (digits_value 0 value) 1
    then err (positive_integer_expected field_name)
    else ok (some (digits_value 0 value))

-- `a ?? b`
abbrev pub or_else : Option ℕ → ℕ → ℕ
or_else none b = b
or_else (some a) b = a

-- `PaginationInterceptor.intercept`: what it attaches to the request.
unfoldable pub resolve_pagination : QueryValue → QueryValue → Result Text ResolvedPagination
resolve_pagination page page_size = do
  p ← parse_positive_int page (txt "page")
  size ← parse_positive_int page_size (txt "pageSize")
  ok (record { page = or_else p default_page; page_size = or_else size default_page_size })

one_le_one : 1 ≤ 1
one_le_one = omega arith

one_le_twenty : 1 ≤ 20
one_le_twenty = omega arith

parse-positive :
    (q : QueryValue) (name : Text) (n : Option ℕ) (default : ℕ)
    → parse_positive_int q name ≡ ok n
    → 1 ≤ default
    → 1 ≤ or_else n default
unfolding parse_positive_int
parse-positive undefined name n d h k = ground arith
parse-positive structured name n d h k = absurd (ground arith)
parse-positive (text t) name n d h k = ground arith

-- The page and the page size that a request gets are at least 1, whatever its query string, so the
-- number of documents to skip, `(page - 1) * pageSize`, is never negative and a page never empty by
-- its size.
pub resolve_pagination-positive :
    (page page_size : QueryValue) (p : ResolvedPagination)
    → resolve_pagination page page_size ≡ ok p
    → (1 ≤ p.page) × (1 ≤ p.page_size)
unfolding resolve_pagination
resolve_pagination-positive page page_size p h =
    let (a, ha, rest) = >>=-eq-ok (parse_positive_int page (txt "page")) _ h in
    let (b, hb, made) = >>=-eq-ok (parse_positive_int page_size (txt "pageSize")) _ rest in
    let first : 1 ≤ or_else a default_page = parse-positive page (txt "page") a 1 ha one_le_one in
    let second : 1 ≤ or_else b default_page_size =
      parse-positive page_size (txt "pageSize") b 20 hb one_le_twenty in
    (ground arith, ground arith)
