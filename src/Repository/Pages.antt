-- ===== src/Repository/Pages.antt =====
-- The pages of a list, one after the other.
use native.Mathlib.Nat.{zero-mul}
use webhook_idp.Common.{
  ℕ, zero, suc, ◌*◌, ◌≤◌, ◌≡◌, refl, sym, ap, ◌∙◌, Bool, List, [], ◌∷◌, ◌++◌, arith, length, take,
  drop, take-add, take_of_le,
}
use webhook_idp.Common.Text.{Text}
use webhook_idp.Common.Exec.{map_result-cons, Result, ok, ◌>>=◌, map_result}
use webhook_idp.Subscription.ValueObjects.{TenantId}
use webhook_idp.Subscription.TargetUrl.{UrlParser}
use webhook_idp.Subscription.Aggregate.{WebhookSubscription}
use webhook_idp.Persistence.{SubscriptionRecord, to_aggregate}
use webhook_idp.UseCases.Ports.{Exception, SubscriptionListFilters}
use webhook_idp.Repository.{SubscriptionCollection, skip_of, by_filters, list}

module _ {E A B : Type 0} (f : A → Result E B) where
  -- A map that returns, returns on a part of the list, with that part of the result.
  map_result-take :
      (n : ℕ) (xs : List A) (zs : List B)
      → map_result f xs ≡ ok zs
      → map_result f (take n xs) ≡ ok (take n zs)
  unfolding map_result
  map_result-take zero xs zs h = refl
  map_result-take (suc n) [] zs h = ground arith
  map_result-take (suc n) (x ∷ xs) zs h =
      let (y, ys, first, rest, same) = map_result-cons f x xs zs h in
      rw (same, first, map_result-take n xs ys rest) refl

  map_result-drop :
      (n : ℕ) (xs : List A) (zs : List B)
      → map_result f xs ≡ ok zs
      → map_result f (drop n xs) ≡ ok (drop n zs)
  unfolding map_result
  map_result-drop zero xs zs h = h
  map_result-drop (suc n) [] zs h = ground arith
  map_result-drop (suc n) (x ∷ xs) zs h =
      let (y, ys, first, rest, same) = map_result-cons f x xs zs h in
      rw same (map_result-drop n xs ys rest)

  map_result-length : (xs : List A) (zs : List B) → map_result f xs ≡ ok zs → length zs ≡ length xs
  unfolding map_result
  map_result-length [] zs h = ground arith
  map_result-length (x ∷ xs) zs h =
      let (y, ys, first, rest, same) = map_result-cons f x xs zs h in
      rw same (omega (arith, map_result-length xs ys rest))

module _ (is_valid_uuid : Text → Bool) (parse : UrlParser) (c : SubscriptionCollection)
    (tenant : TenantId) (filters : SubscriptionListFilters) (size : ℕ) (db : c.Db) where
  -- A client that reads the first pages, one after the other.
  unfoldable pub read_pages : ℕ → Result Exception (List WebhookSubscription)
  read_pages zero = ok []
  read_pages (suc n) = read_pages n >>= λ before.
      list is_valid_uuid parse c tenant filters (record { page = suc n; page_size = size }) db
      >>= λ r. ok (before ++ r.items)

  next_page :
      (n : ℕ) (all : List WebhookSubscription)
      → take (n * size) all ++ take size (drop (n * size) all) ≡ take (suc n * size) all
  next_page n all = sym (take-add (n * size) size all) ∙ ap (λ k. take k all) (grind arith)

  module _ (ms : List SubscriptionRecord) (all : List WebhookSubscription) (some_size : 1 ≤ size)
      (stable : (skip limit : ℕ)
        → 1 ≤ limit
        → c.find_some (by_filters tenant filters) skip limit db ≡ ok (take limit (drop skip ms)))
      (counted : c.count_documents (by_filters tenant filters) db ≡ ok (length ms))
      (read : map_result (to_aggregate is_valid_uuid parse) ms ≡ ok all) where
    list-page :
        (n : ℕ)
        → list is_valid_uuid parse c tenant filters (record { page = suc n; page_size = size }) db
          ≡ ok (record {
            items = take size (drop (n * size) all);
            page = suc n;
            page_size = size;
            total = length ms;
          })
    unfolding list skip_of
    list-page n =
        let page =
          map_result-take (to_aggregate is_valid_uuid parse) size _ _
            (map_result-drop (to_aggregate is_valid_uuid parse) (n * size) ms all read) in
        rw (stable (n * size) size some_size, counted, page) refl

    read_pages-take : (n : ℕ) → read_pages n ≡ ok (take (n * size) all)
    unfolding read_pages
    read_pages-take zero = rw zero-mul refl
    read_pages-take (suc n) = rw (read_pages-take n, list-page n, next_page n all) refl

    -- As long as the page size is not 0, the driver returns the documents that the filters select in
    -- one order at every skip and limit but 0, and each of them can be read, the pages of a list, from the first to the last, hold each of these documents
    -- once, in that order.
    pub read_pages-all : (n : ℕ) → length ms ≤ n * size → read_pages n ≡ ok all
    read_pages-all n enough =
        let len = map_result-length (to_aggregate is_valid_uuid parse) ms all read in
        read_pages-take n ∙ ap ok (take_of_le (n * size) all (omega (arith, len, enough)))
