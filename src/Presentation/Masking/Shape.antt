-- ===== src/Presentation/Masking/Shape.antt =====
-- The form of a masked host.
use webhook_idp.Common.{
  ℕ, ◌+◌, ◌≤◌, ◌≡◌, refl, true, false, List, [], ◌∷◌, ◌++◌, map, length, take, arith, All,
}
use webhook_idp.Common.Text.{Text, txt, split, join}
use webhook_idp.Presentation.Masking.{
  Random, repeat_asterisk, random_asterisks, mask_domain_label, mask_subdomains, mask_labels,
  mask_hostname, domain_of, subdomains_of, is_masked_whole,
}

module _ (random : Random) where
  subdomain_counts :
      (i : ℕ) (xs : List Text)
      → (counts : List ℕ) × (mask_subdomains random i xs ≡ map repeat_asterisk counts)
        × (length counts ≡ length xs)
        × All (λ n. (4 ≤ n) × (n ≤ 12)) counts
  unfolding mask_subdomains random_asterisks
  subdomain_counts i [] = ([], refl, refl, tt)
  subdomain_counts i (x ∷ xs) =
      let (counts, same, len, bounds) = subdomain_counts (i + 1) xs in
      let small = random.scaled-lt i 9 (omega arith) in
      (
        (4 + random.scaled i 9) ∷ counts,
        rw same refl,
        omega (arith, len),
        ((omega arith, omega arith), bounds),
      )

  -- A host is masked in one of two forms. Without dots, or of four numbers, it becomes 6 to 14
  -- asterisks. Otherwise each label becomes 4 to 12 asterisks, but for the last two: of the last but
  -- one its first three units stay, followed by 3 to 8 asterisks, and the last becomes two.
  mask_hostname_lem :
      (i : ℕ) (hostname : Text)
      → (is_masked_whole hostname ≡ true
          → (n : ℕ) × (6 ≤ n) × (n ≤ 14) × (mask_hostname random i hostname ≡ repeat_asterisk n))
        × (is_masked_whole hostname ≡ false
            → (counts : List ℕ) × (n : ℕ) × (length counts
                ≡ length (subdomains_of (split b'.' hostname)))
              × All (λ k. (4 ≤ k) × (k ≤ 12)) counts
              × (3 ≤ n)
              × (n ≤ 8)
              × (mask_hostname random i hostname
                  ≡ join b'.' (
                      map repeat_asterisk counts
                      ++ (take 3 (domain_of (split b'.' hostname)) ++ repeat_asterisk n)
                        ∷ txt "**"
                        ∷ [])))
  unfolding mask_hostname mask_labels mask_domain_label random_asterisks
  mask_hostname_lem i hostname = (
    (λ h.
        let small = random.scaled-lt i 9 (omega arith) in
        (6 + random.scaled i 9, omega arith, omega arith, rw h refl)),
    (λ h.
        let labels = split b'.' hostname in
        let j = i + length (subdomains_of labels) in
        let (counts, same, len, bounds) = subdomain_counts i (subdomains_of labels) in
        let small = random.scaled-lt j 6 (omega arith) in
        (counts, 3 + random.scaled j 6, len, bounds, omega arith, omega arith, rw (h, same) refl)),
  )
