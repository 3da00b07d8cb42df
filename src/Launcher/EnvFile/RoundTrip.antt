-- ===== src/Launcher/EnvFile/RoundTrip.antt =====
-- What was written into a .env file is read back.
use mathlib.Core.List.{reverse-append, reverse-reverse, reverse-cons, append_assoc}
use webhook_idp.Common.{
  Bool-cases, inl, inr, ℕ, ◌≡◌, refl, sym, ap, ◌∙◌, Bool, true, false, not, some, List, [], ◌∷◌,
  ◌++◌, reverse, ◌==◌, ==_iff, all, arith, All, map,
}
use webhook_idp.Common.Text.{Text, txt, is_space, solid, trim, trim-solid, starts_with, split, join}
use webhook_idp.Common.Split.{lacks, split-lacks, split-append, all-append}
use webhook_idp.Common.Stores.{Store, set}
use webhook_idp.Launcher.EnvFile.{
  chomp, chomp_lines, split_lines, split_pair, ends_line, unquote, entry_of_line, entry_of_pair,
  without_return, assign, read_lines, parse_env_file,
}

-- A line that binds a key to a value between double quotes.
abbrev pub env_line : Text × Text → Text
env_line entry = entry.0 ++ (b'=' ∷ b'"' ∷ (entry.1 ++ b'"' ∷ []))

abbrev pub print_env : List (Text × Text) → Text
print_env entries = join b'\n' (map env_line entries)

-- A key has no white space at its ends, no `=` and no line feed, and does not begin with `#`; a
-- value has no unit that ends a line.
pub record IsEntry (entry : Text × Text) : Type 0 where
  pub begins : solid entry.0 ≡ true
  pub ends : solid (reverse entry.0) ≡ true
  pub no_equals : lacks b'=' entry.0 ≡ true
  pub no_feed : lacks b'\n' entry.0 ≡ true
  pub no_comment : starts_with entry.0 (txt "#") ≡ false
  pub one_line : all (λ c. not (ends_line c)) entry.1 ≡ true

abbrev pub set_all : List (Text × Text) → Store Text → Store Text
set_all [] env = env
set_all (entry ∷ entries) env = set_all entries (set entry.0 entry.1 env)

reverse-concat : (s : Text) (c : ℕ) → reverse (s ++ c ∷ []) ≡ c ∷ reverse s
reverse-concat s c = rw reverse-append

all-reverse : (p : ℕ → Bool) (s : Text) → all p s ≡ true → all p (reverse s) ≡ true
all-reverse p [] h = refl
all-reverse p (c ∷ s) h =
    let rest = all-reverse p s (ground (arith, h)) in
    ap (all p) (reverse-cons c s) ∙ (all-append p (reverse s) (c ∷ []) ∙ ground (arith, rest, h))

split_pair-lacks : (k s : Text) → lacks b'=' k ≡ true → split_pair (k ++ (b'=' ∷ s)) ≡ some (k, s)
unfolding split_pair
split_pair-lacks [] s h = refl
split_pair-lacks (c ∷ k) s h = ground (arith, split_pair-lacks k s)

unquote-quoted :
    (v : Text) → all (λ c. not (ends_line c)) v ≡ true → unquote (b'"' ∷ (v ++ b'"' ∷ [])) ≡ v
unfolding unquote
unquote-quoted v h =
    let inner = all-reverse (λ c. not (ends_line c)) v h in
    rw (reverse-concat v b'"') (rw inner (reverse-reverse v))

without_return-solid : (s : Text) → solid s ≡ true → without_return s ≡ s
unfolding is_space
without_return-solid [] h = refl
without_return-solid (c ∷ s) h = elim (Bool-cases (c == b'\r')) [
  | inl return ↦ absurd (ground (arith, ==_iff c b'\r', return, h))
  | inr other ↦ rw other refl
]

chomp-solid : (s : Text) → solid (reverse s) ≡ true → chomp s ≡ s
unfolding chomp
chomp-solid s h = ap reverse (without_return-solid (reverse s) h) ∙ reverse-reverse s

chomp_lines-solid :
    (lines : List Text) → All (λ l. solid (reverse l) ≡ true) lines → chomp_lines lines ≡ lines
unfolding chomp_lines
chomp_lines-solid [] h = refl
chomp_lines-solid (l ∷ []) h = refl
chomp_lines-solid (l ∷ m ∷ lines) (p, h) =
    rw (chomp-solid l p, chomp_lines-solid (m ∷ lines) h) refl

split-join :
    (c : ℕ) (l : Text) (lines : List Text)
    → All (λ m. lacks c m ≡ true) (l ∷ lines)
    → split c (join c (l ∷ lines)) ≡ l ∷ lines
unfolding join
split-join c l [] (p, h) = split-lacks c l p
split-join c l (m ∷ lines) (p, h) =
    split-append c l (join c (m ∷ lines)) p ∙ ap (λ ls. l ∷ ls) (split-join c m lines h)

line-ends : (e : Text × Text) → reverse (env_line e) ≡ b'"' ∷ reverse (e.0 ++ (b'=' ∷ b'"' ∷ e.1))
line-ends e =
    ap reverse (sym (append_assoc e.0 (b'=' ∷ b'"' ∷ e.1) (b'"' ∷ [])))
    ∙ reverse-concat (e.0 ++ (b'=' ∷ b'"' ∷ e.1)) b'"'

solid-before : (k s : Text) → solid k ≡ true → solid s ≡ true → solid (k ++ s) ≡ true
solid-before [] s h r = r
solid-before (c ∷ k) s h r = h

line-solid : (e : Text × Text) → IsEntry e → solid (env_line e) ≡ true
unfolding is_space
line-solid e h = solid-before e.0 _ h.begins refl

line-solid_end : (e : Text × Text) → solid (reverse (env_line e)) ≡ true
unfolding is_space
line-solid_end e = ap solid (line-ends e)

line-trim : (e : Text × Text) → IsEntry e → trim (env_line e) ≡ env_line e
line-trim e h = trim-solid (env_line e) (line-solid e h) (line-solid_end e)

quoted-trim : (v : Text) → trim (b'"' ∷ (v ++ b'"' ∷ [])) ≡ b'"' ∷ (v ++ b'"' ∷ [])
unfolding is_space
quoted-trim v =
    trim-solid (b'"' ∷ (v ++ b'"' ∷ [])) refl (ap solid (reverse-concat (b'"' ∷ v) b'"'))

pair-entry : (e : Text × Text) → IsEntry e → entry_of_pair (split_pair (env_line e)) ≡ some e
pair-entry e h =
    ap entry_of_pair (split_pair-lacks e.0 _ h.no_equals)
    ∙ rw (trim-solid e.0 h.begins h.ends, quoted-trim e.1, unquote-quoted e.1 h.one_line) refl

no_comment-line :
    (k s : Text)
    → starts_with k (txt "#") ≡ false
    → entry_of_line (k ++ (b'=' ∷ s)) ≡ entry_of_pair (split_pair (k ++ (b'=' ∷ s)))
unfolding starts_with txt
no_comment-line [] s h = refl
no_comment-line (c ∷ k) s h = ground (arith, h)

entry-line : (e : Text × Text) → IsEntry e → entry_of_line (env_line e) ≡ some e
entry-line e h = no_comment-line e.0 _ h.no_comment ∙ pair-entry e h

-- A text with no unit that ends a line has no line feed.
lacks-value : (v : Text) → all (λ c. not (ends_line c)) v ≡ true → lacks b'\n' v ≡ true
lacks-value [] h = refl
lacks-value (c ∷ v) h = ground (arith, lacks-value v, h)

lacks-line : (e : Text × Text) → IsEntry e → lacks b'\n' (env_line e) ≡ true
lacks-line e h =
    all-append (λ c. not (c == b'\n')) e.0 _
    ∙ rw (all-append (λ c. not (c == b'\n')) e.1 (b'"' ∷ []), h.no_feed, lacks-value e.1 h.one_line)
        refl

lines-print :
    (entries : List (Text × Text))
    → All IsEntry entries
    → All (λ m. lacks b'\n' m ≡ true) (map env_line entries)
lines-print [] h = tt
lines-print (e ∷ es) (p, h) = (lacks-line e p, lines-print es h)

lines-solid :
    (entries : List (Text × Text)) → All (λ l. solid (reverse l) ≡ true) (map env_line entries)
lines-solid [] = tt
lines-solid (e ∷ es) = (line-solid_end e, lines-solid es)

read_lines-print :
    (entries : List (Text × Text)) (env : Store Text)
    → All IsEntry entries
    → read_lines env (map env_line entries) ≡ set_all entries env
unfolding read_lines
read_lines-print [] env h = refl
read_lines-print (e ∷ es) env (p, h) =
    ap (λ t. read_lines (assign (entry_of_line t) env) (map env_line es)) (line-trim e p)
    ∙ ap (λ o. read_lines (assign o env) (map env_line es)) (entry-line e p)
    ∙ read_lines-print es (set e.0 e.1 env) h

-- Entries are written one to a line, each value between double quotes. Their keys have no white
-- space at their ends, no `=` and no line feed, and do not begin with `#`; their values have no unit
-- that ends a line. Then what is read back is the map that binds each key to its value, of equal
-- keys the last.
pub parse_env_file-print_env :
    (entries : List (Text × Text))
    → All IsEntry entries
    → parse_env_file (some (print_env entries)) ≡ set_all entries []
unfolding parse_env_file split_lines join split chomp_lines read_lines trim
parse_env_file-print_env [] h = refl
parse_env_file-print_env (e ∷ es) h =
    let lines = map env_line (e ∷ es) in
    ap (λ ls. read_lines [] (chomp_lines ls))
      (split-join b'\n' (env_line e) (map env_line es) (lines-print (e ∷ es) h))
    ∙ ap (read_lines []) (chomp_lines-solid lines (lines-solid (e ∷ es)))
    ∙ read_lines-print (e ∷ es) [] h
