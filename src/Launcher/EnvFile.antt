-- ===== src/Launcher/EnvFile.antt =====
-- scripts/dev.mjs, `parseEnvFile`: the text of a .env file as a map. `Object` gives the key
-- `__proto__` a meaning of its own, which is left aside.
pub mod RoundTrip
use webhook_idp.Common.{
  ℕ, Bool, not, ◌&&◌, ◌||◌, Option, none, some, List, [], ◌∷◌, reverse, ◌==◌, if◌then◌else◌, all,
}
use webhook_idp.Common.Text.{Text, txt, trim, starts_with, split}
use webhook_idp.Common.Stores.{Store, set}

abbrev pub without_return : Text → Text
without_return [] = []
without_return (c ∷ s) = if c == b'\r' then s else c ∷ s

-- A piece of a text before a line feed: the carriage return before the line feed is the separator's.
unfoldable pub chomp : Text → Text
chomp s = reverse (without_return (reverse s))

unfoldable pub chomp_lines : List Text → List Text
chomp_lines [] = []
chomp_lines (last ∷ []) = last ∷ []
chomp_lines (line ∷ next ∷ lines) = chomp line ∷ chomp_lines (next ∷ lines)

-- `split(/\r?\n/)`
unfoldable pub split_lines : Text → List Text
split_lines s = chomp_lines (split b'\n' s)

abbrev pub prepend : ℕ → Option (Text × Text) → Option (Text × Text)
prepend c none = none
prepend c (some (before, after)) = some (c ∷ before, after)

-- `slice(0, eq)` and `slice(eq + 1)` for the first `=`, if there is one.
unfoldable pub split_pair : Text → Option (Text × Text)
split_pair [] = none
split_pair (c ∷ s) = if c == b'=' then some ([], s) else prepend c (split_pair s)

-- The units that `.` does not match.
abbrev pub ends_line : ℕ → Bool
ends_line c = c == b'\n' || (c == b'\r' || (c == 0x2028 || c == 0x2029))

-- A value that begins with `quote`, by what follows it, backwards.
abbrev pub unquote_from : Text → ℕ → Text → Text
unquote_from value quote [] = value
unquote_from value quote (last ∷ inner) =
    if (quote == b'\'' || quote == b'"') && (last == quote && all (λ c. not (ends_line c)) inner)
    then reverse inner
    else value

-- `if (/^(['"]).*\1$/.test(value)) value = value.slice(1, -1);`
unfoldable pub unquote : Text → Text
unquote [] = []
unquote (c ∷ s) = unquote_from (c ∷ s) c (reverse s)

abbrev pub entry_of_pair : Option (Text × Text) → Option (Text × Text)
entry_of_pair none = none
entry_of_pair (some (key, value)) = some (trim key, unquote (trim value))

-- `if (!line || line.startsWith('#')) continue;`
abbrev pub entry_of_line : Text → Option (Text × Text)
entry_of_line [] = none
entry_of_line (c ∷ s) =
    if starts_with (c ∷ s) (txt "#") then none else entry_of_pair (split_pair (c ∷ s))

abbrev pub assign : Option (Text × Text) → Store Text → Store Text
assign none env = env
assign (some (key, value)) env = set key value env

unfoldable pub read_lines : Store Text → List Text → Store Text
read_lines env [] = env
read_lines env (raw ∷ lines) = read_lines (assign (entry_of_line (trim raw)) env) lines

-- `parseEnvFile`, on the text of the file if there is one.
unfoldable pub parse_env_file : Option Text → Store Text
parse_env_file none = []
parse_env_file (some text) = read_lines [] (split_lines text)
