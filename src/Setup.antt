-- ===== src/Setup.antt =====
-- scripts/setup-claude.mjs: the links that the script makes. The file system and the functions on
-- paths are parameters, with what their documentation says as laws. What is printed is left out.
pub mod Again
use webhook_idp.Common.{
  ◌≡◌, Bool, true, false, not, ◌||◌, Option, none, some, List, [], ◌∷◌, if◌then◌else◌,
}
use webhook_idp.Common.Text.{Text, txt, ◌===◌}
use webhook_idp.Common.Exec.{ok}
use webhook_idp.Common.State.{Exec, pure, ◌>>=◌}

-- What `lstatSync` finds at a path: a link, with what `readlinkSync` then returns, or something else.
pub data Stat : Type 0 where
  symbolic_link : Text → Stat
  other_node : Stat

-- `make_directory` is `mkdirSync` with `recursive`, and `make_link target path` is `symlinkSync`; what
-- they throw is a text.
pub record FileSystem : Type 1 where
  pub Files : Type 0
  pub path_join : Text → Text → Text
  pub dirname : Text → Text
  pub resolve : Text → Text → Text
  pub lstat : Text → Files → Option Stat
  pub exists : Text → Files → Bool
  pub is_directory : Text → Files → Bool
  pub make_directory : Text → Exec Files Text Unit
  pub make_link : Text → Text → Exec Files Text Unit
  -- What is there stays as it is.
  pub make_directory-keeps :
      (path at : Text) (files : Files) (stat : Stat)
      → lstat at files ≡ some stat
      → lstat at (make_directory path files).1 ≡ some stat
  pub make_link-keeps :
      (target path at : Text) (files : Files) (stat : Stat)
      → lstat at files ≡ some stat
      → lstat at (make_link target path files).1 ≡ some stat
  pub directory-keeps :
      (path at : Text) (files : Files)
      → is_directory at files ≡ true
      → is_directory at (make_directory path files).1 ≡ true
  pub link-keeps :
      (target path at : Text) (files : Files)
      → is_directory at files ≡ true
      → is_directory at (make_link target path files).1 ≡ true
  -- A directory is made if it is not there.
  pub makes :
      (path : Text) (files : Files)
      → (make_directory path files).0 ≡ ok tt
      → is_directory path (make_directory path files).1 ≡ true
  pub makes_again :
      (path : Text) (files : Files)
      → is_directory path files ≡ true
      → make_directory path files ≡ (ok tt, files)
  -- A link that is made reads as a path that resolves as its target does.
  pub links :
      (target path : Text) (files : Files)
      → (make_link target path files).0 ≡ ok tt
      → (read : Text) × (lstat path (make_link target path files).1 ≡ some (symbolic_link read))
        × (resolve (dirname path) read ≡ resolve (dirname path) target)

pub record Link : Type 0 where
  pub link : Text
  pub target : Text

-- The links of the script. Their type matters on Windows only.
abbrev pub claude_links : List Link
claude_links =
    record { link = txt "CLAUDE.md"; target = txt "AGENT.md" }
    ∷ record { link = txt ".claude/skills"; target = txt "../.agent/skills" }
    ∷ []

module _ (system : FileSystem) (root : Text) where
  abbrev pub link_path : Link → Text
  link_path l = system.path_join root l.link

  abbrev pub resolved_target : Link → Text
  resolved_target l = system.resolve (system.dirname (link_path l)) l.target

  -- From `existsSync` on; the result says whether the link was skipped.
  abbrev pub make_if : Bool → Link → Exec system.Files Text Bool
  make_if false l = pure true
  make_if true l = do _ ← system.make_link l.target (link_path l); pure false

  -- From `lstatSync` on.
  abbrev pub link_where : Link → Option Stat → Exec system.Files Text Bool
  link_where l (some (symbolic_link to)) =
      pure (not (system.resolve (system.dirname (link_path l)) to === resolved_target l))
  link_where l (some other_node) = pure true
  link_where l none = λ files. make_if (system.exists (resolved_target l) files) l files

  -- The body of the loop.
  unfoldable pub setup_link : Link → Exec system.Files Text Bool
  setup_link l = do
    _ ← system.make_directory (system.dirname (link_path l))
    λ files. link_where l (system.lstat (link_path l) files) files

  -- The loop, with `failed`: the script exits with 1 if the result is true, and with 0 if not.
  unfoldable pub setup_links : List Link → Bool → Exec system.Files Text Bool
  setup_links [] failed = pure failed
  setup_links (l ∷ others) failed = do
    skipped ← setup_link l
    setup_links others (failed || skipped)
