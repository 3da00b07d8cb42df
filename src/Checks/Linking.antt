-- ===== src/Checks/Linking.antt =====
-- The theorem on the setup script, at a concrete file system.
use webhook_idp.Common.{
  ◌≡◌, refl, ◌∙◌, subst, inl, inr, true, false, Option, none, some, [], ◌∷◌, ◌++◌, Bool-cases,
  Option-cases, All, arith,
}
use webhook_idp.Common.Text.{Text, txt, ◌===◌, ===_iff, ===_refl, starts_with}
use webhook_idp.Common.Exec.{Result, ok, err}
use webhook_idp.Common.Stores.{Store, get, set, get-set}
use webhook_idp.Setup.{
  Stat, symbolic_link, other_node, FileSystem, claude_links, setup_link, setup_links,
}
use webhook_idp.Setup.Again.{IsSetUp, setup_links-again}

abbrev Nodes : Type 0
Nodes = Store Stat

abbrev new_link : Text → Text → Nodes → Option Stat → Result Text Unit × Nodes
new_link target path nodes none = (ok tt, set path (symbolic_link target) nodes)
new_link target path nodes (some stat) = (err (txt "EEXIST"), nodes)

abbrev link_in : Text → Text → Nodes → Result Text Unit × Nodes
link_in target path nodes = new_link target path nodes (get path nodes)

link_in-keeps :
    (target path at : Text) (nodes : Nodes) (stat : Stat)
    → get at nodes ≡ some stat
    → get at (link_in target path nodes).1 ≡ some stat
link_in-keeps target path at nodes stat h = elim (Option-cases (get path nodes)) [
  | inr (old, there) ↦ rw there h
  | inl free ↦ elim (Bool-cases (path === at)) [
    | inl same ↦
        let none_there : get at nodes ≡ none =
          subst (λ k. get k nodes ≡ none) ((===_iff path at).0 same) free in
        absurd (ground (arith, none_there, h))
    | inr other ↦ rw free (get-set path (symbolic_link target) nodes at ∙ rw other h)
  ]
]

link_in-there :
    (target path : Text) (nodes : Nodes)
    → (link_in target path nodes).0 ≡ ok tt
    → get path (link_in target path nodes).1 ≡ some (symbolic_link target)
link_in-there target path nodes h = elim (Option-cases (get path nodes)) [
  | inr (old, there) ↦ absurd (ground (arith, there, h))
  | inl free ↦ rw free (get-set path (symbolic_link target) nodes path ∙ rw (===_refl path) refl)
]

-- The directories of the repository are there, and the files under /r/ exist.
abbrev system : FileSystem
system = record {
  Files = Nodes;
  path_join = λ base name. base ++ b'/' ∷ name;
  dirname = λ path. txt "/r";
  resolve = λ base path. base ++ b'/' ∷ path;
  lstat = get;
  exists = λ path nodes. starts_with path (txt "/r/");
  is_directory = λ path nodes. true;
  make_directory = λ path nodes. (ok tt, nodes);
  make_link = link_in;
  make_directory-keeps = λ path at nodes stat h. h;
  make_link-keeps = link_in-keeps;
  directory-keeps = λ path at nodes h. refl;
  link-keeps = λ target path at nodes h. refl;
  makes = λ path nodes h. refl;
  makes_again = λ path nodes h. refl;
  links = λ target path nodes h. (target, link_in-there target path nodes h, refl);
}

-- One link is there already, and one is made.
abbrev before : Nodes
before = (txt "/r/CLAUDE.md", symbolic_link (txt "AGENT.md")) ∷ []

abbrev after : Nodes
after =
    (txt "/r/CLAUDE.md", symbolic_link (txt "AGENT.md"))
    ∷ (txt "/r/.claude/skills", symbolic_link (txt "../.agent/skills"))
    ∷ []

setup_links-again_example :
    All (IsSetUp system (txt "/r") after) claude_links
    × (setup_links system (txt "/r") claude_links false after ≡ (ok false, after))
unfolding setup_links setup_link starts_with get set txt ◌===◌
setup_links-again_example = setup_links-again system (txt "/r") claude_links before refl

-- A file in the place of a link is not touched, and the run ends with a failure.
in_the_way_test :
    setup_links system (txt "/r") claude_links false ((txt "/r/CLAUDE.md", other_node) ∷ []) ≡ (
      ok true,
      (txt "/r/CLAUDE.md", other_node)
          ∷ (txt "/r/.claude/skills", symbolic_link (txt "../.agent/skills"))
          ∷ [],
    )
unfolding setup_links setup_link starts_with get set txt ◌===◌
in_the_way_test = refl
