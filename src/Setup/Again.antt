-- ===== src/Setup/Again.antt =====
-- The setup script may be run again.
use webhook_idp.Common.{
  ◌≡◌, refl, sym, ap, ◌∙◌, subst, Bool, true, false, ◌||◌, Option, none, some, List, [], ◌∷◌, All,
  arith,
}
use webhook_idp.Common.Text.{Text, ◌===◌, ===_iff}
use webhook_idp.Common.Exec.{Result, ok, err}
use webhook_idp.Common.State.{Exec, pure, continue}
use webhook_idp.Setup.{
  Stat, symbolic_link, other_node, FileSystem, Link, link_path, resolved_target, make_if,
  link_where, setup_link, setup_links,
}

-- Code that returns has gone on from where its first part returned.
continue-ok :
    {S A : Type 0} (r : Result Text A) (f : A → Exec S Text Bool) (s : S) (b : Bool)
    → (continue r f s).0 ≡ ok b
    → (a : A) × (r ≡ ok a) × (continue r f s ≡ f a s)
continue-ok (ok a) f s b h = (a, refl, refl)
continue-ok (err e) f s b h = cc

module _ (system : FileSystem) (root : Text) where
  -- The link is there and resolves as its target does.
  pub record IsSetUp (files : system.Files) (l : Link) : Type 0 where
    pub read : Text
    pub there : system.lstat (link_path system root l) files ≡ some (symbolic_link read)
    pub resolves :
        system.resolve (system.dirname (link_path system root l)) read
        ≡ resolved_target system root l
    pub directory : system.is_directory (system.dirname (link_path system root l)) files ≡ true

  -- What no directory that is made and no link that is made undoes, the script does not undo.
  module _ (P : system.Files → Type 0)
      (directories : (path : Text) (files : system.Files)
        → P files
        → P (system.make_directory path files).1)
      (links : (target path : Text) (files : system.Files)
        → P files
        → P (system.make_link target path files).1) where
    continue-keeps :
        {A : Type 0} (r : Result Text A) (f : A → Exec system.Files Text Bool)
        (files : system.Files)
        → P files
        → ((a : A) → P (f a files).1)
        → P (continue r f files).1
    continue-keeps (ok a) f files h k = k a
    continue-keeps (err e) f files h k = h

    make_if-keeps :
        (there : Bool) (l : Link) (files : system.Files)
        → P files
        → P (make_if system root there l files).1
    make_if-keeps false l files h = h
    make_if-keeps true l files h =
        let made = links l.target (link_path system root l) files h in
        continue-keeps (system.make_link l.target (link_path system root l) files).0
          (λ _. pure false) _ made (λ _. made)

    link_where-keeps :
        (l : Link) (found : Option Stat) (files : system.Files)
        → P files
        → P (link_where system root l found files).1
    link_where-keeps l (some (symbolic_link to)) files h = h
    link_where-keeps l (some other_node) files h = h
    link_where-keeps l none files h = make_if-keeps (system.exists _ files) l files h

    setup_link-keeps :
        (l : Link) (files : system.Files) → P files → P (setup_link system root l files).1
    unfolding setup_link
    setup_link-keeps l files h =
        let made = directories (system.dirname (link_path system root l)) files h in
        continue-keeps (system.make_directory (system.dirname (link_path system root l)) files).0
          (λ _ f. link_where system root l (system.lstat (link_path system root l) f) f) _ made
          (λ _. link_where-keeps l _ _ made)

    setup_links-keeps :
        (links : List Link) (failed : Bool) (files : system.Files)
        → P files
        → P (setup_links system root links failed files).1
    unfolding setup_links
    setup_links-keeps [] failed files h = h
    setup_links-keeps (l ∷ others) failed files h =
        let first = setup_link-keeps l files h in
        continue-keeps (setup_link system root l files).0
          (λ skipped. setup_links system root others (failed || skipped)) _ first
          (λ skipped. setup_links-keeps others (failed || skipped) _ first)

  IsSetUp-kept :
      (l : Link) (files after : system.Files)
      → ((at : Text) (stat : Stat)
          → system.lstat at files ≡ some stat
          → system.lstat at after ≡ some stat)
      → ((at : Text) → system.is_directory at files ≡ true → system.is_directory at after ≡ true)
      → IsSetUp files l
      → IsSetUp after l
  IsSetUp-kept l files after nodes directories h = record {
    read = h.read;
    there = nodes _ _ h.there;
    resolves = h.resolves;
    directory = directories _ h.directory;
  }

  IsSetUp-setup_links :
      (m : Link) (links : List Link) (failed : Bool) (files : system.Files)
      → IsSetUp files m
      → IsSetUp (setup_links system root links failed files).1 m
  IsSetUp-setup_links m links failed files =
      setup_links-keeps (λ f. IsSetUp f m)
        (λ path f.
          IsSetUp-kept m f _ (λ at stat. system.make_directory-keeps path at f stat)
            (λ at. system.directory-keeps path at f))
        (λ target path f.
          IsSetUp-kept m f _ (λ at stat. system.make_link-keeps target path at f stat)
            (λ at. system.link-keeps target path at f))
        links failed files

  make_if-IsSetUp :
      (there : Bool) (l : Link) (files : system.Files)
      → system.is_directory (system.dirname (link_path system root l)) files ≡ true
      → (make_if system root there l files).0 ≡ ok false
      → IsSetUp (make_if system root there l files).1 l
  make_if-IsSetUp false l files dir h = cc
  make_if-IsSetUp true l files dir h =
      let linked = system.make_link l.target (link_path system root l) files in
      let (_, made, same) = continue-ok linked.0 (λ _. pure false) linked.1 false h in
      let (read, there, resolves) = system.links l.target (link_path system root l) files made in
      subst (λ o. IsSetUp o.1 l) (sym same)
        (record {
          read = read;
          there = there;
          resolves = resolves;
          directory = system.link-keeps l.target (link_path system root l) _ files dir;
        })

  link_where-IsSetUp :
      (l : Link) (found : Option Stat) (files : system.Files)
      → system.lstat (link_path system root l) files ≡ found
      → system.is_directory (system.dirname (link_path system root l)) files ≡ true
      → (link_where system root l found files).0 ≡ ok false
      → IsSetUp (link_where system root l found files).1 l
  link_where-IsSetUp l (some (symbolic_link to)) files same dir h =
      let equal : (system.resolve (system.dirname (link_path system root l)) to
            === resolved_target system root l)
          ≡ true =
        ground (arith, h) in
      record { read = to; there = same; resolves = (===_iff _ _).0 equal; directory = dir }
  link_where-IsSetUp l (some other_node) files same dir h = cc
  link_where-IsSetUp l none files same dir h = make_if-IsSetUp _ l files dir h

  setup_link-IsSetUp :
      (l : Link) (files : system.Files)
      → (setup_link system root l files).0 ≡ ok false
      → IsSetUp (setup_link system root l files).1 l
  unfolding setup_link
  setup_link-IsSetUp l files h =
      let dir = system.dirname (link_path system root l) in
      let files_then = (system.make_directory dir files).1 in
      let (_, made, same) =
        continue-ok (system.make_directory dir files).0
          (λ _ f. link_where system root l (system.lstat (link_path system root l) f) f) files_then
          false h in
      subst (λ o. IsSetUp o.1 l) (sym same)
        (link_where-IsSetUp l _ files_then refl (system.makes dir files made)
          (ap (λ o. o.0) (sym same) ∙ h))

  setup_link-again :
      (l : Link) (files : system.Files)
      → IsSetUp files l
      → setup_link system root l files ≡ (ok false, files)
  unfolding setup_link
  setup_link-again l files h =
      rw (system.makes_again _ files h.directory, h.there, (===_iff _ _).1 h.resolves) refl

  setup_links-ok :
      (links : List Link) (failed : Bool) (files : system.Files)
      → (setup_links system root links failed files).0 ≡ ok false
      → (failed ≡ false) × All (IsSetUp (setup_links system root links failed files).1) links
  unfolding setup_links
  setup_links-ok [] failed files h = (ground (arith, h), tt)
  setup_links-ok (l ∷ others) failed files h =
      let first = setup_link system root l files in
      let (skipped, returned, same) =
        continue-ok first.0 (λ skipped. setup_links system root others (failed || skipped)) first.1
          false h in
      let (none_failed, rest) =
        setup_links-ok others (failed || skipped) first.1 (ap (λ o. o.0) (sym same) ∙ h) in
      let not_skipped : skipped ≡ false = ground (arith, none_failed) in
      let set_up = setup_link-IsSetUp l files (returned ∙ ap ok not_skipped) in
      (
        ground (arith, none_failed),
        subst (λ o. All (IsSetUp o.1) (l ∷ others)) (sym same)
            (IsSetUp-setup_links l others (failed || skipped) first.1 set_up, rest),
      )

  setup_links-rerun :
      (links : List Link) (files : system.Files)
      → All (IsSetUp files) links
      → setup_links system root links false files ≡ (ok false, files)
  unfolding setup_links
  setup_links-rerun [] files h = refl
  setup_links-rerun (l ∷ others) files (here, h) =
      rw (setup_link-again l files here) (setup_links-rerun others files h)

  -- A run that ends with 0 has left each of its links in place, as a link that resolves as its target
  -- does, and another run after it ends with 0 and changes nothing.
  pub setup_links-again :
      (links : List Link) (files : system.Files)
      → (setup_links system root links false files).0 ≡ ok false
      → All (IsSetUp (setup_links system root links false files).1) links
        × (setup_links system root links false (setup_links system root links false files).1
            ≡ (ok false, (setup_links system root links false files).1))
  setup_links-again links files h =
      let (_, set_up) = setup_links-ok links false files h in
      (set_up, setup_links-rerun links (setup_links system root links false files).1 set_up)
