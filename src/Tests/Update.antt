-- ===== src/Tests/Update.antt =====
-- update.rs: versions, redirects, and an update on a machine that has one file of each name.
use Prim.Native.Nat.{Ordering}
use mathlib.Core.Option
use bolide.Base.{
  ℕ, ◌==◌, ==_iff, ◌&&◌, Bool, true, false, length, length-append, ap, sym, ◌∙◌, ◌≢◌, arith, Option,
  some, none, List, [], ◌∷◌, ◌++◌, ok, ◌≡◌, refl, if◌then◌else◌,
}
use bolide.Base.Text.{Text, codes}
use bolide.Update.{
  compare_versions, split_version, cut, core_of, parse_u64, digits_from, then_with, core_cmp,
  pre_cmp, compare_prerelease, compare_parts, compare_part, order_parsed, text_cmp,
}
use bolide.Update.Versions.{reverse, compare_versions_flips}
use bolide.Update.Release.{
  version_from_release_url, version_from_tag, whole_tag, has, after_last, strip_prefix,
  without_slash, until_query,
}
use bolide.Update.Install.{FilePath, Machine, staged_path, update}
use bolide.Update.Swap.Kept.{Files}
use bolide.Update.Swap.{Ended, update-Ended}

a_prerelease_is_older :
    compare_versions (codes "1.2.0-rc.2") (codes "1.2.0-rc.10+b") ≡ some Ordering.lt
unfolding compare_versions split_version cut core_of parse_u64 digits_from then_with core_cmp
    pre_cmp compare_prerelease compare_parts compare_part order_parsed text_cmp
a_prerelease_is_older = refl

compare_versions_flips_example :
    compare_versions (codes "1.0") (codes "0.9.1")
    ≡ Option.map reverse (compare_versions (codes "0.9.1") (codes "1.0"))
compare_versions_flips_example = compare_versions_flips (codes "0.9.1") (codes "1.0")

a_redirect :
    version_from_release_url
      (codes " https://github.com/jakequist/bolide/releases/tag/v0.3.1/?x=1 ")
    ≡ ok (codes "0.3.1")
unfolding version_from_release_url version_from_tag whole_tag has after_last strip_prefix
    without_slash until_query
a_redirect = refl

-- A file system is what stands at each path.
abbrev Disk : Type 0
Disk = FilePath → Option (List ℕ)

abbrev same_text : Text → Text → Bool
same_text [] [] = true
same_text [] (d ∷ t) = false
same_text (c ∷ s) [] = false
same_text (c ∷ s) (d ∷ t) = (c == d) && same_text s t

abbrev same_path : FilePath → FilePath → Bool
same_path [] [] = true
same_path [] (d ∷ t) = false
same_path (c ∷ s) [] = false
same_path (c ∷ s) (d ∷ t) = same_text c d && same_path s t

same_text_refl : (s : Text) → same_text s s ≡ true
same_text_refl [] = refl
same_text_refl (c ∷ s) = rw ((==_iff c c).1 refl) (same_text_refl s)

same_path_refl : (p : FilePath) → same_path p p ≡ true
same_path_refl [] = refl
same_path_refl (t ∷ p) = rw (same_text_refl t) (same_path_refl p)

abbrev put : FilePath → Option (List ℕ) → Disk → Disk
put to c w = λ p. if same_path p to then c else w p

put_same : (to : FilePath) (c : Option (List ℕ)) (w : Disk) → put to c w to ≡ c
put_same to c w = rw (same_path_refl to) refl

abbrev in_place : FilePath
in_place = codes "bolide" ∷ []

abbrev scratch : FilePath
scratch = codes "scratch" ∷ []

abbrev old_binary : Disk
old_binary = put in_place (some (1 ∷ [])) (λ p. none)

-- The network has a newer release, and every call succeeds.
abbrev machine : Machine
machine = record {
  World = Disk;
  resolve = λ w. (w, ok (codes "https://github.com/jakequist/bolide/releases/tag/v9.9.9"));
  download = λ url to w. (w, ok tt);
  new_dir = λ w. (w, some scratch);
  remove_dir = λ dir w. w;
  untar = λ tarball dir w.
      (put in_place (w in_place) (put (codes "bolide" ∷ dir) (some (2 ∷ [])) w), true);
  is_file = λ p w. true;
  copy = λ from to w. (put to (w from) w, true);
  make_executable = λ p w. (w, true);
  rename = λ from to w. (put to (w from) w, true);
  remove_file = λ p w. put p none w;
}

scratch_apart : (names : List Text) → in_place ≢ names ++ scratch
scratch_apart [] e = absurd (let no : true ≡ false = ap (same_path in_place) e in cc)
scratch_apart (n ∷ names) e = absurd (omega (arith, ap length e, length-append names scratch))

abbrev found : Option FilePath → FilePath
found none = []
found (some dir) = dir

put_back :
    (from to : FilePath) (w w' : Disk)
    → ◌≡◌ {A = Disk × Bool} (put to (w from) w, true) (w', true)
    → w' to ≡ w from
put_back from to w w' e = ap (λ q. q.0 to) (sym e) ∙ put_same to (w from) w

disk : Files machine in_place
unfolding staged_path
disk = record {
  contents = λ p w. w p;
  resolve_keeps = λ w. refl;
  new_dir_keeps = λ w. refl;
  new_dir_apart = λ w w' dir e names h.
      scratch_apart names (h ∙ ap (λ d. names ++ d) (sym (ap (λ q. found (q.1)) e)));
  download_keeps = λ url name dir w h. refl;
  untar_keeps = λ tarball dir w h. refl;
  remove_dir_keeps = λ dir w h. refl;
  copy_keeps = λ from w. refl;
  copy_lem = λ from to w w' h e. put_back from to w w' e;
  mode_keeps = λ p q w. refl;
  remove_keeps = λ w. refl;
  rename_lem = λ from to w w' e. put_back from to w w' e;
  rename_fails = λ from to p w w' e. absurd (cc);
}

update-Ended_example :
    Ended machine in_place disk
      (codes "0.1.0")
      (some (codes "x86_64-apple-darwin"))
      (disk.contents in_place old_binary)
      (update machine in_place (codes "0.1.0") (some (codes "x86_64-apple-darwin")) old_binary)
update-Ended_example =
    update-Ended machine in_place disk (codes "0.1.0") (some (codes "x86_64-apple-darwin"))
      old_binary
