-- ===== src/Update/Install.antt =====
-- update.rs: `update`. curl, tar and the file system are parameters. A path is the list of its names, the
-- last one first.
use Prim.Native.Nat.{Ordering}
use bolide.Base.{
  Bool, true, false, Option, none, some, List, [], ◌∷◌, ◌++◌, Result, ok, err, panic, stuck,
  if◌then◌else◌,
}
use bolide.Base.Text.{Text, codes}
use bolide.Keysym.{text_eq}
use bolide.Update.{compare_versions}
use bolide.Update.Release.{
  Trouble, source_build, unresolved, no_prebuilt, no_scratch, not_downloaded, not_unpacked,
  no_binary, not_replaced, version_from_release_url, asset_name, asset_url,
}

abbrev pub FilePath : Type 0
FilePath = List Text

-- The nearest of a path and the directories above it that is named `target`; its parent.
unfoldable pub target_above : FilePath → Option FilePath
target_above [] = none
target_above (name ∷ dir) = if text_eq name (codes "target") then some dir else target_above dir

unfoldable pub is_source_build : FilePath → Option FilePath
is_source_build [] = none
is_source_build (name ∷ dir) = target_above dir

unfoldable pub staged_path : FilePath → FilePath
staged_path [] = codes ".new" ∷ []
staged_path (name ∷ dir) = (name ++ codes ".new") ∷ dir

-- curl, tar and the file system; a `Bool` says whether a call succeeded.
pub record Machine : Type 1 where
  pub World : Type 0
  pub resolve : World → World × Result Text Text
  pub download : Text → FilePath → World → World × Result Text (Unit {0})
  pub new_dir : World → World × Option FilePath
  pub remove_dir : FilePath → World → World
  pub untar : FilePath → FilePath → World → World × Bool
  pub is_file : FilePath → World → Bool
  pub copy : FilePath → FilePath → World → World × Bool
  pub make_executable : FilePath → World → World × Bool
  pub rename : FilePath → FilePath → World → World × Bool
  pub remove_file : FilePath → World → World

pub data Outcome : Type 0 where
  up_to_date : Text → Text → Outcome
  updated : Text → Text → Outcome

unfoldable pub is_older : Option Ordering → Bool
is_older (some Ordering.lt) = true
is_older other = false

module _ (m : Machine) (exe : FilePath) where
  abbrev pub Call : Type 0 → Type 0
  Call A = m.World × Result Trouble A

  unfoldable pub cannot : m.World → Call (Unit {0})
  cannot w = (m.remove_file (staged_path exe) w, err (not_replaced exe))

  unfoldable pub renamed : m.World × Bool → Call (Unit {0})
  renamed (w, true) = (w, ok tt)
  renamed (w, false) = cannot w

  unfoldable pub made : m.World × Bool → Call (Unit {0})
  made (w, true) = renamed (m.rename (staged_path exe) exe w)
  made (w, false) = cannot w

  unfoldable pub copied : m.World × Bool → Call (Unit {0})
  copied (w, true) = made (m.make_executable (staged_path exe) w)
  copied (w, false) = cannot w

  unfoldable pub swap_in : FilePath → m.World → Call (Unit {0})
  swap_in new w = copied (m.copy new (staged_path exe) w)

  unfoldable pub swapped : Text → Text → Call (Unit {0}) → Call Outcome
  swapped current latest (w, ok u) = (w, ok (updated current latest))
  swapped current latest (w, err e) = (w, err e)
  swapped current latest (w, panic) = (w, panic)
  swapped current latest (w, stuck) = (w, stuck)

  unfoldable pub unpacked : Text → Text → FilePath → m.World × Bool → Call Outcome
  unpacked current latest dir (w, false) = (w, err not_unpacked)
  unpacked current latest dir (w, true) =
      if m.is_file (codes "bolide" ∷ dir) w
      then swapped current latest (swap_in (codes "bolide" ∷ dir) w)
      else (w, err (no_binary latest))

  unfoldable pub downloaded :
      (current latest target : Text) → FilePath → m.World × Result Text (Unit {0}) → Call Outcome
  downloaded current latest target dir (w, ok u) =
      unpacked current latest dir (m.untar (asset_name latest target ∷ dir) dir w)
  downloaded current latest target dir (w, err detail) =
      (w, err (not_downloaded (asset_url latest target) detail))
  downloaded current latest target dir (w, panic) = (w, panic)
  downloaded current latest target dir (w, stuck) = (w, stuck)

  -- The directory goes when the call ends, however it ends.
  unfoldable pub in_dir : (current latest target : Text) → m.World × Option FilePath → Call Outcome
  in_dir current latest target (w, none) = (w, err no_scratch)
  in_dir current latest target (w, some dir) =
      let (w', r) =
        downloaded current latest target dir
          (m.download (asset_url latest target) (asset_name latest target ∷ dir) w) in
      (m.remove_dir dir w', r)

  unfoldable pub install : (current latest : Text) → Option Text → m.World → Call Outcome
  install current latest none w = (w, err (no_prebuilt latest))
  install current latest (some target) w = in_dir current latest target (m.new_dir w)

  unfoldable pub against : Text → Option Text → m.World → Result Trouble Text → Call Outcome
  against current target w (ok latest) =
      if is_older (compare_versions current latest)
      then install current latest target w
      else (w, ok (up_to_date current latest))
  against current target w (err e) = (w, err e)
  against current target w panic = (w, panic)
  against current target w stuck = (w, stuck)

  unfoldable pub resolved : Text → Option Text → m.World × Result Text Text → Call Outcome
  resolved current target (w, ok url) = against current target w (version_from_release_url url)
  resolved current target (w, err detail) = (w, err (unresolved detail))
  resolved current target (w, panic) = (w, panic)
  resolved current target (w, stuck) = (w, stuck)

  unfoldable pub unless_built : Text → Option Text → m.World → Option FilePath → Call Outcome
  unless_built current target w (some checkout) = (w, err (source_build checkout))
  unless_built current target w none = resolved current target (m.resolve w)

  unfoldable pub update : Text → Option Text → m.World → Call Outcome
  update current target w = unless_built current target w (is_source_build exe)
