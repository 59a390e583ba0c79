-- ===== src/Update/Swap.antt =====
-- update.rs: when the binary that runs is replaced, and by what.
pub mod Kept
use Prim.Native.Nat.{Ordering}
use bolide.Base.{
  ℕ, Bool, true, false, Bool-cases, Option, none, some, List, [], ◌∷◌, ◌++◌, Result, ok, err, panic,
  stuck, ◌≡◌, ◌≢◌, refl, sym, ap, ◌∙◌, inl, inr,
}
use bolide.Base.Text.{Text, codes}
use bolide.Update.{compare_versions}
use bolide.Update.Release.{Trouble, version_from_release_url, asset_name, asset_url}
use bolide.Update.Install.{
  FilePath, Machine, Outcome, updated, up_to_date, is_older, staged_path, is_source_build, Call,
  cannot, renamed, made, copied, swap_in, swapped, unpacked, downloaded, in_dir, install, against,
  resolved, unless_built, update,
}
use bolide.Update.Swap.Kept.{Apart, Files, Apart-staged, binary, Swapped, swap_in-Swapped}

module _ (m : Machine) (exe : FilePath) (files : Files m exe) where
  -- How the binary came to be that of release `to`.
  pub record Installed (current to : Text) (target : Option Text) (w' : m.World) : Type 0 where
    pub older : compare_versions current to ≡ some Ordering.lt
    pub triple : Text
    pub asked : target ≡ some triple
    pub dir : FilePath
    pub start : m.World
    pub fetched : m.World
    pub opened : m.World
    pub download_ok :
        m.download (asset_url to triple) (asset_name to triple ∷ dir) start ≡ (fetched, ok tt)
    pub untar_ok : m.untar (asset_name to triple ∷ dir) dir fetched ≡ (opened, true)
    pub present : m.is_file (codes "bolide" ∷ dir) opened ≡ true
    pub in_place : binary m exe files w' ≡ files.contents (codes "bolide" ∷ dir) opened

  -- The binary `b` is there still, or that of a newer release is.
  abbrev pub Ended : (current : Text) → Option Text → Option (List ℕ) → Call m exe Outcome → Type 0
  Ended current target b (w', ok (updated from to)) =
      (from ≡ current) × Installed current to target w'
  Ended current target b (w', ok (up_to_date from to)) = binary m exe files w' ≡ b
  Ended current target b (w', err e) = binary m exe files w' ≡ b
  Ended current target b (w', panic) = binary m exe files w' ≡ b
  Ended current target b (w', stuck) = binary m exe files w' ≡ b

  module _ (current : Text) (target : Option Text) (b : Option (List ℕ)) where
    swapped-Ended :
        (latest : Text) (new : FilePath) (w : m.World) (c : Call m exe (Unit {0}))
        → Swapped m exe files new w c
        → binary m exe files w ≡ b
        → ((w' : m.World)
            → binary m exe files w' ≡ files.contents new w
            → Installed current latest target w')
        → Ended current target b (swapped m exe current latest c)
    unfolding swapped
    swapped-Ended latest new w (w', ok u) s h k = (refl, k w' s)
    swapped-Ended latest new w (w', err e) s h k = s ∙ h
    swapped-Ended latest new w (w', panic) s h k = absurd s
    swapped-Ended latest new w (w', stuck) s h k = absurd s

    remove_dir-Ended :
        (dir : FilePath) (c : Call m exe Outcome)
        → Apart exe dir
        → Ended current target b c
        → Ended current target b (m.remove_dir dir (c.0), c.1)
    remove_dir-Ended dir (w, ok (updated from to)) apart (e, i) = (
      e,
      record {
        older = i.older;
        triple = i.triple;
        asked = i.asked;
        dir = i.dir;
        start = i.start;
        fetched = i.fetched;
        opened = i.opened;
        download_ok = i.download_ok;
        untar_ok = i.untar_ok;
        present = i.present;
        in_place = files.remove_dir_keeps dir w apart ∙ i.in_place;
      },
    )
    remove_dir-Ended dir (w, ok (up_to_date from to)) apart h =
        files.remove_dir_keeps dir w apart ∙ h
    remove_dir-Ended dir (w, err e) apart h = files.remove_dir_keeps dir w apart ∙ h
    remove_dir-Ended dir (w, panic) apart h = files.remove_dir_keeps dir w apart ∙ h
    remove_dir-Ended dir (w, stuck) apart h = files.remove_dir_keeps dir w apart ∙ h

    module _ (latest triple : Text) (older : compare_versions current latest ≡ some Ordering.lt)
        (asked : target ≡ some triple) where
      unpacked-Ended :
          (dir : FilePath) (w₁ w₂ : m.World) (p : m.World × Bool)
          → Apart exe dir
          → m.download (asset_url latest triple) (asset_name latest triple ∷ dir) w₁ ≡ (w₂, ok tt)
          → m.untar (asset_name latest triple ∷ dir) dir w₂ ≡ p
          → binary m exe files w₂ ≡ b
          → Ended current target b (unpacked m exe current latest dir p)
      unfolding unpacked
      unpacked-Ended dir w₁ w₂ (w₃, false) apart e e' h =
          ap (λ q. binary m exe files (q.0)) (sym e')
          ∙ files.untar_keeps (asset_name latest triple ∷ dir) dir w₂ apart
          ∙ h
      unpacked-Ended dir w₁ w₂ (w₃, true) apart e e' h =
          let kept =
            ap (λ q. binary m exe files (q.0)) (sym e')
            ∙ files.untar_keeps (asset_name latest triple ∷ dir) dir w₂ apart
            ∙ h in
          elim (Bool-cases (m.is_file (codes "bolide" ∷ dir) w₃)) [
            | inl there ↦ rw there (
                swapped-Ended latest (codes "bolide" ∷ dir) w₃
                  (swap_in m exe (codes "bolide" ∷ dir) w₃)
                  (swap_in-Swapped m exe files (codes "bolide" ∷ dir) w₃
                    (Apart-staged exe dir (codes "bolide") apart))
                  kept
                  (λ w' at. record {
                    older = older;
                    triple = triple;
                    asked = asked;
                    dir = dir;
                    start = w₁;
                    fetched = w₂;
                    opened = w₃;
                    download_ok = e;
                    untar_ok = e';
                    present = there;
                    in_place = at;
                  }))
            | inr missing ↦ rw missing kept
          ]

      downloaded-Ended :
          (dir : FilePath) (w : m.World) (p : m.World × Result Text (Unit {0}))
          → Apart exe dir
          → m.download (asset_url latest triple) (asset_name latest triple ∷ dir) w ≡ p
          → binary m exe files w ≡ b
          → Ended current target b (downloaded m exe current latest triple dir p)
      unfolding downloaded
      downloaded-Ended dir w (w₂, r) apart e h = by_result r e
        where
          kept :
              {r : Result Text (Unit {0})}
              → m.download (asset_url latest triple) (asset_name latest triple ∷ dir) w ≡ (w₂, r)
              → binary m exe files w₂ ≡ b
          kept e =
              ap (λ q. binary m exe files (q.0)) (sym e) ∙ files.download_keeps _ _ dir w apart ∙ h

          by_result :
              (r : Result Text (Unit {0}))
              → m.download (asset_url latest triple) (asset_name latest triple ∷ dir) w ≡ (w₂, r)
              → Ended current target b (downloaded m exe current latest triple dir (w₂, r))
          by_result (ok tt) e =
              unpacked-Ended dir w w₂ (m.untar (asset_name latest triple ∷ dir) dir w₂) apart e refl
                (kept e)
          by_result (err x) e = kept e
          by_result panic e = kept e
          by_result stuck e = kept e

      in_dir-Ended :
          (w : m.World) (p : m.World × Option FilePath)
          → m.new_dir w ≡ p
          → binary m exe files w ≡ b
          → Ended current target b (in_dir m exe current latest triple p)
      unfolding in_dir
      in_dir-Ended w (w', none) e h =
          ap (λ q. binary m exe files (q.0)) (sym e) ∙ files.new_dir_keeps w ∙ h
      in_dir-Ended w (w', some dir) e h =
          let apart = files.new_dir_apart w w' dir e in
          remove_dir-Ended dir _ apart (
            downloaded-Ended dir w'
              (m.download (asset_url latest triple) (asset_name latest triple ∷ dir) w') apart refl
              (ap (λ q. binary m exe files (q.0)) (sym e) ∙ files.new_dir_keeps w ∙ h))

    older_compared : (o : Option Ordering) → is_older o ≡ true → o ≡ some Ordering.lt
    unfolding is_older
    older_compared none h = absurd (cc)
    older_compared (some Ordering.lt) h = refl
    older_compared (some Ordering.eq) h = absurd (cc)
    older_compared (some Ordering.gt) h = absurd (cc)

    install-Ended :
        (latest : Text) (t : Option Text) (w : m.World)
        → compare_versions current latest ≡ some Ordering.lt
        → target ≡ t
        → binary m exe files w ≡ b
        → Ended current target b (install m exe current latest t w)
    unfolding install
    install-Ended latest none w older asked h = h
    install-Ended latest (some triple) w older asked h =
        in_dir-Ended latest triple older asked w (m.new_dir w) refl h

    against-Ended :
        (w : m.World) (r : Result Trouble Text)
        → binary m exe files w ≡ b
        → Ended current target b (against m exe current target w r)
    unfolding against
    against-Ended w (ok latest) h = elim (Bool-cases (is_older (compare_versions current latest))) [
      | inl e ↦ rw e (
          install-Ended latest target w (older_compared (compare_versions current latest) e) refl h)
      | inr e ↦ rw e h
    ]
    against-Ended w (err e) h = h
    against-Ended w panic h = h
    against-Ended w stuck h = h

    resolved-Ended :
        (p : m.World × Result Text Text)
        → binary m exe files (p.0) ≡ b
        → Ended current target b (resolved m exe current target p)
    unfolding resolved
    resolved-Ended (w, ok url) h = against-Ended w (version_from_release_url url) h
    resolved-Ended (w, err e) h = h
    resolved-Ended (w, panic) h = h
    resolved-Ended (w, stuck) h = h

  unless_built-Ended :
      (current : Text) (target : Option Text) (w : m.World) (o : Option FilePath)
      → Ended current target (binary m exe files w) (unless_built m exe current target w o)
  unfolding unless_built
  unless_built-Ended current target w (some dir) = refl
  unless_built-Ended current target w none =
      resolved-Ended current target (binary m exe files w) (m.resolve w) (files.resolve_keeps w)

  -- `update` leaves the binary that runs as it was, whatever fails, or reports an update, and then the
  -- binary is that of a newer release, as it was unpacked from the archive that was fetched for the
  -- platform. The files behave as `Files` says.
  pub update-Ended :
      (current : Text) (target : Option Text) (w : m.World)
      → Ended current target (files.contents exe w) (update m exe current target w)
  unfolding update
  update-Ended current target w = unless_built-Ended current target w (is_source_build exe)
