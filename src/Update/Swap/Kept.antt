-- ===== src/Update/Swap/Kept.antt =====
-- update.rs, `swap_in`: the binary is replaced whole, or left as it was.
use bolide.Base.{
  ℕ, Bool, true, false, Option, some, List, [], ◌∷◌, ◌++◌, ok, err, panic, stuck, ◌≡◌, ◌≢◌, refl,
  sym, ap, ◌∙◌,
}
use bolide.Base.Text.{Text}
use bolide.Update.Install.{
  FilePath, Machine, staged_path, Call, cannot, renamed, made, copied, swap_in,
}

-- The directory does not hold the binary, at any depth.
abbrev pub Apart : FilePath → FilePath → Type 0
Apart exe dir = (names : List Text) → exe ≢ names ++ dir

-- What a file system keeps: `contents` of a path is changed by the calls that write there.
pub record Files (m : Machine) (exe : FilePath) : Type 1 where
  pub contents : FilePath → m.World → Option (List ℕ)
  pub resolve_keeps : (w : m.World) → contents exe ((m.resolve w).0) ≡ contents exe w
  -- A scratch directory is a new one, and what is done in a directory stays there.
  pub new_dir_keeps : (w : m.World) → contents exe ((m.new_dir w).0) ≡ contents exe w
  pub new_dir_apart :
      (w w' : m.World) (dir : FilePath) → m.new_dir w ≡ (w', some dir) → Apart exe dir
  pub download_keeps :
      (url name : Text) (dir : FilePath) (w : m.World)
      → Apart exe dir
      → contents exe ((m.download url (name ∷ dir) w).0) ≡ contents exe w
  pub untar_keeps :
      (tarball dir : FilePath) (w : m.World)
      → Apart exe dir
      → contents exe ((m.untar tarball dir w).0) ≡ contents exe w
  pub remove_dir_keeps :
      (dir : FilePath) (w : m.World)
      → Apart exe dir
      → contents exe (m.remove_dir dir w) ≡ contents exe w
  -- A copy, a mode and a removal concern their path alone.
  pub copy_keeps :
      (from : FilePath) (w : m.World)
      → contents exe ((m.copy from (staged_path exe) w).0) ≡ contents exe w
  pub copy_lem :
      (from to : FilePath) (w w' : m.World)
      → from ≢ to
      → m.copy from to w ≡ (w', true)
      → contents to w' ≡ contents from w
  pub mode_keeps :
      (p q : FilePath) (w : m.World) → contents p ((m.make_executable q w).0) ≡ contents p w
  pub remove_keeps :
      (w : m.World) → contents exe (m.remove_file (staged_path exe) w) ≡ contents exe w
  -- A rename that fails changes nothing, and one that succeeds puts what was at `from` at `to`.
  pub rename_lem :
      (from to : FilePath) (w w' : m.World)
      → m.rename from to w ≡ (w', true)
      → contents to w' ≡ contents from w
  pub rename_fails :
      (from to p : FilePath) (w w' : m.World)
      → m.rename from to w ≡ (w', false)
      → contents p w' ≡ contents p w

abbrev parent : FilePath → FilePath
parent [] = []
parent (name ∷ dir) = dir

-- What is in a directory without the binary is not the staged path.
pub Apart-staged : (exe dir : FilePath) (name : Text) → Apart exe dir → name ∷ dir ≢ staged_path exe
unfolding staged_path
Apart-staged [] dir name apart e = apart [] (sym (ap parent e))
Apart-staged (n ∷ d) dir name apart e = apart (n ∷ []) (ap (◌∷◌ n) (sym (ap parent e)))

module _ (m : Machine) (exe : FilePath) (files : Files m exe) where
  abbrev pub binary : m.World → Option (List ℕ)
  binary w = files.contents exe w

  -- A swap puts the new binary in place, or fails and leaves the old one.
  abbrev pub Swapped : FilePath → m.World → Call m exe (Unit {0}) → Type 0
  Swapped new w (w', ok u) = binary w' ≡ files.contents new w
  Swapped new w (w', err e) = binary w' ≡ binary w
  Swapped new w (w', panic) = ⊥
  Swapped new w (w', stuck) = ⊥

  cannot-Swapped :
      (new : FilePath) (w w' : m.World) → binary w' ≡ binary w → Swapped new w (cannot m exe w')
  unfolding cannot
  cannot-Swapped new w w' h = files.remove_keeps w' ∙ h

  renamed-Swapped :
      (new : FilePath) (w w₁ : m.World) (p : m.World × Bool)
      → m.rename (staged_path exe) exe w₁ ≡ p
      → files.contents (staged_path exe) w₁ ≡ files.contents new w
      → binary w₁ ≡ binary w
      → Swapped new w (renamed m exe p)
  unfolding renamed
  renamed-Swapped new w w₁ (w', true) e staged h =
      files.rename_lem (staged_path exe) exe w₁ w' e ∙ staged
  renamed-Swapped new w w₁ (w', false) e staged h =
      cannot-Swapped new w w' (files.rename_fails (staged_path exe) exe exe w₁ w' e ∙ h)

  made-Swapped :
      (new : FilePath) (w w₁ : m.World) (p : m.World × Bool)
      → m.make_executable (staged_path exe) w₁ ≡ p
      → files.contents (staged_path exe) w₁ ≡ files.contents new w
      → binary w₁ ≡ binary w
      → Swapped new w (made m exe p)
  unfolding made
  made-Swapped new w w₁ (w', true) e staged h =
      renamed-Swapped new w w' (m.rename (staged_path exe) exe w') refl
        (ap (λ q. files.contents (staged_path exe) (q.0)) (sym e)
          ∙ files.mode_keeps (staged_path exe) (staged_path exe) w₁
          ∙ staged)
        (ap (λ q. binary (q.0)) (sym e) ∙ files.mode_keeps exe (staged_path exe) w₁ ∙ h)
  made-Swapped new w w₁ (w', false) e staged h =
      cannot-Swapped new w w'
        (ap (λ q. binary (q.0)) (sym e) ∙ files.mode_keeps exe (staged_path exe) w₁ ∙ h)

  copied-Swapped :
      (new : FilePath) (w : m.World) (p : m.World × Bool)
      → new ≢ staged_path exe
      → m.copy new (staged_path exe) w ≡ p
      → Swapped new w (copied m exe p)
  unfolding copied
  copied-Swapped new w (w', true) other e =
      made-Swapped new w w' (m.make_executable (staged_path exe) w') refl
        (files.copy_lem new (staged_path exe) w w' other e)
        (ap (λ q. binary (q.0)) (sym e) ∙ files.copy_keeps new w)
  copied-Swapped new w (w', false) other e =
      cannot-Swapped new w w' (ap (λ q. binary (q.0)) (sym e) ∙ files.copy_keeps new w)

  pub swap_in-Swapped :
      (new : FilePath) (w : m.World) → new ≢ staged_path exe → Swapped new w (swap_in m exe new w)
  unfolding swap_in
  swap_in-Swapped new w other = copied-Swapped new w (m.copy new (staged_path exe) w) other refl
