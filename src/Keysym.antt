-- ===== src/Keysym.antt =====
-- crates/bolide-rfb/src/keysym.rs: the two tables, the names of keys and chords. A `&str` is its
-- code points.
pub mod Tables
pub mod Names
pub mod Chords
use bolide.Base.{
  ℕ, ◌+◌, ltb, leb, ◌==◌, ◌&&◌, Bool, true, false, Option, some, none, List, [], ◌∷◌, ◌++◌,
  if◌then◌else◌, Result, ok, err, panic, map, ◌>>=◌,
}
use bolide.Base.Text.{Text, codes}

abbrev pub canonical : List (Text × ℕ)
canonical =
    (codes "BackSpace", 0xff08)
    ∷ (codes "Tab", 0xff09)
    ∷ (codes "Return", 0xff0d)
    ∷ (codes "Pause", 0xff13)
    ∷ (codes "Scroll_Lock", 0xff14)
    ∷ (codes "Escape", 0xff1b)
    ∷ (codes "Home", 0xff50)
    ∷ (codes "Left", 0xff51)
    ∷ (codes "Up", 0xff52)
    ∷ (codes "Right", 0xff53)
    ∷ (codes "Down", 0xff54)
    ∷ (codes "Page_Up", 0xff55)
    ∷ (codes "Page_Down", 0xff56)
    ∷ (codes "End", 0xff57)
    ∷ (codes "Print", 0xff61)
    ∷ (codes "Insert", 0xff63)
    ∷ (codes "Menu", 0xff67)
    ∷ (codes "Num_Lock", 0xff7f)
    ∷ (codes "F1", 0xffbe)
    ∷ (codes "F2", 0xffbf)
    ∷ (codes "F3", 0xffc0)
    ∷ (codes "F4", 0xffc1)
    ∷ (codes "F5", 0xffc2)
    ∷ (codes "F6", 0xffc3)
    ∷ (codes "F7", 0xffc4)
    ∷ (codes "F8", 0xffc5)
    ∷ (codes "F9", 0xffc6)
    ∷ (codes "F10", 0xffc7)
    ∷ (codes "F11", 0xffc8)
    ∷ (codes "F12", 0xffc9)
    ∷ (codes "Shift_L", 0xffe1)
    ∷ (codes "Shift_R", 0xffe2)
    ∷ (codes "Control_L", 0xffe3)
    ∷ (codes "Control_R", 0xffe4)
    ∷ (codes "Caps_Lock", 0xffe5)
    ∷ (codes "Meta_L", 0xffe7)
    ∷ (codes "Meta_R", 0xffe8)
    ∷ (codes "Alt_L", 0xffe9)
    ∷ (codes "Alt_R", 0xffea)
    ∷ (codes "Super_L", 0xffeb)
    ∷ (codes "Super_R", 0xffec)
    ∷ (codes "Delete", 0xffff)
    ∷ (codes "space", 0x20)
    ∷ (codes "plus", 0x2b)
    ∷ (codes "minus", 0x2d)
    ∷ []

abbrev pub aliases : List (Text × Text)
aliases =
    (codes "enter", codes "Return")
    ∷ (codes "ret", codes "Return")
    ∷ (codes "esc", codes "Escape")
    ∷ (codes "del", codes "Delete")
    ∷ (codes "ins", codes "Insert")
    ∷ (codes "arrowleft", codes "Left")
    ∷ (codes "arrowright", codes "Right")
    ∷ (codes "arrowup", codes "Up")
    ∷ (codes "arrowdown", codes "Down")
    ∷ (codes "pageup", codes "Page_Up")
    ∷ (codes "pagedown", codes "Page_Down")
    ∷ (codes "pgup", codes "Page_Up")
    ∷ (codes "pgdn", codes "Page_Down")
    ∷ (codes "pgdown", codes "Page_Down")
    ∷ (codes "ctrl", codes "Control_L")
    ∷ (codes "control", codes "Control_L")
    ∷ (codes "alt", codes "Alt_L")
    ∷ (codes "option", codes "Alt_L")
    ∷ (codes "opt", codes "Alt_L")
    ∷ (codes "cmd", codes "Super_L")
    ∷ (codes "command", codes "Super_L")
    ∷ ((0x2318 ∷ []), codes "Super_L")
    ∷ ((0x2325 ∷ []), codes "Alt_L")
    ∷ ((0x21e7 ∷ []), codes "Shift_L")
    ∷ ((0x2303 ∷ []), codes "Control_L")
    ∷ (codes "meta", codes "Meta_L")
    ∷ (codes "win", codes "Super_L")
    ∷ (codes "windows", codes "Super_L")
    ∷ (codes "super", codes "Super_L")
    ∷ (codes "shift", codes "Shift_L")
    ∷ (codes "spacebar", codes "space")
    ∷ (codes "capslock", codes "Caps_Lock")
    ∷ (codes "numlock", codes "Num_Lock")
    ∷ (codes "scrolllock", codes "Scroll_Lock")
    ∷ (codes "printscreen", codes "Print")
    ∷ (codes "prtsc", codes "Print")
    ∷ (codes "break", codes "Pause")
    ∷ []

-- `==` of two strings.
unfoldable pub text_eq : Text → Text → Bool
text_eq [] [] = true
text_eq [] (d ∷ t) = false
text_eq (c ∷ s) [] = false
text_eq (c ∷ s) (d ∷ t) = (c == d) && text_eq s t

-- `char::to_ascii_lowercase` and `str::to_ascii_lowercase`.
unfoldable pub lower : ℕ → ℕ
lower c = if leb 65 c && leb c 90 then c + 32 else c

unfoldable pub to_ascii_lowercase : Text → Text
to_ascii_lowercase s = map lower s

-- `str::eq_ignore_ascii_case`.
unfoldable pub eq_ignore_ascii_case : Text → Text → Bool
eq_ignore_ascii_case s t = text_eq (to_ascii_lowercase s) (to_ascii_lowercase t)

-- `iter().find(|(n, _)| p(n)).map(|(_, k)| *k)`.
unfoldable pub find_named {ℓ} : {B : Type ℓ} → (Text → Bool) → List (Text × B) → Option B
find_named p [] = none
find_named p ((n, b) ∷ rest) = if p n then some b else find_named p rest

unfoldable pub canonical_keysym : Text → Option ℕ
canonical_keysym name = find_named (λ n. text_eq n name) canonical

-- The control characters a typed string contains have keys of their own.
unfoldable pub keysym_for_char : ℕ → ℕ
keysym_for_char c =
    if c == 10
    then 0xff0d
    else if c == 13
    then 0xff0d
    else if c == 9
    then 0xff09
    else if c == 8
    then 0xff08
    else if c == 0x7f
    then 0xffff
    else if ltb c 0x100
    then c
    else 0x1000000 + c

unfoldable pub or_else {ℓ} : {A : Type ℓ} → Option A → Option A → Option A
or_else (some a) o = some a
or_else none o = o

unfoldable pub and_then {ℓ κ} : {A : Type ℓ} {B : Type κ} → Option A → (A → Option B) → Option B
and_then (some a) f = f a
and_then none f = none

-- The last two rules of `keysym_for`: one character is itself, a longer name is looked up without
-- its case.
unfoldable pub spelled : Text → Option ℕ
spelled [] = none
spelled (c ∷ []) = some (keysym_for_char c)
spelled (c ∷ d ∷ s) = find_named (λ n. eq_ignore_ascii_case n (c ∷ d ∷ s)) canonical

unfoldable pub alias_keysym : Text → Option ℕ
alias_keysym l = and_then (find_named (λ a. text_eq a l) aliases) canonical_keysym

unfoldable pub keysym_for : Text → Option ℕ
keysym_for [] = none
keysym_for (c ∷ s) =
    or_else (canonical_keysym (c ∷ s))
      (or_else (alias_keysym (to_ascii_lowercase (c ∷ s))) (spelled (c ∷ s)))

-- `find(|(_, k)| *k == keysym)`.
unfoldable pub name_in : List (Text × ℕ) → ℕ → Option Text
name_in [] k = none
name_in ((n, j) ∷ rest) k = if j == k then some n else name_in rest k

unfoldable pub name_for_keysym : ℕ → Option Text
name_for_keysym k = name_in canonical k

-- `split('+')`: what stands before the first plus, and the rest.
unfoldable pub split_plus : Text → Text × List Text
split_plus [] = ([], [])
split_plus (c ∷ s) =
    let (seg, rest) = split_plus s in if c == 43 then ([], seg ∷ rest) else (c ∷ seg, rest)

unfoldable pub segments : Text → List Text
segments s = let (seg, rest) = split_plus s in seg ∷ rest

-- `UnknownKey` is the name that nobody knows.
unfoldable pub expect : Option ℕ → Result Text ℕ
expect (some k) = ok k
expect none = panic

unfoldable pub ok_or : Option ℕ → Text → Result Text ℕ
ok_or (some k) e = ok k
ok_or none e = err e

-- The loop of `parse_chord`: the keysyms that the segments from `i` on push.
unfoldable pub chord : List Text → Result Text (List ℕ)
chord [] = ok []
chord ([] ∷ []) = err []
chord ([] ∷ (c ∷ s) ∷ rest) = err []
chord ([] ∷ [] ∷ rest) = do
  k ← expect (canonical_keysym (codes "plus"))
  ks ← chord rest
  ok (k ∷ ks)
chord ((c ∷ s) ∷ rest) = do k ← ok_or (keysym_for (c ∷ s)) (c ∷ s); ks ← chord rest; ok (k ∷ ks)

unfoldable pub nonempty : List ℕ → Text → Result Text (List ℕ)
nonempty [] spec = err spec
nonempty (k ∷ ks) spec = ok (k ∷ ks)

unfoldable pub parse_chord : Text → Result Text (List ℕ)
parse_chord spec = do ks ← chord (segments spec); nonempty ks spec
