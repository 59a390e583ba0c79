-- ===== src/Tests/Keysym.antt =====
-- keysym.rs at concrete names.
use bolide.Base.{some, [], ◌∷◌, ◌≡◌, refl, arith, ok, err, Returns, length, ◌≤◌, ◌↔◌}
use bolide.Base.Text.{codes}
use bolide.Keysym.{
  keysym_for, canonical_keysym, name_for_keysym, parse_chord, find_named, text_eq,
  to_ascii_lowercase, lower, alias_keysym, and_then, or_else, spelled, name_in, keysym_for_char,
}
use bolide.Keysym.Names.{keysym_for_any_case, name_for_keysym_iff}
use bolide.Keysym.Chords.{parse_chord-join, parse_chord-Returns}

lowercase_page_up : to_ascii_lowercase (codes "PAGE_up") ≡ to_ascii_lowercase (codes "Page_Up")
unfolding to_ascii_lowercase lower
lowercase_page_up = refl

keysym_for_any_case_example : keysym_for (codes "PAGE_up") ≡ keysym_for (codes "Page_Up")
keysym_for_any_case_example =
    keysym_for_any_case (codes "PAGE_up") (codes "Page_Up") (omega arith) (omega arith)
      lowercase_page_up

escape_name : name_for_keysym 0xff1b ≡ some (codes "Escape")
unfolding name_for_keysym name_in
escape_name = refl

name_for_keysym_iff_example :
    (name_for_keysym 0xff1b ≡ some (codes "Escape"))
    ↔ (canonical_keysym (codes "Escape") ≡ some 0xff1b)
name_for_keysym_iff_example = name_for_keysym_iff 0xff1b (codes "Escape")

ctrl_and_c : (keysym_for (codes "ctrl") ≡ some 0xffe3) × (keysym_for (codes "c") ≡ some 99)
unfolding keysym_for canonical_keysym alias_keysym find_named text_eq to_ascii_lowercase lower
    and_then or_else spelled keysym_for_char
ctrl_and_c = (refl, refl)

parse_chord-join_example :
    (parse_chord (codes "ctrl+c") ≡ ok (0xffe3 ∷ 99 ∷ []))
    × (parse_chord (codes "ctrl+c++") ≡ ok (0xffe3 ∷ 99 ∷ 0x2b ∷ []))
    × (parse_chord (codes "ctrl+c+") ≡ err [])
parse_chord-join_example = parse_chord-join (codes "ctrl") (codes "c" ∷ []) (0xffe3 ∷ 99 ∷ []) (
  (omega arith, (omega arith, (omega arith, (omega arith, tt)))),
  ctrl_and_c.0,
  ((omega arith, tt), ctrl_and_c.1, tt),
)

parse_chord-Returns_example : Returns (λ ks. 1 ≤ length ks) (parse_chord (codes "cmd+space"))
parse_chord-Returns_example = parse_chord-Returns (codes "cmd+space")
