-- ===== src/Proto/Version.antt =====
-- proto.rs: the ProtocolVersion banners, and `parse_version`.
use bolide.Base.{
  ℕ, ◌^◌, ◌==◌, Bool, false, ◌||◌, not, Option, none, some, List, [], ◌∷◌, length, take, drop,
  get_elem?, ◌≡◌, refl, if◌then◌else◌,
}
use bolide.Base.Text.{parse_number}

abbrev pub version_3_8 : List ℕ
version_3_8 = 82 ∷ 70 ∷ 66 ∷ 32 ∷ 48 ∷ 48 ∷ 51 ∷ 46 ∷ 48 ∷ 48 ∷ 56 ∷ 10 ∷ []

abbrev pub version_3_3 : List ℕ
version_3_3 = 82 ∷ 70 ∷ 66 ∷ 32 ∷ 48 ∷ 48 ∷ 51 ∷ 46 ∷ 48 ∷ 48 ∷ 51 ∷ 10 ∷ []

abbrev pub version_3_7 : List ℕ
version_3_7 = 82 ∷ 70 ∷ 66 ∷ 32 ∷ 48 ∷ 48 ∷ 51 ∷ 46 ∷ 48 ∷ 48 ∷ 55 ∷ 10 ∷ []

-- `banner.starts_with(b"RFB ")`.
unfoldable pub starts_rfb : List ℕ → Bool
starts_rfb (a ∷ b ∷ c ∷ d ∷ rest) =
    if a == 82 then (if b == 70 then (if c == 66 then d == 32 else false) else false) else false
starts_rfb short = false

-- `b[i] == v`, on a slice that has an `i`th byte.
unfoldable pub byte_is : List ℕ → ℕ → ℕ → Bool
byte_is b i v = elim (get_elem? b i) [ none ↦ false | some w ↦ w == v ]

-- The two numbers. Bytes that are no UTF-8 are no digits either.
unfoldable pub version_numbers : List ℕ → Option ℕ → Option ℕ → Option (ℕ × ℕ)
version_numbers banner (some major) (some minor) =
    if byte_is banner 7 46 then some (major, minor) else none
version_numbers banner none minor = none
version_numbers banner (some major) none = none

unfoldable pub parse_version : List ℕ → Option (ℕ × ℕ)
parse_version banner =
    if not (length banner == 12) || not (starts_rfb banner) || not (byte_is banner 11 10)
    then none
    else version_numbers banner (parse_number (2 ^ 32) (take 3 (drop 4 banner)))
        (parse_number (2 ^ 32) (take 3 (drop 8 banner)))

pub parse_version_3_8 : parse_version version_3_8 ≡ some (3, 8)
unfolding parse_version version_numbers starts_rfb byte_is parse_number
parse_version_3_8 = refl
