-- ===== src/Ard/Credentials.antt =====
-- ard.rs: what is packed into the credential block is read back out of it.
use bolide.Base.{
  Bool, true, ◌||◌, err, Returns, ℕ, ◌+◌, ◌≤◌, ◌<◌, ◌≢◌, ◌==◌, ◌≡◌, refl, sym, ap, ◌∙◌, arith, ltb,
  Bool-cases, ==_iff, drop-add, false, inl, inr, some, List, [], ◌∷◌, ◌++◌, All, length,
  length-append, length-take, length-drop, take, drop, take-append, drop-append, take-append-drop,
  position, ok,
}
use bolide.Base.Bytes.{copy_at}
use bolide.Base.Bytes.Slices.{overwritten, copy_at_ok, length-overwritten}
use bolide.Base.Bytes.Chunks.{overwritten-append_left, overwritten-append_right}
use bolide.Ard.{
  field_too_long, ArdError, field_max, credential_len, field_end, read_field, pack_credentials,
  unpack_credentials,
}

-- No byte of a field is its terminator.
abbrev pub NoNul : List ℕ → Type 0
NoNul = All (λ b. b ≢ 0)

position-terminated :
    (field rest : List ℕ) → NoNul field → position (field ++ (0 ∷ rest)) 0 ≡ some (length field)
position-terminated [] rest h = refl
position-terminated (b ∷ field) rest h =
    rw (position-terminated field rest h.1)
      (elim (Bool-cases (b == 0)) [ inl e ↦ absurd (h.0 ((==_iff b 0).0 e)) | inr e ↦ rw e refl ])

pub read_field-terminated :
    (field rest : List ℕ) → NoNul field → read_field (field ++ (0 ∷ rest)) ≡ field
unfolding read_field field_end
read_field-terminated field rest h =
    rw (position-terminated field rest h) (take-append (length field) field (0 ∷ rest) refl)

-- A field written at the start of `part`, and its terminator behind it.
abbrev filled : List ℕ → List ℕ → List ℕ
filled field part = field ++ (0 ∷ drop (length field + 1) part)

module _ (field part : List ℕ) (room : length field < length part) where
  fill : overwritten (overwritten part 0 field) (length field) (0 ∷ []) ≡ filled field part
  fill =
      let start : 0 + length field ≡ length field = omega arith in
      overwritten-append_right field (drop (0 + length field) part) (0 ∷ []) (length field) 0
        (omega arith)
      ∙ rw (start, drop-add (length field) 1 part) refl

  length-filled : length (filled field part) ≡ length part
  length-filled =
      length-append field (0 ∷ drop (length field + 1) part)
      ∙ omega (arith, length-drop (length field + 1) part)

module _ (xs ys src : List ℕ) where
  copy_left :
      (at : ℕ)
      → at + length src ≤ length xs
      → copy_at {E = ArdError} (xs ++ ys) at src ≡ ok (overwritten xs at src ++ ys)
  copy_left at h =
      copy_at_ok (xs ++ ys) at src (omega (arith, length-append xs ys))
      ∙ ap ok (overwritten-append_left xs ys src at h)

  copy_right :
      (m at : ℕ)
      → m ≡ length xs + at
      → at + length src ≤ length ys
      → copy_at {E = ArdError} (xs ++ ys) m src ≡ ok (xs ++ overwritten ys at src)
  copy_right m at e h =
      copy_at_ok (xs ++ ys) m src (omega (arith, length-append xs ys))
      ∙ ap ok (overwritten-append_right xs ys src m at e)

-- The guard of `pack_credentials`.
abbrev too_long : List ℕ → List ℕ → Bool
too_long username password = ltb field_max (length username) || ltb field_max (length password)

too_long_err :
    (username password filler : List ℕ)
    → too_long username password ≡ true
    → pack_credentials username password filler ≡ err field_too_long
unfolding pack_credentials
too_long_err username password filler e = rw e refl

fits : (field : List ℕ) → length field ≤ 63 → ltb 63 (length field) ≡ false
fits field h = ground arith

-- The steps of `pack_credentials` on a filler of two halves.
module _ (username password f1 f2 : List ℕ) (half : length f1 ≡ 64) (half' : length f2 ≡ 64)
    (short : length username ≤ 63) (short' : length password ≤ 63) where
  packed :
      pack_credentials username password (f1 ++ f2) ≡ ok (filled username f1 ++ filled password f2)
  unfolding pack_credentials
  packed =
      let u1 = overwritten f1 0 username in
      let p1 = overwritten f2 0 password in
      let lu : length u1 ≡ 64 = length-overwritten f1 0 username (omega arith) ∙ half in
      let lp : length p1 ≡ 64 = length-overwritten f2 0 password (omega arith) ∙ half' in
      let eu = fill username f1 (omega arith) in
      let lu2 : length (filled username f1) ≡ 64 = length-filled username f1 (omega arith) ∙ half in
      let ep = fill password f2 (omega arith) in
      rw
        (
          fits username short,
          fits password short',
          copy_left f1 f2 username 0 (omega arith),
          copy_left u1 f2 (0 ∷ []) (length username) (omega (arith, lu)),
          eu,
          copy_right (filled username f1) f2 password 64 0 (omega (arith, lu2)) (omega arith),
          copy_right (filled username f1) p1 (0 ∷ []) (64 + length password) (length password)
              (omega (arith, lu2)) (omega (arith, lp)),
          ep,
        )
        refl

-- On any filler of a block's length, packing gives a block or refuses.
pub pack_credentials-Returns :
    (username password filler : List ℕ)
    → length filler ≡ credential_len
    → Returns (λ (b : List ℕ). Unit {0}) (pack_credentials username password filler)
pack_credentials-Returns username password filler size =
    elim (Bool-cases (too_long username password)) [
      | inl e ↦ rw (too_long_err username password filler e) tt
      | inr e ↦
          rw
            (ap (pack_credentials username password) (sym (take-append-drop 64 filler))
              ∙ packed username password (take 64 filler) (drop 64 filler)
                  (omega (arith, length-take 64 filler)) (omega (arith, length-drop 64 filler))
                  (ground (arith, e)) (ground (arith, e)))
            tt
    ]

-- A username and a password of 63 bytes at most, with no NUL, are packed, whatever the filler, and
-- are what is read back.
pub unpack-pack_credentials :
    (username password filler : List ℕ)
    → length filler ≡ credential_len
    → length username ≤ field_max
    → length password ≤ field_max
    → NoNul username
    → NoNul password
    → (block : List ℕ) × (pack_credentials username password filler ≡ ok block)
      × (length block ≡ credential_len)
      × (unpack_credentials block ≡ (username, password))
unfolding unpack_credentials
unpack-pack_credentials username password filler size short short' clean clean' =
    let f1 = take 64 filler in
    let f2 = drop 64 filler in
    let half : length f1 ≡ 64 = omega (arith, length-take 64 filler) in
    let half' : length f2 ≡ 64 = omega (arith, length-drop 64 filler) in
    let lu : length (filled username f1) ≡ 64 = length-filled username f1 (omega arith) ∙ half in
    let lp : length (filled password f2) ≡ 64 = length-filled password f2 (omega arith) ∙ half' in
    (
      filled username f1 ++ filled password f2,
      ap (pack_credentials username password) (sym (take-append-drop 64 filler))
          ∙ packed username password f1 f2 half half' short short',
      omega (arith, lu, lp, length-append (filled username f1) (filled password f2)),
      rw
          (
            take-append 64 (filled username f1) (filled password f2) lu,
            drop-append 64 (filled username f1) (filled password f2) lu,
          )
          (λ i. (
            read_field-terminated username (drop (length username + 1) f1) clean i,
            read_field-terminated password (drop (length password + 1) f2) clean' i,
          )),
    )
