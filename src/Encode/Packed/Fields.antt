-- ===== src/Encode/Packed/Fields.antt =====
-- encode.rs: a byte of palette indices, as `pack_row` builds it and `packed_field` takes it apart.
use native.Mathlib.Nat.{
  pow-suc, one-le-pow, pow-le-pow_right, div-div-eq-div-mul, mul-add-div_right, div-eq_of_lt,
  mul-add-mod_self_right, mod-eq_of_lt, mul-div_cancel,
}
use bolide.Base.{
  ℕ, zero, suc, ◌+◌, ◌-◌, ◌*◌, ◌/◌, ◌%◌, ◌^◌, ◌≤◌, ◌<◌, bit_and, bit_or, List, [], ◌∷◌, ◌++◌, ok,
  length, ◌≡◌, refl, sym, ap, ◌∙◌, ◌⊎◌, inl, inr, arith,
}
use bolide.Base.Bits.{bit_and_1, bit_and_3, bit_and_15, twos, bit_or-disjoint}
use bolide.Base.Bytes.{index, first}
use bolide.Error.{Error}
use bolide.Zrle.Tile.{packed_field}

abbrev pub Width : ℕ → Type 0
Width bits = (bits ≡ 1) ⊎ ((bits ≡ 2) ⊎ (bits ≡ 4))

-- The bits of a byte that are in use, before the next index.
abbrev pub Slot : (bits used : ℕ) → Type 0
Slot bits used = (used < 8) × (used % bits ≡ 0)

pub Slot-fits : (bits used : ℕ) → Width bits → Slot bits used → used + bits ≤ 8
Slot-fits bits used (inl e) (h, k) = omega (arith, h, e)
Slot-fits bits used (inr (inl e)) (h, k) = omega (arith, ap (λ m. used % m) (sym e) ∙ k, e)
Slot-fits bits used (inr (inr e)) (h, k) = omega (arith, ap (λ m. used % m) (sym e) ∙ k, e)

pub Slot-next :
    (bits used : ℕ) → Width bits → Slot bits used → used + bits < 8 → Slot bits (used + bits)
Slot-next bits used (inl e) (h, k) small = (small, rw e (omega arith))
Slot-next bits used (inr (inl e)) (h, k) small =
    (small, rw e (omega (arith, ap (λ m. used % m) (sym e) ∙ k)))
Slot-next bits used (inr (inr e)) (h, k) small =
    (small, rw e (omega (arith, ap (λ m. used % m) (sym e) ∙ k)))

pow_add : (a b : ℕ) → 2 ^ (a + b) ≡ 2 ^ a * 2 ^ b
pow_add zero b = let e : zero + b ≡ b = omega arith in rw e (omega arith)
pow_add (suc a) b =
    let e : suc a + b ≡ suc (a + b) = omega arith in
    rw e (pow-suc 2 (a + b) ∙ grind (arith, pow_add a b, pow-suc 2 a))

twos_pow : (k : ℕ) → twos k ≡ 2 ^ k
twos_pow zero = refl
twos_pow (suc k) = omega (arith, pow-suc 2 k, twos_pow k)

-- An index behind the bits in use.
abbrev pub joined : (bits acc idx : ℕ) → ℕ
joined bits acc idx = acc * 2 ^ bits + idx

module _ (bits used acc idx : ℕ) (h : acc < 2 ^ used) (k : idx < 2 ^ bits)
    (fits : used + bits ≤ 8) where
  pub joined_small : joined bits acc idx < 2 ^ (used + bits)
  joined_small =
      let below : acc * 2 ^ bits + 2 ^ bits ≤ 2 ^ used * 2 ^ bits = grind (arith, h) in
      omega (arith, pow_add used bits, below, k)

  byte_room : 2 ^ (used + bits) ≤ 256
  byte_room = pow-le-pow_right (omega arith) fits

  pub joined_push : bit_or (acc * 2 ^ bits % 256) (idx % 256) ≡ joined bits acc idx
  joined_push =
      let high : acc * 2 ^ bits % 256 ≡ acc * 2 ^ bits = omega (arith, joined_small, byte_room) in
      let low : idx % 256 ≡ idx = omega (arith, joined_small, byte_room) in
      rw (high, low, ← twos_pow bits)
        (bit_or-disjoint bits acc idx (omega (arith, k, twos_pow bits)))

-- A byte whose high bits are those of `joined` begins with `acc`, and has `idx` behind it.
module _ (bits used acc idx b : ℕ) (k : idx < 2 ^ bits) (fits : used + bits ≤ 8)
    (e : b / 2 ^ (8 - (used + bits)) ≡ joined bits acc idx) where
  high_bits : b / 2 ^ (8 - used) ≡ joined bits acc idx / 2 ^ bits
  high_bits =
      let split : 8 - used ≡ (8 - (used + bits)) + bits = omega (arith, fits) in
      rw (
        split,
        pow_add (8 - (used + bits)) bits,
        ← div-div-eq-div-mul b (2 ^ (8 - (used + bits))) (2 ^ bits),
        e,
      )

  pub byte_begins : b / 2 ^ (8 - used) ≡ acc
  byte_begins =
      high_bits
      ∙ mul-add-div_right (one-le-pow bits 2 (omega arith)) acc idx
      ∙ rw (div-eq_of_lt k) (omega arith)

  pub byte_field : b / 2 ^ (8 - bits - used) % 2 ^ bits ≡ idx
  byte_field =
      let shift : 8 - bits - used ≡ 8 - (used + bits) = omega arith in
      rw (shift, e) (mul-add-mod_self_right acc (2 ^ bits) idx ∙ mod-eq_of_lt k)

pub padded_begins :
    (acc used : ℕ) → used < 8 → acc < 2 ^ used → acc * 2 ^ (8 - used) % 256 / 2 ^ (8 - used) ≡ acc
padded_begins acc used small h =
    let s = 2 ^ (8 - used) in
    let whole : 2 ^ 8 ≡ 2 ^ used * s =
      let e : used + (8 - used) ≡ 8 = omega arith in
      ap (λ m. 2 ^ m) (sym e) ∙ pow_add used (8 - used) in
    let below : acc * s < 2 ^ used * s = grind (arith, h, one-le-pow (8 - used) 2 (omega arith)) in
    let same : acc * s % 256 ≡ acc * s = omega (arith, whole, below) in
    rw same (mul-div_cancel acc (one-le-pow (8 - used) 2 (omega arith)))

field_mask : (bits a : ℕ) → Width bits → bit_and a (2 ^ bits - 1) ≡ a % 2 ^ bits
field_mask bits a (inl e) = rw e (bit_and_1 a)
field_mask bits a (inr (inl e)) = rw e (bit_and_3 a)
field_mask bits a (inr (inr e)) = rw e (bit_and_15 a)

index-append :
    (pre : List ℕ) (b : ℕ) (rest : List ℕ) → index {E = Error} (pre ++ b ∷ rest) (length pre) ≡ ok b
unfolding index first
index-append [] b rest = refl
index-append (x ∷ pre) b rest = index-append pre b rest

-- The decoder finds the index in its column.
pub packed_field_found :
    (pre rest : List ℕ) (bits used acc idx col b : ℕ)
    → Width bits
    → used < 8
    → used + bits ≤ 8
    → idx < 2 ^ bits
    → b / 2 ^ (8 - (used + bits)) ≡ joined bits acc idx
    → col * bits ≡ 8 * length pre + used
    → packed_field (pre ++ b ∷ rest) bits col ≡ ok idx
unfolding packed_field
packed_field_found pre rest bits used acc idx col b width small fits k e at =
    let byte : col * bits / 8 ≡ length pre = omega (arith, at) in
    let offset : col * bits % 8 ≡ used = omega (arith, at) in
    rw (byte, index-append pre b rest, offset, packed_field)
      (ap ok (
        field_mask bits (b / 2 ^ (8 - bits - used)) width
        ∙ byte_field bits used acc idx b k fits e))
