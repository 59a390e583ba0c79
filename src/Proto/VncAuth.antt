-- ===== src/Proto/VncAuth.antt =====
-- proto.rs, `vnc_auth_response`. DES is the des crate's and a parameter: the key and a block.
use bolide.Base.{ℕ, zero, suc, ◌+◌, ◌*◌, ◌/◌, ◌%◌, List, [], ◌∷◌}
use bolide.Base.Text.{Text, utf8}
use bolide.Base.Bytes.Chunks.{chunks_exact_mut}

-- `u8::reverse_bits`.
unfoldable pub reverse_bits : ℕ → ℕ
reverse_bits b =
    b % 2 * 128
    + b / 2 % 2 * 64
    + b / 4 % 2 * 32
    + b / 8 % 2 * 16
    + b / 16 % 2 * 8
    + b / 32 % 2 * 4
    + b / 64 % 2 * 2
    + b / 128 % 2

-- The loop over the slots of the key and the bytes of the password.
unfoldable pub key_slots : ℕ → List ℕ → List ℕ
key_slots zero bytes = []
key_slots (suc n) [] = 0 ∷ key_slots n []
key_slots (suc n) (b ∷ bytes) = reverse_bits b ∷ key_slots n bytes

unfoldable pub vnc_auth_response : (List ℕ → List ℕ → List ℕ) → Text → List ℕ → List ℕ
vnc_auth_response des password challenge =
    chunks_exact_mut 8 (des (key_slots 8 (utf8 password))) challenge
