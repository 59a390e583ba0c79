-- ===== src/FakeServer/Roundtrip.antt =====
-- server.rs against proto.rs: the fake server reads back what the client's builders write.
use bolide.Base.{
  ℕ, suc, ◌*◌, ◌^◌, ◌%◌, ◌==◌, leb, le→leb, not, Bool, true, false, List, [], ◌∷◌, ◌++◌, length,
  take-append, drop-append, length-append, All, ok, ◌≡◌, refl, ap, arith,
}
use bolide.Base.Text.{Text}
use bolide.Base.Bytes.{be16, be32, IsU16, IsU32, from_be16-be16, from_be32-be32}
use bolide.Proto.Format.{PixelFormat, encode, from_bool}
use bolide.Proto.Format.Block.{IsTyped, decode-encode}
use bolide.Proto.Messages
use bolide.Proto.Messages.{encoding_bytes, to_latin1, from_latin1}
use bolide.FakeServer.{
  ClientEvent, set_pixel_format, set_encodings, update_request, pointer, key, cut_text, read_exact,
  words, request_fields, key_fields, pointer_fields, encodings_count, cut_text_length, read_body,
  read_message,
}

-- What the client writes to be heard as the event.
abbrev pub written : ClientEvent → List ℕ
written (set_pixel_format f) = Messages.set_pixel_format f
written (set_encodings encodings) = Messages.set_encodings encodings
written (update_request incremental x y w h) =
    Messages.framebuffer_update_request incremental x y w h
written (pointer x y buttons) = Messages.pointer_event x y buttons
written (key keysym down) = Messages.key_event keysym down
written (cut_text text) = Messages.client_cut_text text

-- Text comes through as latin-1.
abbrev pub heard : ClientEvent → ClientEvent
heard (cut_text text) = cut_text (to_latin1 text)
heard event = event

-- Each field has the width that the source's types give it, and the lists fit their counts.
abbrev pub Fits : ClientEvent → Type 0
Fits (set_pixel_format f) = IsTyped f
Fits (set_encodings encodings) = All IsU32 encodings × IsU16 (length encodings)
Fits (update_request incremental x y w h) = IsU16 x × IsU16 y × IsU16 w × IsU16 h
Fits (pointer x y buttons) = IsU16 x × IsU16 y
Fits (key keysym down) = IsU32 keysym
Fits (cut_text text) = IsU32 (length (to_latin1 text))

read_exact-append : (n : ℕ) (xs ys : List ℕ) → length xs ≡ n → read_exact n (xs ++ ys) ≡ ok (xs, ys)
unfolding read_exact
read_exact-append n xs ys e =
    let enough : leb n (length (xs ++ ys)) ≡ true =
      le→leb n (length (xs ++ ys)) (omega (arith, length-append xs ys)) in
    rw (enough, take-append n xs ys e, drop-append n xs ys e) refl

not-from_bool : (b : Bool) → not (from_bool b == 0) ≡ b
not-from_bool true = refl
not-from_bool false = refl

read_update_request :
    (i : Bool) (x y w h : ℕ) (tail : List ℕ)
    → Fits (update_request i x y w h)
    → read_message (written (update_request i x y w h) ++ tail)
      ≡ ok (update_request i x y w h, tail)
unfolding read_message read_body Messages.framebuffer_update_request request_fields
read_update_request i x y w h tail f =
    rw
      (
        read_exact-append 9 (from_bool i ∷ (be16 x ++ (be16 y ++ (be16 w ++ be16 h)))) tail refl,
        not-from_bool i,
        from_be16-be16 x f.0,
        from_be16-be16 y f.1,
        from_be16-be16 w f.2,
        from_be16-be16 h f.3,
      )
      refl

read_pointer :
    (x y buttons : ℕ) (tail : List ℕ)
    → Fits (pointer x y buttons)
    → read_message (written (pointer x y buttons) ++ tail) ≡ ok (pointer x y buttons, tail)
unfolding read_message read_body Messages.pointer_event pointer_fields
read_pointer x y buttons tail f =
    rw
      (
        read_exact-append 5 (buttons ∷ (be16 x ++ be16 y)) tail refl,
        from_be16-be16 x f.0,
        from_be16-be16 y f.1,
      )
      refl

read_key :
    (keysym : ℕ) (down : Bool) (tail : List ℕ)
    → Fits (key keysym down)
    → read_message (written (key keysym down) ++ tail) ≡ ok (key keysym down, tail)
unfolding read_message read_body Messages.key_event key_fields
read_key keysym down tail f =
    rw
      (
        read_exact-append 7 (from_bool down ∷ 0 ∷ 0 ∷ be32 keysym) tail refl,
        from_be32-be32 keysym f,
        not-from_bool down,
      )
      refl

read_set_pixel_format :
    (f : PixelFormat) (tail : List ℕ)
    → Fits (set_pixel_format f)
    → read_message (written (set_pixel_format f) ++ tail) ≡ ok (set_pixel_format f, tail)
unfolding read_message read_body Messages.set_pixel_format
read_set_pixel_format f tail t =
    let block = decode-encode f t in
    rw
      (
        read_exact-append 19 (0 ∷ 0 ∷ 0 ∷ encode f) tail (ap (λ n. suc (suc (suc n))) block.1),
        block.0,
      )
      refl

words-encoding_bytes :
    (encodings : List ℕ) → All IsU32 encodings → words (encoding_bytes encodings) ≡ encodings
unfolding words encoding_bytes
words-encoding_bytes [] h = refl
words-encoding_bytes (e ∷ encodings) h =
    rw (from_be32-be32 e h.0, words-encoding_bytes encodings h.1) refl

length-encoding_bytes :
    (encodings : List ℕ) → length (encoding_bytes encodings) ≡ length encodings * 4
unfolding encoding_bytes
length-encoding_bytes [] = refl
length-encoding_bytes (e ∷ encodings) = omega (arith, length-encoding_bytes encodings)

read_set_encodings :
    (encodings : List ℕ) (tail : List ℕ)
    → Fits (set_encodings encodings)
    → read_message (written (set_encodings encodings) ++ tail) ≡ ok (set_encodings encodings, tail)
unfolding read_message read_body Messages.set_encodings encodings_count
read_set_encodings encodings tail h =
    let count : length encodings % 2 ^ 16 ≡ length encodings = omega (arith, h.1) in
    rw
      (
        count,
        read_exact-append 3 (0 ∷ be16 (length encodings)) (encoding_bytes encodings ++ tail) refl,
        from_be16-be16 (length encodings) h.1,
        read_exact-append (length encodings * 4) (encoding_bytes encodings) tail
            (length-encoding_bytes encodings),
        words-encoding_bytes encodings h.0,
      )
      refl

read_cut_text :
    (text : Text) (tail : List ℕ)
    → Fits (cut_text text)
    → read_message (written (cut_text text) ++ tail) ≡ ok (cut_text (to_latin1 text), tail)
unfolding read_message read_body Messages.client_cut_text cut_text_length from_latin1
read_cut_text text tail h =
    let latin1 = to_latin1 text in
    let size : length latin1 % 2 ^ 32 ≡ length latin1 = omega (arith, h) in
    rw
      (
        size,
        read_exact-append 7 (0 ∷ 0 ∷ 0 ∷ be32 (length latin1)) (latin1 ++ tail) refl,
        from_be32-be32 (length latin1) h,
        read_exact-append (length latin1) latin1 tail refl,
      )
      refl

-- The fake server reads each message of the client, whatever follows it, as the event that the
-- client wrote, and leaves what follows. A clipboard text is heard as its latin-1 form.
pub read_message-written :
    (event : ClientEvent) (tail : List ℕ)
    → Fits event
    → read_message (written event ++ tail) ≡ ok (heard event, tail)
read_message-written (set_pixel_format f) tail h = read_set_pixel_format f tail h
read_message-written (set_encodings encodings) tail h = read_set_encodings encodings tail h
read_message-written (update_request i x y w h') tail h = read_update_request i x y w h' tail h
read_message-written (pointer x y buttons) tail h = read_pointer x y buttons tail h
read_message-written (key keysym down) tail h = read_key keysym down tail h
read_message-written (cut_text text) tail h = read_cut_text text tail h
