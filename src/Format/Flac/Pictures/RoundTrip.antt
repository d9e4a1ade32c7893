-- ===== src/Format/Flac/Pictures/RoundTrip.antt =====
-- The framing of a picture that synthesis writes, read back with the image behind it.
use musefs.Base.{
  ℕ, zero, suc, ◌+◌, ◌*◌, ◌/◌, ◌%◌, ◌≤◌, ◌≡◌, refl, sym, ap, ◌∙◌, inl, inr, Option-cases, some,
  true, false, [], ◌∷◌, ◌++◌, append_assoc, append-nil, length, length-append, length-drop, take,
  drop, ltb, leb, le→ltb_false, le→leb, arith,
}
use musefs.Base.Slices.{slice, drop-drop, take-append_le, take-all, drop-append_ge}
use musefs.Base.Utf8.{is_utf8}
use musefs.Base.Words.{Bytes, u32_max, try_u32, try_u32-some, to_be_bytes_u32}
use musefs.Base.Results.{ok, Result-cases, ok-inj}
use musefs.Format.Bytes.{byte, read_u32_be}
use musefs.Format.Input.{ArtInput, picture_type_new}
use musefs.Format.Flac.Pictures.{read_sized, parse_picture_block}
use musefs.Format.Flac.Synthesis.{sized_text, picture_body_framing}

byte-drop_add : (xs : Bytes) (k i : ℕ) → byte xs (k + i) ≡ byte (drop k xs) i
byte-drop_add xs zero i = let e : 0 + i ≡ i = omega arith in ap (byte xs) e
byte-drop_add [] (suc k) i = refl
byte-drop_add (x ∷ xs) (suc k) i =
    let e : suc k + i ≡ suc (k + i) = omega arith in ap (byte (x ∷ xs)) e ∙ byte-drop_add xs k i

-- A number where it was written.
read-here :
    (body more : Bytes) (pos n : ℕ)
    → drop pos body ≡ to_be_bytes_u32 n ++ more
    → n ≤ u32_max
    → read_u32_be body pos ≡ ok n
unfolding read_u32_be
read-here body more pos n here small =
    let long : leb (pos + 4) (length body) ≡ true =
      le→leb (pos + 4) (length body) (omega (arith, length-drop pos body, ap length here)) in
    let first : byte body pos ≡ n / 16777216 % 256 =
      let e : pos ≡ pos + 0 = omega arith in
      ap (byte body) e ∙ byte-drop_add body pos 0 ∙ ap (λ t. byte t 0) here in
    let at = λ (i : ℕ). byte-drop_add body pos i ∙ ap (λ t. byte t i) here in
    let whole : ((n / 16777216 % 256 * 256 + n / 65536 % 256) * 256 + n / 256 % 256) * 256 + n % 256
        ≡ n =
      omega arith in
    rw (read_u32_be, long, first, at 1, at 2, at 3) (ap ok whole)

read_sized-here :
    (body text more : Bytes) (pos : ℕ)
    → drop pos body ≡ to_be_bytes_u32 (length text) ++ (text ++ more)
    → length text ≤ u32_max
    → read_sized body pos ≡ ok (text, pos + 4 + length text)
unfolding read_sized
read_sized-here body text more pos here small =
    let number = read-here body (text ++ more) pos (length text) here small in
    let inside : ltb (length body) (pos + 4 + length text) ≡ false =
      le→ltb_false (length body) (pos + 4 + length text)
        (omega (arith, length-drop pos body, ap length here, length-append text more)) in
    let bytes : slice body (pos + 4) (length text) ≡ text =
      ap (take (length text))
        (sym (drop-drop 4 pos (pos + 4) body (omega arith)) ∙ ap (drop 4) here)
      ∙ take-append_le (length text) text more (omega arith)
      ∙ take-all (length text) text (omega arith) in
    rw (read_sized, number, inside, bytes) refl

after :
    (body front more : Bytes) (pos next : ℕ)
    → drop pos body ≡ front ++ more
    → next ≡ pos + length front
    → drop next body ≡ more
after body front more pos next here at_next =
    sym (drop-drop (length front) pos next body (omega arith))
    ∙ ap (drop (length front)) here
    ∙ drop-append_ge (length front) 0 front more (omega arith)

picture_type_new-known : (v : ℕ) → v ≤ 20 → picture_type_new v ≡ some (record { byte = v })
unfolding picture_type_new
picture_type_new-known v h =
    let byte_sized = le→ltb_false 255 v (omega arith) in
    let known = le→ltb_false 20 v h in rw (picture_type_new, byte_sized, known) refl

sized_text-IsOk :
    (text sized : Bytes)
    → sized_text text ≡ ok sized
    → (length text ≤ u32_max) × (sized ≡ to_be_bytes_u32 (length text) ++ text)
unfolding sized_text
sized_text-IsOk text sized h = elim (Option-cases (try_u32 (length text))) [
  | inl long ↦ cc (rw (sized_text, long) at h)
  | inr (len, fits) ↦
      let (same, small) = try_u32-some (length text) len fits in
      (small, sym (ok-inj (rw (sized_text, fits) at h)) ∙ ap (λ n. to_be_bytes_u32 n ++ text) same)
]

-- What stands behind the description.
abbrev numbers : ArtInput → Bytes → Bytes
numbers art image =
    to_be_bytes_u32 art.width
    ++ (to_be_bytes_u32 art.height
        ++ (to_be_bytes_u32 0
            ++ (to_be_bytes_u32 0 ++ (to_be_bytes_u32 art.data_len.get ++ image))))

abbrev body_of : ArtInput → Bytes → Bytes → Bytes
body_of art description image =
    to_be_bytes_u32 art.picture_type.byte
    ++ (to_be_bytes_u32 (length art.mime)
        ++ (art.mime
            ++ (to_be_bytes_u32 (length description) ++ (description ++ numbers art image))))

abbrev framing_of : ArtInput → Bytes → Bytes → ℕ → Bytes
framing_of art mime desc len =
    to_be_bytes_u32 art.picture_type.byte
    ++ (mime
        ++ (desc
            ++ (to_be_bytes_u32 art.width
                ++ (to_be_bytes_u32 art.height
                    ++ (to_be_bytes_u32 0 ++ (to_be_bytes_u32 0 ++ to_be_bytes_u32 len))))))

framing_of-body_of :
    (art : ArtInput) (description image : Bytes)
    → framing_of art
          (to_be_bytes_u32 (length art.mime) ++ art.mime)
          (to_be_bytes_u32 (length description) ++ description)
          art.data_len.get
        ++ image
      ≡ body_of art description image
framing_of-body_of art description image =
    let front = to_be_bytes_u32 art.picture_type.byte ++ to_be_bytes_u32 (length art.mime) in
    ap (λ t. front ++ t)
      (append_assoc art.mime
          (to_be_bytes_u32 (length description) ++ (description ++ numbers art [])) image
        ∙ ap (λ t. art.mime ++ (to_be_bytes_u32 (length description) ++ t))
            (append_assoc description (numbers art []) image))

picture_body_framing-body_of :
    (art : ArtInput) (description framing image : Bytes)
    → picture_body_framing art description ≡ ok framing
    → (length art.mime ≤ u32_max)
      × (length description ≤ u32_max)
      × (art.data_len.get ≤ u32_max)
      × (framing ++ image ≡ body_of art description image)
unfolding picture_body_framing
picture_body_framing-body_of art description framing image h =
    elim (Result-cases (sized_text art.mime)) [
      | inr (e, no_mime) ↦ cc (rw (picture_body_framing, no_mime) at h)
      | inl (mime, mime_sized) ↦ elim (Result-cases (sized_text description)) [
        | inr (e, no_desc) ↦ cc (rw (picture_body_framing, mime_sized, no_desc) at h)
        | inl (desc, desc_sized) ↦ elim (Option-cases (try_u32 art.data_len.get)) [
          | inl too_long ↦ cc (rw (picture_body_framing, mime_sized, desc_sized, too_long) at h)
          | inr (len, len_fits) ↦
              let (mime_small, mime_is) = sized_text-IsOk art.mime mime mime_sized in
              let (desc_small, desc_is) = sized_text-IsOk description desc desc_sized in
              let (same, len_small) = try_u32-some art.data_len.get len len_fits in
              let framing_is =
                sym (ok-inj (rw (picture_body_framing, mime_sized, desc_sized, len_fits) at h)) in
              (
                mime_small,
                desc_small,
                len_small,
                ap (λ t. t ++ image) framing_is
                    ∙ ap (λ t. framing_of art t desc len ++ image) mime_is
                    ∙ ap
                        (λ t.
                          framing_of art (to_be_bytes_u32 (length art.mime) ++ art.mime) t len
                          ++ image)
                        desc_is
                    ∙ ap
                        (λ n.
                          framing_of art (to_be_bytes_u32 (length art.mime) ++ art.mime)
                            (to_be_bytes_u32 (length description) ++ description) n
                          ++ image)
                        same
                    ∙ framing_of-body_of art description image,
              )
        ]
      ]
    ]

module _ (lossy : Bytes → Bytes) (lossy_utf8 : (t : Bytes) → is_utf8 t ≡ true → lossy t ≡ t) where
  -- A picture block as synthesis frames it, the image behind, is read as that picture: its type, both
  -- texts, its size and its bytes. The texts are UTF-8, the type is one of the 21, and the numbers
  -- fit 32 bits; a lossy conversion leaves UTF-8 as it is.
  pub parse_picture_block-framing :
      (art : ArtInput) (framing image : Bytes)
      → picture_body_framing art art.description ≡ ok framing
      → length image ≡ art.data_len.get
      → art.picture_type.byte ≤ 20
      → art.width ≤ u32_max
      → art.height ≤ u32_max
      → is_utf8 art.mime ≡ true
      → is_utf8 art.description ≡ true
      → parse_picture_block lossy (framing ++ image)
        ≡ ok (record {
          mime = art.mime;
          picture_type = art.picture_type;
          description = art.description;
          width = art.width;
          height = art.height;
          image = image;
        })
  unfolding parse_picture_block
  parse_picture_block-framing art framing image framed sized known wide high mime_text desc_text =
      let (mime_small, desc_small, len_small, is_body) =
        picture_body_framing-body_of art art.description framing image framed in
      let body = framing ++ image in
      let d = art.description in
      let m = art.mime in
      let behind_desc = numbers art image in
      let behind_mime = to_be_bytes_u32 (length d) ++ (d ++ behind_desc) in
      let at_type =
        read-here body (to_be_bytes_u32 (length m) ++ (m ++ behind_mime)) 0 art.picture_type.byte
          is_body (omega arith) in
      let d4 : drop 4 body ≡ to_be_bytes_u32 (length m) ++ (m ++ behind_mime) =
        ap (drop 4) is_body in
      let at_mime = read_sized-here body m behind_mime 4 d4 mime_small in
      let p : ℕ = 4 + 4 + length m in
      let dp : drop p body ≡ behind_mime =
        after body (to_be_bytes_u32 (length m) ++ m) behind_mime 4 p d4 (omega arith) in
      let at_desc = read_sized-here body d behind_desc p dp desc_small in
      let q : ℕ = p + 4 + length d in
      let dq : drop q body ≡ behind_desc =
        after body (to_be_bytes_u32 (length d) ++ d) behind_desc p q dp (omega arith) in
      let dq4 = after body (to_be_bytes_u32 art.width) (drop 4 behind_desc) q (q + 4) dq refl in
      let dq8 =
        after body (to_be_bytes_u32 art.height) (drop 8 behind_desc) (q + 4) (q + 8) dq4
          (omega arith) in
      let dq12 =
        after body (to_be_bytes_u32 0) (drop 12 behind_desc) (q + 8) (q + 12) dq8 (omega arith) in
      let dq16 =
        after body (to_be_bytes_u32 0) (drop 16 behind_desc) (q + 12) (q + 16) dq12 (omega arith) in
      let at_width = read-here body (drop 4 behind_desc) q art.width dq wide in
      let at_height = read-here body (drop 8 behind_desc) (q + 4) art.height dq4 high in
      let at_depth = read-here body (drop 12 behind_desc) (q + 8) 0 dq8 (omega arith) in
      let at_colors = read-here body (drop 16 behind_desc) (q + 12) 0 dq12 (omega arith) in
      let image_here : drop (q + 16) body ≡ to_be_bytes_u32 (length image) ++ (image ++ []) =
        dq16
        ∙ ap (λ n. to_be_bytes_u32 n ++ image) (sym sized)
        ∙ ap (λ t. to_be_bytes_u32 (length image) ++ t) (sym (append-nil image)) in
      let at_image = read_sized-here body image [] (q + 16) image_here (omega arith) in
      let kind = picture_type_new-known art.picture_type.byte known in
      rw
        (
          parse_picture_block,
          at_type,
          at_mime,
          at_desc,
          at_width,
          at_height,
          at_depth,
          at_colors,
          at_image,
          kind,
          lossy_utf8 m mime_text,
          lossy_utf8 d desc_text,
        )
        refl
