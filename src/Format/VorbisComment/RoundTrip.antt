-- ===== src/Format/VorbisComment/RoundTrip.antt =====
-- What `build` writes, `parse` reads back.
use musefs.Base.{
  ℕ, ◌+◌, ◌*◌, ◌/◌, ◌%◌, ◌≤◌, ◌≡◌, refl, sym, ap, ◌∙◌, inl, inr, Bool-cases, true, false, List, [],
  ◌∷◌, ◌++◌, append_assoc, append-nil, All, length, length-append, map, ltb, leb, le→ltb_false,
  Option-cases, arith,
}
use musefs.Base.Slices.{slice, slice-append_right, take-append_le, take-all}
use musefs.Base.Utf8.{is_utf8}
use musefs.Base.Words.{Bytes, u32_max, try_u32, try_u32-some, to_le_bytes}
use musefs.Base.Results.{ok, ok_or, ◌>>=◌, bind-IsOk, ok-inj}
use musefs.Format.Bytes.{byte-append, byte-append_0, read_u32_le}
use musefs.Format.Error.{too_large}
use musefs.Format.Input.{TagInput}
use musefs.Format.VorbisComment.{
  vendor, is_valid_key, valid_tags, comment_of, push_text, push_comments, build, canonical_key,
  entry_of, read_comment, parse_comments, parse,
}
use musefs.Format.VorbisComment.Fields.{field_of, entry_of-comment_of, is_utf8-comment_of}

-- A length where it was written.
read_u32_le-to_le_bytes :
    (out more : Bytes) (n : ℕ)
    → n ≤ u32_max
    → read_u32_le (out ++ (to_le_bytes 4 n ++ more)) (length out) ≡ ok n
unfolding read_u32_le
read_u32_le-to_le_bytes out more n small =
    let bs = out ++ (to_le_bytes 4 n ++ more) in
    let long : leb (length out + 4) (length bs) ≡ true =
      let len = length-append out (to_le_bytes 4 n ++ more) in ground arith in
    let b0 = byte-append_0 out (to_le_bytes 4 n ++ more) in
    let b1 = byte-append out (to_le_bytes 4 n ++ more) 1 in
    let b2 = byte-append out (to_le_bytes 4 n ++ more) 2 in
    let b3 = byte-append out (to_le_bytes 4 n ++ more) 3 in
    let whole : ((n / 256 / 256 / 256 % 256 * 256 + n / 256 / 256 % 256) * 256 + n / 256 % 256)
            * 256
          + n % 256
        ≡ n =
      omega arith in
    rw (read_u32_le, long, b0, b1, b2, b3) (ap ok whole)

count-some : (n count : ℕ) → ok_or (try_u32 n) too_large ≡ ok count → (count ≡ n) × (n ≤ u32_max)
count-some n count h = elim (Option-cases (try_u32 n)) [
  | inl long ↦ cc (rw long at h)
  | inr (len, fits) ↦
      let (same, small) = try_u32-some n len fits in (sym (ok-inj (rw fits at h)) ∙ same, small)
]

push_text-IsOk :
    (out text next : Bytes)
    → push_text out text ≡ ok next
    → (length text ≤ u32_max) × (next ≡ out ++ (to_le_bytes 4 (length text) ++ text))
unfolding push_text
push_text-IsOk out text next h = elim (Option-cases (try_u32 (length text))) [
  | inl long ↦ cc (rw (push_text, long) at h)
  | inr (len, fits) ↦
      let (same, small) = try_u32-some (length text) len fits in
      (
        small,
        sym (ok-inj (rw (push_text, fits) at h)) ∙ ap (λ n. out ++ (to_le_bytes 4 n ++ text)) same,
      )
]

-- The tags that a list of comments stands for.
abbrev pub pair_of : TagInput → Bytes × Bytes
pair_of t = (canonical_key (field_of t), t.value)

read_comment-here :
    (out rest comment : Bytes)
    → length comment ≤ u32_max
    → is_utf8 comment ≡ true
    → read_comment ((out ++ (to_le_bytes 4 (length comment) ++ comment)) ++ rest) (length out)
      ≡ ok (entry_of comment, length (out ++ (to_le_bytes 4 (length comment) ++ comment)))
unfolding read_comment
read_comment-here out rest comment small text =
    let front = to_le_bytes 4 (length comment) in
    let body = out ++ (front ++ (comment ++ rest)) in
    let apart : (out ++ (front ++ comment)) ++ rest ≡ body =
      append_assoc out (front ++ comment) rest in
    let clen = read_u32_le-to_le_bytes out (comment ++ rest) (length comment) small in
    let inside : ltb (length body) (length out + 4 + length comment) ≡ false =
      le→ltb_false _ _ (
        omega
          (arith, length-append out (front ++ (comment ++ rest)), length-append comment rest)) in
    let here : slice body (length out + 4) (length comment) ≡ comment =
      slice-append_right out (front ++ (comment ++ rest)) (length out + 4) 4 (length comment) refl
      ∙ take-append_le (length comment) comment rest (omega arith)
      ∙ take-all (length comment) comment (omega arith) in
    let next : length out + 4 + length comment ≡ length (out ++ (front ++ comment)) =
      omega (arith, length-append out (front ++ comment)) in
    ap (λ t. read_comment t (length out)) apart
    ∙ rw (read_comment, clen, inside, here, text) (ap (λ n. ok (entry_of comment, n)) next)

push_comments-parsed :
    (ts : List TagInput) (out body : Bytes)
    → All (λ t. is_valid_key t.key ≡ true) ts
    → All (λ t. is_utf8 t.value ≡ true) ts
    → push_comments out ts ≡ ok body
    → (rest : Bytes) × (body ≡ out ++ rest)
      × ((acc : List (Bytes × Bytes))
          → parse_comments (length ts) body (length out) acc ≡ ok (acc ++ map pair_of ts))
unfolding push_comments parse_comments
push_comments-parsed [] out body valid texts h =
    ([], sym (ok-inj h) ∙ sym (append-nil out), λ acc. ap ok (sym (append-nil acc)))
push_comments-parsed (t ∷ ts) out body valid texts h =
    let (next, pushed, more) =
      bind-IsOk (λ n. push_comments n ts) (push_text out (comment_of t)) h in
    let (small, is_next) = push_text-IsOk out (comment_of t) next pushed in
    let (rest, is_body, reads) = push_comments-parsed ts next body valid.1 texts.1 more in
    let front = to_le_bytes 4 (length (comment_of t)) ++ comment_of t in
    let is_body' : body ≡ (out ++ front) ++ rest = is_body ∙ ap (λ n. n ++ rest) is_next in
    let first : read_comment body (length out) ≡ ok (pair_of t ∷ [], length next) =
      ap (λ b. read_comment b (length out)) is_body'
      ∙ read_comment-here out rest (comment_of t) small (is_utf8-comment_of t valid.0 ∙ texts.0)
      ∙ ap (λ e. ok (e, length (out ++ front))) (entry_of-comment_of t valid.0)
      ∙ ap (λ n. ok (pair_of t ∷ [], length n)) (sym is_next) in
    (
      front ++ rest,
      is_body' ∙ append_assoc out front rest,
      λ acc.
          rw (parse_comments, first)
            (reads (acc ++ (pair_of t ∷ []))
              ∙ ap ok (append_assoc acc (pair_of t ∷ []) (map pair_of ts))),
    )

valid_tags-valid : (tags : List TagInput) → All (λ t. is_valid_key t.key ≡ true) (valid_tags tags)
unfolding valid_tags
valid_tags-valid [] = tt
valid_tags-valid (t ∷ ts) = elim (Bool-cases (is_valid_key t.key)) [
  | inl legal ↦ rw (valid_tags, legal) (legal, valid_tags-valid ts)
  | inr illegal ↦ rw (valid_tags, illegal) (valid_tags-valid ts)
]

valid_tags-utf8 :
    (tags : List TagInput)
    → All (λ t. is_utf8 t.value ≡ true) tags
    → All (λ t. is_utf8 t.value ≡ true) (valid_tags tags)
unfolding valid_tags
valid_tags-utf8 [] h = tt
valid_tags-utf8 (t ∷ ts) h = elim (Bool-cases (is_valid_key t.key)) [
  | inl legal ↦ rw (valid_tags, legal) (h.0, valid_tags-utf8 ts h.1)
  | inr illegal ↦ rw (valid_tags, illegal) (valid_tags-utf8 ts h.1)
]

-- A body that `build` returns is parsed into the tags with valid keys, in their order and with their
-- values, each under the canonical key of the field name that was written for it. The values are UTF-8.
pub parse-build :
    (tags : List TagInput) (body : Bytes)
    → All (λ t. is_utf8 t.value ≡ true) tags
    → build tags ≡ ok body
    → parse body ≡ ok (map pair_of (valid_tags tags))
unfolding build parse
parse-build tags body texts h =
    let valid = valid_tags tags in
    let (out, pushed, h2) =
      bind-IsOk
        (λ out. ok_or (try_u32 (length valid)) too_large >>= λ count.
          push_comments (out ++ to_le_bytes 4 count) valid)
        (push_text [] vendor) h in
    let (count, counted, h3) =
      bind-IsOk (λ count. push_comments (out ++ to_le_bytes 4 count) valid)
        (ok_or (try_u32 (length valid)) too_large) h2 in
    let (same, small) = count-some (length valid) count counted in
    let out_is = (push_text-IsOk [] vendor out pushed).1 in
    let head = to_le_bytes 4 6 ++ vendor in
    let (rest, is_body, reads) =
      push_comments-parsed valid (out ++ to_le_bytes 4 count) body (valid_tags-valid tags)
        (valid_tags-utf8 tags texts) h3 in
    let body_is : body ≡ head ++ (to_le_bytes 4 (length valid) ++ rest) =
      is_body
      ∙ ap (λ n. (out ++ to_le_bytes 4 n) ++ rest) same
      ∙ ap (λ o. (o ++ to_le_bytes 4 (length valid)) ++ rest) out_is
      ∙ append_assoc head (to_le_bytes 4 (length valid)) rest in
    let vendor_read : read_u32_le body 0 ≡ ok 6 =
      ap (λ b. read_u32_le b 0) body_is
      ∙ read_u32_le-to_le_bytes [] (vendor ++ (to_le_bytes 4 (length valid) ++ rest)) 6
          (omega arith) in
    let count_read : read_u32_le body 10 ≡ ok (length valid) =
      ap (λ b. read_u32_le b 10) body_is ∙ read_u32_le-to_le_bytes head rest (length valid) small in
    let start : 14 ≡ length (out ++ to_le_bytes 4 count) =
      omega (arith, length-append out (to_le_bytes 4 count), ap length out_is) in
    rw (parse, vendor_read, count_read)
      (ap (λ p. parse_comments (length valid) body p []) start ∙ reads [])
