-- ===== src/Format/Ogg/Page/Rounds.antt =====
-- The reader over the pages that `lace_packet` writes, a page at a time.
use musefs.Base.{
  ℕ, zero, suc, ◌+◌, ◌*◌, ◌≤◌, ◌≡◌, refl, sym, ap, ◌∙◌, Bool, true, false, List, [], ◌∷◌, ◌++◌,
  append_assoc, length, length-append, take, drop, replicate, ltb, arith,
}
use musefs.Base.Words.{Bytes}
use musefs.Format.Ogg.Page.{sum_bytes, push_page, lace_loop, ReadPacket, read_pages, ended_at}
use musefs.Format.Ogg.Page.Segments.{seg_run, seg_run-full}
use musefs.Format.Ogg.Page.Lacing.{shape, push_page-shape, read_pages-page, length-page}

-- `k` rounds of the reader take the pages `pages_of` off the stream and end the packet `payload`
-- behind what was collected before.
abbrev pub Reads : Bytes → ℕ → Bytes → Type 0
Reads pages_of k payload =
    (pre post : Bytes) (want pages f g : ℕ) (cur : Bytes) (out : List ReadPacket)
    → ltb (length out) want ≡ true
    → f ≡ k + g
    → read_pages f (pre ++ (pages_of ++ post)) want (length pre) pages cur out
      ≡ read_pages g (pre ++ (pages_of ++ post)) want (length pre + length pages_of) (pages + k) []
          (out ++ (ended_at (length pre + length pages_of) (pages + k) (cur ++ payload) ∷ []))

-- The reader over one page that `lace_packet` wrote.
pub round :
    (header_type granule serial seq : ℕ) (laces payload pre post : Bytes) (want f g pages : ℕ)
    (cur : Bytes) (out : List ReadPacket) (run : Bytes × List ReadPacket)
    → length payload ≡ sum_bytes laces
    → ltb (length out) want ≡ true
    → f ≡ suc g
    → seg_run want
        (length pre + length (push_page header_type granule serial seq laces payload))
        (suc pages)
        laces
        payload
        cur
        out
      ≡ run
    → read_pages f
        (pre ++ (push_page header_type granule serial seq laces payload ++ post))
        want
        (length pre)
        pages
        cur
        out
      ≡ read_pages g
          (pre ++ (push_page header_type granule serial seq laces payload ++ post))
          want
          (length pre + length (push_page header_type granule serial seq laces payload))
          (suc pages)
          run.0
          run.1
round header_type granule serial seq laces payload pre post want f g pages cur out run sums more
      fuel runs =
    let (mid, mid_len, is_shape) = push_page-shape header_type granule serial seq laces payload in
    let runs' : seg_run want (length pre + length (shape mid laces payload)) (suc pages) laces
          payload cur out
        ≡ run =
      ap (λ p. seg_run want (length pre + length p) (suc pages) laces payload cur out)
        (sym is_shape)
      ∙ runs in
    let page = push_page header_type granule serial seq laces payload in
    ap (λ p. read_pages f (pre ++ (p ++ post)) want (length pre) pages cur out) is_shape
    ∙ ap
        (λ n.
          read_pages n (pre ++ (shape mid laces payload ++ post)) want (length pre) pages cur out)
        fuel
    ∙ read_pages-page pre post mid laces payload mid_len sums want g pages cur out more
    ∙ ap
        (λ (r : Bytes × List ReadPacket).
          read_pages g (pre ++ (shape mid laces payload ++ post)) want
            (length pre + length (shape mid laces payload)) (suc pages) r.0 r.1)
        runs'
    ∙ ap
        (λ p.
          read_pages g (pre ++ (p ++ post)) want (length pre + length p) (suc pages) run.0 run.1)
        (sym is_shape)

sum_full : (n : ℕ) → sum_bytes (replicate n 255) ≡ n * 255
sum_full zero = refl
sum_full (suc n) = omega (arith, sum_full n)

pub sum_laces : (n r : ℕ) → sum_bytes (replicate n 255 ++ (r ∷ [])) ≡ n * 255 + r
sum_laces zero r = omega arith
sum_laces (suc n) r = omega (arith, sum_laces n r)

pub length-laces : (n r : ℕ) → length (replicate n 255 ++ (r ∷ [])) ≡ n + 1
length-laces zero r = refl
length-laces (suc n) r = omega (arith, length-laces n r)

pub take-replicate : (k n : ℕ) → k ≤ n → take k (replicate {A = ℕ} n 255) ≡ replicate k 255
take-replicate zero n h = refl
take-replicate (suc k) zero h = absurd (omega arith)
take-replicate (suc k) (suc n) h = ap (◌∷◌ 255) (take-replicate k n (omega arith))

pub drop-replicate : (k n m : ℕ) → n ≡ k + m → drop k (replicate {A = ℕ} n 255) ≡ replicate m 255
drop-replicate zero n m h = let e : n ≡ m = omega arith in ap (λ t. replicate t 255) e
drop-replicate (suc k) zero m h = absurd (omega arith)
drop-replicate (suc k) (suc n) m h = drop-replicate k n m (omega arith)

pub lace_loop-done :
    (fuel serial granule : ℕ) (bos : Bool) (payload out : Bytes) (seq : ℕ)
    → lace_loop fuel serial granule bos false [] payload out seq ≡ (out, seq)
unfolding lace_loop
lace_loop-done zero serial granule bos payload out seq = refl
lace_loop-done (suc fuel) serial granule bos payload out seq = refl

pub push_page-long :
    (header_type granule serial seq : ℕ) (laces payload : Bytes)
    → length payload ≡ sum_bytes laces
    → 1 ≤ length (push_page header_type granule serial seq laces payload)
push_page-long header_type granule serial seq laces payload sums =
    let (mid, mid_len, is_shape) = push_page-shape header_type granule serial seq laces payload in
    omega (arith, ap length is_shape, length-page [] [] mid laces payload mid_len sums)

-- A page of full segments before the pages of the rest of the packet.
pub Reads-full :
    (header_type granule serial seq n : ℕ) (here there later : Bytes) (k : ℕ)
    → length here ≡ n * 255
    → Reads later k there
    → Reads
        (push_page header_type granule serial seq (replicate n 255) here ++ later)
        (suc k)
        (here ++ there)
Reads-full header_type granule serial seq n here there later k here_len reads pre post want pages f
      g cur out asked fuel_is =
    let page = push_page header_type granule serial seq (replicate n 255) here in
    let sums : length here ≡ sum_bytes (replicate n 255) = omega (arith, sum_full n) in
    let one : pre ++ ((page ++ later) ++ post) ≡ pre ++ (page ++ (later ++ post)) =
      ap (λ t. pre ++ t) (append_assoc page later post) in
    let two : pre ++ (page ++ (later ++ post)) ≡ (pre ++ page) ++ (later ++ post) =
      sym (append_assoc pre page (later ++ post)) in
    let len : length pre + length page ≡ length (pre ++ page) = sym (length-append pre page) in
    let end : length (pre ++ page) + length later ≡ length pre + length (page ++ later) =
      omega (arith, length-append pre page, length-append page later) in
    let count : suc pages + k ≡ pages + suc k = omega arith in
    ap (λ s. read_pages f s want (length pre) pages cur out) one
    ∙ round header_type granule serial seq (replicate n 255) here pre (later ++ post) want f (k + g)
        pages cur out _ sums asked (omega arith)
        (seg_run-full want (length pre + length page) (suc pages) n here cur out here_len)
    ∙ ap (λ s. read_pages (k + g) s want (length pre + length page) (suc pages) (cur ++ here) out)
        two
    ∙ ap
        (λ p.
          read_pages (k + g) ((pre ++ page) ++ (later ++ post)) want p (suc pages) (cur ++ here)
            out)
        len
    ∙ reads (pre ++ page) post want (suc pages) (k + g) g (cur ++ here) out asked refl
    ∙ ap
        (λ s. read_pages g s want (length (pre ++ page) + length later) (suc pages + k) [] (
          out
          ++ (ended_at (length (pre ++ page) + length later) (suc pages + k)
                ((cur ++ here) ++ there)
              ∷ [])))
        (sym (one ∙ two))
    ∙ ap
        (λ p.
          read_pages g (pre ++ ((page ++ later) ++ post)) want p (suc pages + k) []
            (out ++ (ended_at p (suc pages + k) ((cur ++ here) ++ there) ∷ [])))
        end
    ∙ ap
        (λ p.
          read_pages g (pre ++ ((page ++ later) ++ post)) want (length pre + length (page ++ later))
            p []
            (out
              ++ (ended_at (length pre + length (page ++ later)) p ((cur ++ here) ++ there) ∷ [])))
        count
    ∙ ap
        (λ b.
          read_pages g (pre ++ ((page ++ later) ++ post)) want (length pre + length (page ++ later))
            (pages + suc k) []
            (out ++ (ended_at (length pre + length (page ++ later)) (pages + suc k) b ∷ [])))
        (append_assoc cur here there)
