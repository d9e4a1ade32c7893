-- ===== src/Tests/Fixtures.antt =====
-- A concrete base64 encoder, and sources that serve from memory.
use musefs.Base.{
  ℕ, zero, suc, ◌+◌, ◌-◌, ◌*◌, ◌/◌, ◌%◌, ◌≤◌, ◌≡◌, refl, ap, Option, some, [], ◌∷◌, ◌++◌, length,
  get_or, leb, if◌then◌else◌, arith,
}
use Prim.Native.Char.{code}
use Prim.Native.String.{String}
use musefs.Base.Slices.{slice}
use musefs.Base.Words.{Bytes}
use musefs.Base.Results.{Result, ok, err}
use musefs.Format.Base64.{Base64}
use musefs.Core.Error.{io, db}
use musefs.Core.Readahead.{unexpected_eof}
use musefs.Core.Readahead.Coherence.{Preads}
use musefs.Core.Reader.{Sources}
use musefs.Core.Reader.Rendering.{Contents, Provides, blob}

abbrev pub codes : String → Bytes
codes String.[] = []
codes (String.◌∷◌ c s) = code c ∷ codes s

abbrev b64_char : ℕ → ℕ
b64_char n = get_or (codes "ABCDEFGHIJKLMNOPQRSTUVWXYZabcdefghijklmnopqrstuvwxyz0123456789+/") n 0

abbrev pub encode : Bytes → Bytes
encode [] = []
encode (a ∷ []) = b64_char (a / 4) ∷ b64_char (a % 4 * 16) ∷ b'=' ∷ b'=' ∷ []
encode (a ∷ b ∷ []) =
    b64_char (a / 4) ∷ b64_char (a % 4 * 16 + b / 16) ∷ b64_char (b % 16 * 4) ∷ b'=' ∷ []
encode (a ∷ b ∷ c ∷ rest) =
    b64_char (a / 4)
    ∷ b64_char (a % 4 * 16 + b / 16)
    ∷ b64_char (b % 16 * 4 + c / 64)
    ∷ b64_char (c % 64)
    ∷ encode rest

pub encode_groups :
    (k : ℕ) (a b : Bytes) → length a ≡ 3 * k → encode (a ++ b) ≡ encode a ++ encode b
encode_groups k [] b h = refl
encode_groups k (x ∷ []) b h = absurd (omega arith)
encode_groups k (x ∷ y ∷ []) b h = absurd (omega arith)
encode_groups zero (x ∷ y ∷ z ∷ a) b h = absurd (omega arith)
encode_groups (suc k) (x ∷ y ∷ z ∷ a) b h =
    ap
      (λ t.
        b64_char (x / 4)
        ∷ b64_char (x % 4 * 16 + y / 16)
        ∷ b64_char (y % 16 * 4 + z / 64)
        ∷ b64_char (z % 64)
        ∷ t)
      (encode_groups k a b (omega arith))

pub length_encode : (a : Bytes) → length (encode a) ≡ (length a + 2) / 3 * 4
length_encode [] = refl
length_encode (x ∷ []) = refl
length_encode (x ∷ y ∷ []) = refl
length_encode (x ∷ y ∷ z ∷ a) = omega (arith, length_encode a)

abbrev pub base64 : Base64
base64 = record { encode = encode; encode_groups = encode_groups; length_encode = length_encode }

-- A positioned read of bytes in memory.
abbrev pub read_mem : {E : Type 0} → E → Bytes → ℕ → ℕ → Result E Bytes
read_mem e xs off n = if leb (off + n) (length xs) then ok (slice xs off n) else err e

-- A backing file of twelve bytes, and one image of four.
abbrev pub contents : Contents
contents = record {
  file = 10 ∷ 11 ∷ 12 ∷ 13 ∷ 14 ∷ 15 ∷ 16 ∷ 17 ∷ 18 ∷ 19 ∷ 20 ∷ 21 ∷ [];
  art = λ _. some (1 ∷ 2 ∷ 3 ∷ 4 ∷ []);
  tag = λ _. some (7 ∷ 8 ∷ 9 ∷ []);
  pages = λ ao len _. slice (10 ∷ 11 ∷ 12 ∷ 13 ∷ 14 ∷ 15 ∷ []) ao len;
}

abbrev pub sources : Sources Unit
sources = record {
  base64 = base64;
  read_backing = λ st off n. (read_mem (io 0) contents.file off n, st);
  serve_ogg = λ st ao len delta rs re. (ok (slice (contents.pages ao len delta) rs (re - rs)), st);
  read_art_chunk = λ id off n. read_mem (db 0) (blob (contents.art id)) off n;
  read_binary_tag_chunk = λ id off n. read_mem (db 0) (blob (contents.tag id)) off n;
}

abbrev pub Always : Unit {0} → Type 0
Always _ = Unit

pub read_mem-in_range :
    {E : Type 0} (e : E) (xs : Bytes) (off n : ℕ)
    → off + n ≤ length xs
    → read_mem e xs off n ≡ ok (slice xs off n)
read_mem-in_range e xs off n h = ground arith

read_blob :
    {E : Type 0} (e : E) (o : Option Bytes) (bs : Bytes) (off n : ℕ)
    → o ≡ some bs
    → off + n ≤ length bs
    → read_mem e (blob o) off n ≡ ok (slice bs off n)
read_blob e o bs off n h fits = rw h (read_mem-in_range e bs off n fits)

pub provides : Provides sources contents Always
provides = record {
  backing = λ st off n g h. (read_mem-in_range (io 0) contents.file off n h, tt);
  ogg = λ st ao len delta rs re g h k. (refl, tt);
  art = λ id img off n e h. read_blob (db 0) (contents.art id) img off n e h;
  tag = λ id payload off n e h. read_blob (db 0) (contents.tag id) payload off n e h;
}

pub preads : Preads contents.file (λ n off. read_mem unexpected_eof contents.file off n)
preads = record { in_range = λ n off h. read_mem-in_range unexpected_eof contents.file off n h }
