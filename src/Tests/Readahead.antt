-- ===== src/Tests/Readahead.antt =====
-- Read-ahead: the theorems at concrete caches.
use musefs.Base.{◌≤◌, ◌≡◌, refl, [], ◌∷◌, length, arith}
use musefs.Base.Results.{ok, err}
use musefs.Core.Readahead.{ReadAhead, new, read_into, insert_window, unexpected_eof}
use musefs.Core.Readahead.Accounting.{Reports, read_into-Reports, length-insert_window}
use musefs.Core.Readahead.Coherence.{Serves, read_into-Serves}
use musefs.Tests.Fixtures.{contents, preads, read_mem}

abbrev cold : ReadAhead
cold = new 4

-- The state that a read of bytes 2 to 5 leaves.
abbrev warm : ReadAhead
warm = record {
  windows = record { start = 2; bytes = 12 ∷ 13 ∷ 14 ∷ 15 ∷ [] } ∷ [];
  cached_bytes = 4;
  next_expected = 5;
  window = 4;
  cap = 4;
  max_windows = 1;
}

cold_fills :
    read_into cold 2 3 12 (λ n off. read_mem unexpected_eof contents.file off n)
    ≡ (ok (12 ∷ 13 ∷ 14 ∷ [], 0, 4), warm)
unfolding read_into
cold_fills = refl

read_into-Reports_example : Reports warm (read_into warm 20 3 12 (λ n off. err unexpected_eof))
read_into-Reports_example =
    read_into-Reports warm 20 3 12 (λ n off. err unexpected_eof) (record { sums = refl })

length-insert_window_example :
    length (insert_window warm (record { start = 7; bytes = 17 ∷ [] })).windows ≤ 1
length-insert_window_example = length-insert_window warm (record { start = 7; bytes = 17 ∷ [] })

read_into-Serves_example :
    Serves contents.file 6 4
      (read_into warm 6 4 12 (λ n off. read_mem unexpected_eof contents.file off n))
read_into-Serves_example =
    read_into-Serves contents.file (λ n off. read_mem unexpected_eof contents.file off n) preads
      warm 6 4 12 (record { copies = ((omega arith, refl), tt) }) (omega arith) (omega arith)
      (omega arith)
