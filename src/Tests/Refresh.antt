-- ===== src/Tests/Refresh.antt =====
-- The byte budget of a scan, and a changelog read.
use musefs.Base.{
  All, ◌≤◌, max, ◌≡◌, refl, inl, ◌||◌, true, false, Option, none, some, List, [], ◌∷◌, arith,
  if◌then◌else◌,
}
use musefs.Base.Int.{ℤ, pos, ◌==ℤ◌}
use musefs.Core.ByteBudget.{
  ByteBudget, new, admits, acquire, park, requeue, notify_all, release, acquired, parked, released,
  Reaches, started, stepped,
}
use musefs.Core.ByteBudget.Steps.{in_flight-bound, waiting-refused, waiting-when_idle}
use musefs.Core.RefreshDiff.{
  Format, flac, mp3, same_format, TrackRenderState, live_key, partition_step, partition_from,
  partition_changelog,
}
use musefs.Core.RefreshDiff.Partition.{parts, partition_changelog-parts}

-- A cap of ten bytes, and an image of twelve that is let in alone.
first_image-Reaches : Reaches 10 (acquire (new 10) 12) (12 ∷ [])
unfolding admits new
first_image-Reaches =
    stepped (new 10) (acquire (new 10) 12) [] (12 ∷ []) started
      (acquired (new 10) [] 12 (omega arith) refl)

second_waits : admits (acquire (new 10) 12) 1 ≡ false
unfolding admits acquire new
second_waits = refl

in_flight-bound_example :
    ((acquire (new 10) 12).in_flight ≡ 12) × ((acquire (new 10) 12).in_flight ≤ max 10 12)
unfolding acquire new
in_flight-bound_example =
    in_flight-bound 10 (acquire (new 10) 12) (12 ∷ []) (omega arith) first_image-Reaches refl

-- A second producer is parked behind it, and woken when it is done.
abbrev parked_second : ByteBudget
parked_second = park (acquire (new 10) 12) 1

parked-Reaches : Reaches 10 parked_second (12 ∷ [])
parked-Reaches =
    stepped (acquire (new 10) 12) parked_second (12 ∷ []) (12 ∷ []) first_image-Reaches
      (parked (acquire (new 10) 12) (12 ∷ []) 1 second_waits)

waiting-refused_example : All (λ n. admits parked_second n ≡ false) (1 ∷ [])
unfolding park acquire new
waiting-refused_example = waiting-refused 10 parked_second (12 ∷ []) parked-Reaches refl

emptied-Reaches : Reaches 10 (release parked_second 12) []
emptied-Reaches =
    stepped parked_second (release parked_second 12) (12 ∷ []) [] parked-Reaches
      (released parked_second [] [] 12)

woken_second : (release parked_second 12).woken ≡ 1 ∷ []
unfolding release notify_all requeue park acquire new
woken_second = refl

waiting-when_idle_example :
    ((release parked_second 12).waiting ≡ []) × (admits (release parked_second 12) 1 ≡ true)
unfolding release notify_all requeue park acquire new
waiting-when_idle_example =
    waiting-when_idle 10 (release parked_second 12) [] 1 (omega arith) emptied-Reaches refl
      (inl refl)

-- Tracks 1 and 2 are known; 1 has a new version, 2 is gone, 3 is new, 4 came and went.
abbrev prev_states : ℤ → Option TrackRenderState
prev_states id =
    if id ==ℤ pos 1 || id ==ℤ pos 2
    then some (record { content_version = pos 4; format = flac; path = [] })
    else none

abbrev keys : List (ℤ × ℤ × Format)
keys = (pos 1, pos 5, flac) ∷ (pos 3, pos 1, mp3) ∷ []

abbrev read_ids : List ℤ
read_ids = pos 1 ∷ pos 2 ∷ pos 3 ∷ pos 4 ∷ []

read_partitioned :
    partition_changelog prev_states read_ids keys
    ≡ record { changed = pos 1 ∷ []; added = pos 3 ∷ []; removed = pos 2 ∷ [] }
unfolding partition_changelog partition_from partition_step live_key same_format
read_partitioned = refl

partition_changelog-parts_example :
    partition_changelog prev_states read_ids keys
    ≡ parts prev_states keys (record { changed = []; added = []; removed = [] }) read_ids
partition_changelog-parts_example = partition_changelog-parts prev_states keys read_ids
