-- ===== src/Core/RefreshDiff.antt =====
-- musefs-core/src/refresh_diff.rs: a changelog read split into what to render, add and drop. The map
-- of previous states is a function; the map of live keys is the list it is collected from, where a
-- later entry of the same id wins.
pub mod Partition
use musefs.Base.{
  ℕ, Bool, true, false, not, ◌||◌, Option, none, some, List, [], ◌∷◌, ◌++◌, ◌==◌, if◌then◌else◌,
}
use musefs.Base.Int.{ℤ, ◌==ℤ◌}
use musefs.Base.Words.{Bytes}

-- musefs-db/src/models.rs
pub data Format : Type 0 where
  flac mp3 m4a opus vorbis ogg_flac wav : Format

abbrev discriminant : Format → ℕ
discriminant flac = 0
discriminant mp3 = 1
discriminant m4a = 2
discriminant opus = 3
discriminant vorbis = 4
discriminant ogg_flac = 5
discriminant wav = 6

-- The derived `PartialEq`.
unfoldable pub same_format : Format → Format → Bool
same_format a b = discriminant a == discriminant b

pub record TrackRenderState : Type 0 where
  pub content_version : ℤ
  pub format : Format
  pub path : Bytes

pub record ChangeSet : Type 0 where
  pub changed : List ℤ
  pub added : List ℤ
  pub removed : List ℤ

-- The render key of an id: its version and format.
unfoldable pub live_key : List (ℤ × ℤ × Format) → ℤ → Option (ℤ × Format)
live_key [] id = none
live_key ((key_id, cv, f) ∷ keys) id = elim (live_key keys id) [
  | some key ↦ some key
  | none ↦ if key_id ==ℤ id then some (cv, f) else none
]

abbrev push : List ℤ → ℤ → List ℤ
push ids id = ids ++ (id ∷ [])

-- The body of the loop.
unfoldable pub partition_step :
    ChangeSet → ℤ → Option (ℤ × Format) → Option TrackRenderState → ChangeSet
partition_step cs id (some (cv, fmt)) (some s) =
    if not (s.content_version ==ℤ cv) || not (same_format s.format fmt)
    then record { changed = push cs.changed id; added = cs.added; removed = cs.removed }
    else cs
partition_step cs id (some key) none = record {
  changed = cs.changed;
  added = push cs.added id;
  removed = cs.removed;
}
partition_step cs id none (some s) = record {
  changed = cs.changed;
  added = cs.added;
  removed = push cs.removed id;
}
partition_step cs id none none = cs

unfoldable pub partition_from :
    (ℤ → Option TrackRenderState) → List (ℤ × ℤ × Format) → ChangeSet → List ℤ → ChangeSet
partition_from prev_states keys cs [] = cs
partition_from prev_states keys cs (id ∷ ids) =
    partition_from prev_states keys (partition_step cs id (live_key keys id) (prev_states id)) ids

unfoldable pub partition_changelog :
    (ℤ → Option TrackRenderState) → List ℤ → List (ℤ × ℤ × Format) → ChangeSet
partition_changelog prev_states changelog_ids keys =
    partition_from prev_states keys (record { changed = []; added = []; removed = [] })
      changelog_ids
