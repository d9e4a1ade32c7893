-- ===== src/Core/Reader/Guards.antt =====
-- The stateless read: its guards on the stamp and the content version, and what it serves behind them.
use musefs.Base.{
  ℕ, ◌+◌, ◌-◌, ◌≤◌, ◌≡◌, refl, sym, ap, ◌∙◌, ◌⊎◌, inl, inr, Bool, true, false, Bool-cases, fun_ext,
  subst, ◌||◌, List, [], ◌∷◌, ◌++◌, All, max, min, leb, ◌==◌, arith,
}
use musefs.Base.Slices.{slice}
use musefs.Base.Words.{Bytes, u64_max, saturating_add_u64}
use musefs.Base.Results.{Result, Result-cases, ok, err, ok-inj}
use musefs.Format.Layout.{
  Segment, inline, backing_audio, ogg_audio, seg_len, is_audio, any_segment, RegionLayout, validate,
  streams_db_rowid,
}
use musefs.Format.Layout.Validity.{total}
use musefs.Core.Freshness.{same_stamp_iff}
use musefs.Core.Reader.{
  ServeError, Sources, Given, ResolvedFile, Environment, read_segment, read_overlap, read_loop,
  read_segments_into, needs_file, check_backing, check_version, read_at_into, Track, from_track,
  finish_build,
}
use musefs.Core.Reader.Rendering.{Contents, Provides, render, IsAvailable}
use musefs.Core.Reader.Splice.{Returns, both, read_segments_into-Returns}

or-true : (a : Bool) → (a || true) ≡ true
or-true true = refl
or-true false = refl

-- The optional arguments that the stateless read passes.
abbrev given_for : RegionLayout → Given
given_for layout = record { db = true; backing = needs_file layout }

module _ {S : Type 0} (src : Sources S) where
  read_segment-given :
      (given : Given) (s : Segment) (within n : ℕ) (st : S)
      → given.db ≡ true
      → (is_audio s ≡ true → given.backing ≡ true)
      → read_segment src given s within n st ≡ read_segment src both s within n st
  unfolding read_segment is_audio
  read_segment-given given (inline b) within n st d b' = refl
  read_segment-given given (backing_audio o l) within n st d b = rw (b refl)
  read_segment-given given (ogg_audio o l e) within n st d b = rw (b refl)
  read_segment-given given s within n st d b = rw d

  read_overlap-given :
      (given : Given) (s : Segment) (seg_start offset end : ℕ) (st : S)
      → given.db ≡ true
      → (is_audio s ≡ true → given.backing ≡ true)
      → read_overlap src given s seg_start offset end st
        ≡ read_overlap src both s seg_start offset end st
  unfolding read_overlap
  read_overlap-given given s seg_start offset end st d b = rw (
      read_segment-given given s (max offset seg_start - seg_start)
        (min end (seg_start + seg_len s) - max offset seg_start) st d b)

  -- The rest of a round, once the segment is read; the loop goes on with `k`.
  abbrev round :
      ℕ
      → ℕ
      → Bytes
      → Result ServeError Bytes × S
      → (Bytes → S → Result ServeError Bytes × S)
      → Result ServeError Bytes × S
  round end seg_end out r k = elim r.0 [
    | err e ↦ (err e, r.1)
    | ok bytes ↦ elim (leb end seg_end) [
      | true ↦ (ok (out ++ bytes), r.1)
      | false ↦ k (out ++ bytes) r.1
    ]
  ]

  read_loop-given :
      (given : Given) (ss : List Segment) (seg_start offset end : ℕ) (out : Bytes) (st : S)
      → given.db ≡ true
      → (any_segment is_audio ss ≡ true → given.backing ≡ true)
      → read_loop src given ss seg_start offset end out st
        ≡ read_loop src both ss seg_start offset end out st
  unfolding read_loop any_segment
  read_loop-given given [] seg_start offset end out st d b = refl
  read_loop-given given (s ∷ ss) seg_start offset end out st d b =
      ap
        (λ r.
          round end (seg_start + seg_len s) out r
            (λ out' st'. read_loop src given ss (seg_start + seg_len s) offset end out' st'))
        (read_overlap-given given s seg_start offset end st d (λ e. b (rw e)))
      ∙ ap
          (λ k.
            round end (seg_start + seg_len s) out (read_overlap src both s seg_start offset end st)
              k)
          (fun_ext λ out'. fun_ext λ st'.
            read_loop-given given ss (seg_start + seg_len s) offset end out' st' d
              (λ e. b (rw e (or-true (is_audio s)))))

  read_segments_into-given :
      (resolved : ResolvedFile) (offset size : ℕ) (st : S)
      → read_segments_into src (given_for resolved.layout) resolved offset size st
        ≡ read_segments_into src both resolved offset size st
  unfolding read_segments_into needs_file
  read_segments_into-given resolved offset size st = rw (
      read_loop-given (given_for resolved.layout) resolved.layout.segments 0 offset
        (min (saturating_add_u64 offset size) resolved.total_len) [] st refl (λ e. e))

-- What the stateless read has checked when it serves a byte.
pub record IsFresh (env : Environment) (resolved : ResolvedFile) : Type 0 where
  pub stamp : needs_file resolved.layout ≡ true → env.open_stamp ≡ ok resolved.stamp
  pub version :
      resolved.streams_db_rowid ≡ true
      → env.track_content_version resolved.track_id ≡ ok resolved.content_version

check_backing-ok :
    (env : Environment) (resolved : ResolvedFile)
    → check_backing env resolved ≡ ok tt
    → needs_file resolved.layout ≡ true
    → env.open_stamp ≡ ok resolved.stamp
unfolding check_backing
check_backing-ok env resolved h needs = elim (Result-cases env.open_stamp) [
  | inl (found, e) ↦ ground (arith, (same_stamp_iff found resolved.stamp).0)
  | inr (x, e) ↦ ground arith
]

check_version-ok :
    (env : Environment) (resolved : ResolvedFile)
    → check_version env resolved ≡ ok tt
    → resolved.streams_db_rowid ≡ true
    → env.track_content_version resolved.track_id ≡ ok resolved.content_version
unfolding check_version
check_version-ok env resolved h streams = ground arith

either : {P : Type 0} (t : Bool) → (t ≡ true → P) → (t ≡ false) ⊎ P
either false f = inl refl
either true f = inr (f refl)

module _ {S : Type 0} (env : Environment) (src : Sources S) where
  served-IsFresh :
      (resolved : ResolvedFile) (offset size : ℕ) (st : S) (b : ℕ) (bytes : Bytes)
      → (read_at_into env src resolved offset size st).0 ≡ ok (b ∷ bytes)
      → IsFresh env resolved
  unfolding read_at_into
  served-IsFresh resolved offset size st b bytes h =
      elim (Bool-cases (leb resolved.total_len offset || size == 0)) [
        | inl nothing ↦ cc (rw nothing at h)
        | inr asked ↦ elim (Result-cases (check_backing env resolved)) [
          | inr (x, refused) ↦ cc (rw (asked, refused, read_at_into) at h)
          | inl (u, backed) ↦ elim (Result-cases (check_version env resolved)) [
            | inr (x, refused) ↦ cc (rw (asked, backed, refused, read_at_into) at h)
            | inl (v, versioned) ↦ record {
              stamp = check_backing-ok env resolved backed;
              version = check_version-ok env resolved versioned;
            }
          ]
        ]
      ]

  -- A stateless read of a file as `HeaderCache::build` resolves it returns a byte only where the
  -- backing stamp equals the track's, if the layout has an audio segment, and where the live content
  -- version equals the track's, if the layout has a segment of a database row.
  pub read_at_into-IsFresh :
      (track : Track) (layout : RegionLayout) (total_len : ℕ) (resolved : ResolvedFile)
      → finish_build track layout total_len ≡ ok resolved
      → (offset size : ℕ) (st : S) (b : ℕ) (bytes : Bytes)
      → (read_at_into env src resolved offset size st).0 ≡ ok (b ∷ bytes)
      → ((needs_file layout ≡ false) ⊎ (env.open_stamp ≡ ok (from_track track)))
        × ((streams_db_rowid layout ≡ false)
            ⊎ (env.track_content_version track.id ≡ ok track.content_version))
  unfolding finish_build
  read_at_into-IsFresh track layout total_len resolved built offset size st b bytes h =
      elim (Result-cases (validate layout)) [
        | inr (e, bad) ↦ cc (rw (finish_build, bad) at built)
        | inl (u, sound) ↦
            let same = ok-inj (rw (finish_build, sound) at built) in
            let f = served-IsFresh _ offset size st b bytes (rw (← same) at h) in
            (either (needs_file layout) f.stamp, either (streams_db_rowid layout) f.version)
      ]

  check_backing-fresh :
      (resolved : ResolvedFile) → IsFresh env resolved → check_backing env resolved ≡ ok tt
  unfolding check_backing
  check_backing-fresh resolved f = elim (Bool-cases (needs_file resolved.layout)) [
    | inl needs ↦
        rw (needs, f.stamp needs, check_backing)
          (rw ((same_stamp_iff resolved.stamp resolved.stamp).1 refl))
    | inr free ↦ rw free
  ]

  check_version-fresh :
      (resolved : ResolvedFile)
      → env.begin_read ≡ ok tt
      → IsFresh env resolved
      → check_version env resolved ≡ ok tt
  unfolding check_version
  check_version-fresh resolved begun f = elim (Bool-cases resolved.streams_db_rowid) [
    | inl streams ↦ ground (arith, f.version streams)
    | inr free ↦ rw free
  ]

module _ {S : Type 0} (env : Environment) (src : Sources S) (c : Contents) (Good : S → Type 0)
    (p : Provides src c Good) where
  -- The stateless read serves: where the stamp and the content version match and the snapshot opens,
  -- it returns exactly the asked range of the rendered file, and none of the `expect`s on its optional
  -- arguments panics. The sources have to hold what the segments name, and the stored length to be the
  -- sum of the segments' lengths, within 64 bits.
  pub read_at_into-Returns :
      (resolved : ResolvedFile) (offset size : ℕ) (st : S)
      → All (IsAvailable src.base64 c) resolved.layout.segments
      → resolved.total_len ≡ total resolved.layout.segments
      → total resolved.layout.segments ≤ u64_max
      → Good st
      → IsFresh env resolved
      → env.begin_read ≡ ok tt
      → Returns Good
          (read_at_into env src resolved offset size st)
          (slice (render src.base64 c resolved.layout.segments) offset size)
  unfolding read_at_into
  read_at_into-Returns resolved offset size st h whole word g f begun =
      let direct = read_segments_into-Returns src c Good p resolved offset size st h whole word g in
      elim (Bool-cases (leb resolved.total_len offset || size == 0)) [
        | inl nothing ↦ rw nothing (unfold read_segments_into in rw nothing at direct)
        | inr asked ↦
            rw
              (
                asked,
                check_backing-fresh env src resolved f,
                check_version-fresh env src resolved begun f,
                read_at_into,
              )
              (subst
                (λ r.
                  Returns Good r (slice (render src.base64 c resolved.layout.segments) offset size))
                (sym (read_segments_into-given src resolved offset size st)) direct)
      ]
