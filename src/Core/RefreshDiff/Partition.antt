-- ===== src/Core/RefreshDiff/Partition.antt =====
-- The three parts of a changelog read.
use musefs.Base.{
  ◌≡◌, sym, ap, ◌∙◌, inl, inr, Bool, Bool-cases, true, false, not, ◌||◌, Option, none, some, List,
  [], ◌∷◌, ◌++◌, append-nil, append_assoc, if◌then◌else◌,
}
use musefs.Base.Int.{ℤ, ◌==ℤ◌}
use musefs.Core.RefreshDiff.{
  Format, same_format, TrackRenderState, ChangeSet, live_key, partition_step, partition_from,
  partition_changelog,
}

abbrev pub filter {ℓ} : {A : Type ℓ} → (A → Bool) → List A → List A
filter keeps [] = []
filter keeps (x ∷ xs) = if keeps x then x ∷ filter keeps xs else filter keeps xs

-- Live and known before, with another version or format.
abbrev pub is_changed : Option (ℤ × Format) → Option TrackRenderState → Bool
is_changed (some (cv, f)) (some s) = not (s.content_version ==ℤ cv) || not (same_format s.format f)
is_changed (some key) none = false
is_changed none s = false

-- Live, and not known before.
abbrev pub is_added : Option (ℤ × Format) → Option TrackRenderState → Bool
is_added (some key) none = true
is_added (some key) (some s) = false
is_added none s = false

-- Known before, and no longer live.
abbrev pub is_removed : Option (ℤ × Format) → Option TrackRenderState → Bool
is_removed none (some s) = true
is_removed none none = false
is_removed (some key) s = false

abbrev only : Bool → ℤ → List ℤ
only true id = id ∷ []
only false id = []

-- What one id adds to each part.
abbrev joined : ChangeSet → Bool → Bool → Bool → ℤ → ChangeSet
joined cs c a r id = record {
  changed = cs.changed ++ only c id;
  added = cs.added ++ only a id;
  removed = cs.removed ++ only r id;
}

joined-none : (cs : ChangeSet) (id : ℤ) → cs ≡ joined cs false false false id
joined-none cs id = λ k. record {
  changed = sym (append-nil cs.changed) k;
  added = sym (append-nil cs.added) k;
  removed = sym (append-nil cs.removed) k;
}

partition_step-joined :
    (cs : ChangeSet) (id : ℤ) (l : Option (ℤ × Format)) (p : Option TrackRenderState)
    → partition_step cs id l p ≡ joined cs (is_changed l p) (is_added l p) (is_removed l p) id
unfolding partition_step
partition_step-joined cs id none none = joined-none cs id
partition_step-joined cs id none (some s) = λ k. record {
  changed = sym (append-nil cs.changed) k;
  added = sym (append-nil cs.added) k;
  removed = cs.removed ++ (id ∷ []);
}
partition_step-joined cs id (some key) none = λ k. record {
  changed = sym (append-nil cs.changed) k;
  added = cs.added ++ (id ∷ []);
  removed = sym (append-nil cs.removed) k;
}
partition_step-joined cs id (some (cv, f)) (some s) =
    elim (Bool-cases (is_changed (some (cv, f)) (some s))) [
      | inr same ↦ rw (partition_step, same) (joined-none cs id)
      | inl other ↦
          rw (partition_step, other)
            (λ k. record {
              changed = cs.changed ++ (id ∷ []);
              added = sym (append-nil cs.added) k;
              removed = sym (append-nil cs.removed) k;
            })
    ]

append-only :
    (keeps : ℤ → Bool) (xs : List ℤ) (id : ℤ) (ids : List ℤ)
    → (xs ++ only (keeps id) id) ++ filter keeps ids ≡ xs ++ filter keeps (id ∷ ids)
append-only keeps xs id ids = elim (Bool-cases (keeps id)) [
  | inl kept ↦ rw kept (append_assoc xs (id ∷ []) (filter keeps ids))
  | inr dropped ↦ rw dropped (ap (λ t. t ++ filter keeps ids) (append-nil xs))
]

module _ (prev_states : ℤ → Option TrackRenderState) (keys : List (ℤ × ℤ × Format)) where
  abbrev pub parts : ChangeSet → List ℤ → ChangeSet
  parts cs ids = record {
    changed = cs.changed ++ filter (λ id. is_changed (live_key keys id) (prev_states id)) ids;
    added = cs.added ++ filter (λ id. is_added (live_key keys id) (prev_states id)) ids;
    removed = cs.removed ++ filter (λ id. is_removed (live_key keys id) (prev_states id)) ids;
  }

  partition_from-parts :
      (cs : ChangeSet) (ids : List ℤ) → partition_from prev_states keys cs ids ≡ parts cs ids
  unfolding partition_from partition_step
  partition_from-parts cs [] = λ k. record {
    changed = sym (append-nil cs.changed) k;
    added = sym (append-nil cs.added) k;
    removed = sym (append-nil cs.removed) k;
  }
  partition_from-parts cs (id ∷ ids) =
      let l = live_key keys id in
      let p = prev_states id in
      let c = λ (x : ℤ). is_changed (live_key keys x) (prev_states x) in
      let a = λ (x : ℤ). is_added (live_key keys x) (prev_states x) in
      let r = λ (x : ℤ). is_removed (live_key keys x) (prev_states x) in
      partition_from-parts (partition_step cs id l p) ids
      ∙ ap (λ t. parts t ids) (partition_step-joined cs id l p)
      ∙ λ k. record {
        changed = append-only c cs.changed id ids k;
        added = append-only a cs.added id ids k;
        removed = append-only r cs.removed id ids k;
      }

  -- The loop returns three filters of the changelog, in its order: the ids that are live and known
  -- with another version or format, those that are live and new, and those known and no longer live.
  pub partition_changelog-parts :
      (ids : List ℤ)
      → partition_changelog prev_states ids keys
        ≡ parts (record { changed = []; added = []; removed = [] }) ids
  unfolding partition_changelog
  partition_changelog-parts ids =
      partition_from-parts (record { changed = []; added = []; removed = [] }) ids
