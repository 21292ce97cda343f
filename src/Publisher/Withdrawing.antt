-- ===== src/Publisher/Withdrawing.antt =====
-- Retirements of internal/hamqtt/publisher.go leave the messages of the other entities, and so a run of passes
-- and retirements keeps the map `announced` a record of what the broker retains.
use rig_exporter.Base.{
  ◌≡◌, inl, inr, sym, Bool, true, false, not, ◌&&◌, List, [], ◌∷◌, ◌++◌, arith, if◌then◌else◌,
  Bool-cases, All,
}
use mathlib.Core.Path.{subst}
use rig_exporter.Base.Unicode.{list_eq, list_eq_sound, list_eq_refl}
use rig_exporter.Config.{Config}
use rig_exporter.Config.Topics.{discovery_topic-injective}
use rig_exporter.Publisher.Broker.{Text, Event, retained, EntityRef, Publisher, publish}
use rig_exporter.Publisher.Updates.{Setup, is_current}
use rig_exporter.Publisher.Entities.{
  Entity, delete_key, topic_of, topics_of, clear_topics, announce_new, delete_refs, retire,
  unselected, retire_unselected,
}
use rig_exporter.Publisher.Sent.{any_topics-Untouched}
use rig_exporter.Publisher.Retaining.{Spares}
use rig_exporter.Publisher.Recording.{
  text_of, IsProper, Held, AllSpared, call-Held, delete_key-Held, Recorded, same-Recorded, IsEntity,
  announce_new-Recorded,
}

-- No reference of the list has the key.
abbrev Without : Text → List EntityRef → Type 0
Without k [] = Unit
Without k (r ∷ rs) = (list_eq k r.key ≡ false) × Without k rs

Without-delete_key : (k : Text) (rs : List EntityRef) → Without k (delete_key k rs)
Without-delete_key k [] = tt
Without-delete_key k (r ∷ rs) =
    let rest = Without-delete_key k rs in
    elim (Bool-cases (list_eq k r.key)) [ inl e ↦ rw e rest | inr e ↦ rw e (e, rest) ]

delete_key-Without : (k d : Text) (rs : List EntityRef) → Without k rs → Without k (delete_key d rs)
delete_key-Without k d [] h = tt
delete_key-Without k d (r ∷ rs) h =
    let rest = delete_key-Without k d rs h.1 in
    elim (Bool-cases (list_eq d r.key)) [ inl e ↦ rw e rest | inr e ↦ rw e (h.0, rest) ]

delete_refs-Without :
    (k : Text) (refs rs : List EntityRef) → Without k rs → Without k (delete_refs refs rs)
delete_refs-Without k [] rs h = h
delete_refs-Without k (d ∷ refs) rs h =
    delete_refs-Without k refs (delete_key d.key rs) (delete_key-Without k d.key rs h)

deleted-Without : (refs rs : List EntityRef) → All (λ d. Without d.key (delete_refs refs rs)) refs
deleted-Without [] rs = tt
deleted-Without (d ∷ refs) rs = (
  delete_refs-Without d.key refs (delete_key d.key rs) (Without-delete_key d.key rs),
  deleted-Without refs (delete_key d.key rs),
)

module _ (c : Config) (is_key : Text → Bool) where
  delete_refs-Held :
      (refs : List EntityRef) (log : List Event) (rs : List EntityRef)
      → Held c is_key log rs
      → Held c is_key log (delete_refs refs rs)
  delete_refs-Held [] log rs h = h
  delete_refs-Held (d ∷ refs) log rs h =
      delete_refs-Held refs log (delete_key d.key rs) (delete_key-Held c is_key d.key log rs h)

  other-Spares :
      (r d : EntityRef)
      → IsProper is_key r
      → IsProper is_key d
      → list_eq d.key r.key ≡ false
      → Spares (text_of c r) (retained (topic_of c d) [])
  other-Spares r d hr hd n = elim (Bool-cases (list_eq (text_of c r) (text_of c d))) [
    | inl e ↦
        let same =
          discovery_topic-injective c r.component d.component r.key d.key hr.component hd.component
            hr.key hd.key (list_eq_sound (text_of c r) (text_of c d) e) in
        ground (arith, subst (λ k. list_eq d.key k ≡ true) (sym same.1) (list_eq_refl d.key))
    | inr e ↦ ground arith
  ]

  Without-AllSpared :
      (d : EntityRef) (log : List Event) (rs : List EntityRef)
      → IsProper is_key d
      → Without d.key rs
      → Held c is_key log rs
      → AllSpared c is_key (retained (topic_of c d) []) rs
  Without-AllSpared d log [] hd w h = tt
  Without-AllSpared d log (r ∷ rs) hd w h =
      (other-Spares r d h.0 hd w.0, Without-AllSpared d log rs hd w.1 h.2)

  clear_refs-Held :
      (refs : List EntityRef) (p : Publisher) (rs : List EntityRef)
      → All (IsProper is_key) refs
      → All (λ d. Without d.key rs) refs
      → Held c is_key p.log rs
      → Held c is_key (clear_topics (topics_of c refs) p).1.log rs
  unfolding clear_topics
  clear_refs-Held [] p rs a w h = h
  clear_refs-Held (d ∷ refs) p rs a w h =
      clear_refs-Held refs (publish (topic_of c d) [] p).1 rs a.1 w.1 (
        call-Held c is_key (retained (topic_of c d) []) p rs
          (Without-AllSpared d p.log rs a.0 w.0 h) h)

  unselected-IsProper :
      (selected : Text → Bool) (log : List Event) (rs : List EntityRef)
      → Held c is_key log rs
      → All (IsProper is_key) (unselected selected rs)
  unselected-IsProper selected log [] h = tt
  unselected-IsProper selected log (r ∷ rs) h =
      let rest = unselected-IsProper selected log rs h.2 in
      elim (Bool-cases (not (list_eq r.def_id []) && not (selected r.def_id))) [
        | inl e ↦ rw e (h.0, rest)
        | inr e ↦ rw e rest
      ]

-- One thing that is done about the entities.
pub data Edit : Type 0 where
  passes : (Text → Bool) → List Entity → Edit
  retires : List EntityRef → Edit
  narrows : (Text → Bool) → Edit

unfoldable pub edit : Setup → Edit → Publisher → Publisher
unfolding announce_new retire retire_unselected
edit s (passes selected es) p = (announce_new s selected es p).1
edit s (retires refs) p = retire s refs p
edit s (narrows selected) p = retire_unselected s selected p

unfoldable pub edit_all : Setup → List Edit → Publisher → Publisher
unfolding edit
edit_all s [] p = p
edit_all s (e ∷ es) p = edit_all s es (edit s e p)

-- What an edit names are entities of now.
abbrev pub IsEdit : Setup → (Text → Bool) → Edit → Type 0
IsEdit s is_key (passes selected es) = All (IsEntity s.cfg is_key) es
IsEdit s is_key (retires refs) = All (IsProper is_key) refs
IsEdit s is_key (narrows selected) = Unit

module _ (s : Setup) (is_key : Text → Bool) where
  if-Recorded :
      (b : Bool) (p q : Publisher)
      → Recorded s.cfg is_key p
      → Recorded s.cfg is_key q
      → Recorded s.cfg is_key (if b then p else q)
  if-Recorded true p q h k = h
  if-Recorded false p q h k = k

  retire-Recorded :
      (refs : List EntityRef) (p : Publisher)
      → All (IsProper is_key) refs
      → Recorded s.cfg is_key p
      → Recorded s.cfg is_key (retire s refs p)
  unfolding retire
  retire-Recorded refs p a h =
      let left = delete_refs refs p.announced in
      let q = record p { announced = left } in
      let ts = topics_of s.cfg refs in
      let kept = delete_refs-Held s.cfg is_key refs p.log p.announced h in
      if-Recorded (not (is_current p)) (record q { pending_retire = p.pending_retire ++ refs })
        (clear_topics ts q).1 kept
        (same-Recorded s.cfg is_key (clear_topics ts q).1 left (any_topics-Untouched ts q).announced
          (clear_refs-Held s.cfg is_key refs q left a (deleted-Without refs p.announced) kept))

  edit-Recorded :
      (e : Edit) (p : Publisher)
      → IsEdit s is_key e
      → Recorded s.cfg is_key p
      → Recorded s.cfg is_key (edit s e p)
  unfolding edit retire_unselected
  edit-Recorded (passes selected es) p a h = announce_new-Recorded s is_key selected es p a h
  edit-Recorded (retires refs) p a h = retire-Recorded refs p a h
  edit-Recorded (narrows selected) p a h =
      retire-Recorded (unselected selected p.announced) p
        (unselected-IsProper s.cfg is_key selected p.log p.announced h) h

  -- Whatever calls fail, time out or lose the connection: after any run of announcing passes, retirements and
  -- narrowed selections, the broker retains a discovery message for every entity in the publisher's record, if
  -- it did before; so RetireUnselected, which goes by that record, names only entities that are there. The
  -- components and keys have no slash, no payload is empty, and no earlier name of an entity is one of now.
  pub edit_all-Recorded :
      (es : List Edit) (p : Publisher)
      → All (IsEdit s is_key) es
      → Recorded s.cfg is_key p
      → Recorded s.cfg is_key (edit_all s es p)
  unfolding edit_all
  edit_all-Recorded [] p a h = h
  edit_all-Recorded (e ∷ es) p a h = edit_all-Recorded es (edit s e p) a.1 (edit-Recorded e p a.0 h)
