-- ===== src/Publisher/Offering.antt =====
-- The update channel of internal/hamqtt/publisher.go offers nothing that nobody would answer, whatever fails.
use rig_exporter.Base.{
  ℕ, zero, suc, ◌≡◌, inl, inr, refl, Bool, true, false, not, ◌&&◌, ◌||◌, arith, ltb, ◌==◌,
  if◌then◌else◌, Bool-cases,
}
use rig_exporter.Base.Unicode.{list_eq}
use rig_exporter.Publisher.Broker.{
  Text, update_state, Event, retained, Publisher, ◌>>◌, call, publish,
}
use rig_exporter.Publisher.Updates.{
  Setup, Sync, is_current, publish_update_availability, ensure_common_availability,
  subscribe_updates, forget_announcements, set_published, publish_generation, announce_update,
  announce_hidden, update_topic, set_announced, finished, exhausted, finish, continue, sync_loop,
  first_state, sync_update_channel,
}
use rig_exporter.Publisher.Guarding.{
  Guarded, Ends, Ends-proceed, call-Ends, Ends-if, quiet-Guarded, IsQuiet,
}
use rig_exporter.Publisher.Availability.{
  Told, publish_update_availability-Ends, Ready, ensure_common_availability-Ends, Listening,
  subscribe_updates-Ends,
}

-- Nothing more than the invariant is known of the end.
abbrev AnyEnd : Publisher → Type 0
AnyEnd p = Unit

quiet-Ends : (e : Event) (p : Publisher) → IsQuiet e → Guarded p → Ends AnyEnd (call e p)
quiet-Ends e p q h = call-Ends AnyEnd e p h (quiet-Guarded e p q h) (λ a. tt)

publish_generation-Ends : (p : Publisher) → Guarded p → Ends AnyEnd (publish_generation p)
unfolding publish_generation
publish_generation-Ends p h =
    Ends-proceed (Told false p) AnyEnd
      (publish update_state p.update_payload >> set_published p.generation)
      (publish_update_availability false p) (publish_update_availability-Ends false p refl h)
      (λ q g t.
        Ends-proceed AnyEnd AnyEnd (set_published p.generation)
          (call (retained update_state p.update_payload) q)
          (quiet-Ends (retained update_state p.update_payload) q tt g) (λ r k u. (k, tt)))

announce_update-Ends : (s : Setup) (p : Publisher) → Guarded p → Ends AnyEnd (announce_update s p)
unfolding announce_update
announce_update-Ends s p h =
    Ends-if AnyEnd (not p.update_subscribed) (false, p) _ (λ b. h)
      (λ b.
        Ends-if AnyEnd p.update_announced (true, p) _ (λ d. (h, tt))
          (λ d.
            Ends-proceed AnyEnd AnyEnd set_announced
              (call (retained (update_topic s) (s.update_discovery s.web_url)) p)
              (quiet-Ends (retained (update_topic s) (s.update_discovery s.web_url)) p tt h)
              (λ r k u. (k, tt))))

announce_hidden-Ends : (s : Setup) (p : Publisher) → Guarded p → Ends AnyEnd (announce_hidden s p)
unfolding announce_hidden
announce_hidden-Ends s p h =
    Ends-proceed (Told false p) AnyEnd (announce_update s) (publish_update_availability false p)
      (publish_update_availability-Ends false p refl h) (λ q g t. announce_update-Ends s q g)

-- The publisher at the end of a synchronisation.
abbrev pub end_of : Sync → Publisher
end_of (finished b p) = p
end_of (exhausted p) = p

continue-Guarded :
    (loop : Publisher → Sync) (Q : Publisher → Type 0) (r : Bool × Publisher)
    → Ends Q r
    → ((p : Publisher) → Guarded p → Q p → Guarded (end_of (loop p)))
    → Guarded (end_of (continue loop r))
continue-Guarded loop Q (true, p) h k = k p h.0 h.1
continue-Guarded loop Q (false, p) h k = h

finish-Guarded :
    (Q : Publisher → Type 0) (r : Bool × Publisher) → Ends Q r → Guarded (end_of (finish r))
finish-Guarded Q (true, p) h = h.0
finish-Guarded Q (false, p) h = h

end_of-if :
    (b : Bool) (r t : Sync)
    → (b ≡ true → Guarded (end_of r))
    → (b ≡ false → Guarded (end_of t))
    → Guarded (end_of (if b then r else t))
end_of-if true r t h k = h refl
end_of-if false r t h k = k refl

sync_loop-Guarded :
    (s : Setup) (rounds : ℕ) (p : Publisher) → Guarded p → Guarded (end_of (sync_loop s rounds p))
unfolding sync_loop
sync_loop-Guarded s zero p h = h
sync_loop-Guarded s (suc rounds) p h =
    let again = λ (q : Publisher) (g : Guarded q) (u : AnyEnd q). sync_loop-Guarded s rounds q g in
    end_of-if (not (is_current p && p.update_subscribed)) (finished true p) _ (λ c. h)
      (λ c.
        end_of-if (ltb p.published p.generation) _ _
          (λ b.
            continue-Guarded (sync_loop s rounds) AnyEnd (publish_generation p)
              (publish_generation-Ends p h) again)
          (λ b.
            end_of-if (not p.update_announced) _ _
              (λ a.
                continue-Guarded (sync_loop s rounds) AnyEnd (announce_hidden s p)
                  (announce_hidden-Ends s p h) again)
              (λ a.
                finish-Guarded (Told true p) (publish_update_availability true p)
                  (publish_update_availability-Ends true p (ground arith) h))))

forget-Guarded : (url : Text) (p : Publisher) → Guarded p → Guarded (forget_announcements url p)
unfolding forget_announcements
forget-Guarded url p h = elim (Bool-cases (list_eq url p.announced_url)) [
  | inl e ↦ rw e h
  | inr e ↦ rw e h
]

first_state-Guarded : (s : Setup) (p : Publisher) → Guarded p → Guarded (first_state s p)
unfolding first_state
first_state-Guarded s p h = elim (Bool-cases (p.generation == 0)) [
  | inl e ↦ rw e h
  | inr e ↦ rw e h
]

pub sync-Guarded :
    (s : Setup) (rounds : ℕ) (p : Publisher)
    → Guarded p
    → Guarded (end_of (sync_update_channel s rounds p))
unfolding sync_update_channel
sync-Guarded s rounds p h =
    end_of-if (not s.has_updates || not (is_current p)) (finished true p) _ (λ c. h)
      (λ c.
        continue-Guarded
          (λ q. sync_loop s rounds (first_state s (forget_announcements s.web_url q))) Listening
          ((ensure_common_availability >> subscribe_updates) p)
          (Ends-proceed Ready Listening subscribe_updates (ensure_common_availability p)
            (ensure_common_availability-Ends p h) (λ q g r. subscribe_updates-Ends q r g))
          (λ q g l.
            sync_loop-Guarded s rounds _ (first_state-Guarded s _ (forget-Guarded s.web_url q g))))
