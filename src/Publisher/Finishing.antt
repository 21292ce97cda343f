-- ===== src/Publisher/Finishing.antt =====
-- The synchronisation of internal/hamqtt/publisher.go comes to an end: the updater may report a new state
-- during each call, but the rounds are no more than such calls, and three.
use rig_exporter.Base.{
  ℕ, zero, suc, ◌+◌, ◌≤◌, ◌<◌, ◌≡◌, inl, inr, refl, ap, Bool, true, false, not, ◌&&◌, ◌||◌, arith,
  ltb, if◌then◌else◌, length,
}
use rig_exporter.Publisher.Broker.{
  update_state, availability, update_command, Event, retained, subscribed, Publisher, Act, proceed,
  ◌>>◌, online, call, publish,
}
use rig_exporter.Publisher.Updates.{
  Setup, Sync, finished, exhausted, continue, finish, is_current, when_current,
  publish_update_availability, set_common, raise_common, ensure_common_availability, set_subscribed,
  subscribe_updates, forget_announcements, first_state, update_topic, set_announced,
  announce_update, set_published, publish_generation, announce_hidden, sync_loop,
  sync_update_channel,
}
use rig_exporter.Publisher.Progress.{
  Progress, call-Progress, Passes, Passes-of, Passes-trans, Passes-proceed, told-Passes,
}

abbrev one_if : Bool → ℕ
one_if b = if b then 1 else 0

-- The rounds that are left at most, beside the last.
abbrev rounds_left : Publisher → ℕ
rounds_left p =
    length p.replies + (one_if (ltb p.published p.generation) + one_if (not p.update_announced))

-- A round that goes on leaves fewer.
abbrev Shrinks : Publisher → Bool × Publisher → Type 0
Shrinks p (true, q) = q.is_connected ≡ true → rounds_left q < rounds_left p
Shrinks p (false, q) = Unit

published-Shrinks :
    (p : Publisher) (r : Bool × Publisher)
    → ltb p.published p.generation ≡ true
    → Passes p r
    → Shrinks p (proceed (set_published p.generation) r)
published-Shrinks p (false, q) h k = tt
published-Shrinks p (true, q) h k = λ c.
    let e = k.published c in
    let a = k.announced c in
    elim k.news [ inl g ↦ ground (arith, k.shorter) | inr l ↦ ground (arith, k.shorter) ]

proceed_assoc : (a b : Act) (r : Bool × Publisher) → proceed (a >> b) r ≡ proceed b (proceed a r)
proceed_assoc a b (true, q) = refl
proceed_assoc a b (false, q) = refl

generation-Shrinks :
    (p : Publisher) → ltb p.published p.generation ≡ true → Shrinks p (publish_generation p)
unfolding publish_generation
generation-Shrinks p h =
    let send = retained update_state p.update_payload in
    rw
      (proceed_assoc (publish update_state p.update_payload) (set_published p.generation)
        (publish_update_availability false p))
      (published-Shrinks p
        (proceed (publish update_state p.update_payload) (publish_update_availability false p)) h
        (Passes-proceed p (publish update_state p.update_payload)
          (publish_update_availability false p) (told-Passes false p)
          (λ q. Passes-of q (call send q) (call-Progress send q))))

announced-Shrinks :
    (p : Publisher) (r : Bool × Publisher)
    → ltb p.published p.generation ≡ false
    → p.update_announced ≡ false
    → Passes p r
    → Shrinks p (proceed set_announced r)
announced-Shrinks p (false, q) h a k = tt
announced-Shrinks p (true, q) h a k = λ c.
    let e = k.published c in
    elim k.news [ inl g ↦ ground (arith, k.shorter) | inr l ↦ ground (arith, k.shorter) ]

Shrinks-if :
    (p : Publisher) (b : Bool) (r t : Bool × Publisher)
    → (b ≡ true → Shrinks p r)
    → (b ≡ false → Shrinks p t)
    → Shrinks p (if b then r else t)
Shrinks-if p true r t h k = h refl
Shrinks-if p false r t h k = k refl

update-Shrinks :
    (s : Setup) (p q : Publisher)
    → ltb p.published p.generation ≡ false
    → p.update_announced ≡ false
    → Progress p q
    → Shrinks p (announce_update s q)
unfolding announce_update
update-Shrinks s p q h a k =
    let send = retained (update_topic s) (s.update_discovery s.web_url) in
    Shrinks-if p (not q.update_subscribed) (false, q) _ (λ b. tt)
      (λ b.
        Shrinks-if p q.update_announced (true, q) _ (λ d c. ground (arith, k.announced c))
          (λ d.
            announced-Shrinks p (call send q) h a (
              Passes-trans p q (call send q) k (Passes-of q (call send q) (call-Progress send q)))))

Shrinks-proceed :
    (p : Publisher) (b : Act) (r : Bool × Publisher)
    → Passes p r
    → ((q : Publisher) → Progress p q → Shrinks p (b q))
    → Shrinks p (proceed b r)
Shrinks-proceed p b (true, q) h k = k q h
Shrinks-proceed p b (false, q) h k = tt

hidden-Shrinks :
    (s : Setup) (p : Publisher)
    → ltb p.published p.generation ≡ false
    → p.update_announced ≡ false
    → Shrinks p (announce_hidden s p)
unfolding announce_hidden
hidden-Shrinks s p h a =
    Shrinks-proceed p (announce_update s) (publish_update_availability false p)
      (told-Passes false p) (λ q k. update-Shrinks s p q h a k)

abbrev pub IsFinished : Sync → Type 0
IsFinished (finished b p) = Unit
IsFinished (exhausted p) = ⊥

IsFinished-if :
    (b : Bool) (r t : Sync)
    → (b ≡ true → IsFinished r)
    → (b ≡ false → IsFinished t)
    → IsFinished (if b then r else t)
IsFinished-if true r t h k = h refl
IsFinished-if false r t h k = k refl

finish-IsFinished : (r : Bool × Publisher) → IsFinished (finish r)
finish-IsFinished (b, p) = tt

-- There are rounds for what is left, and always one more.
abbrev IsEnough : ℕ → Publisher → Type 0
IsEnough rounds q = (0 < rounds) × (q.is_connected ≡ true → rounds_left q < rounds)

continue-IsFinished :
    (rounds : ℕ) (loop : Publisher → Sync) (p : Publisher) (r : Bool × Publisher)
    → 0 < rounds
    → rounds_left p ≤ rounds
    → Shrinks p r
    → ((q : Publisher) → IsEnough rounds q → IsFinished (loop q))
    → IsFinished (continue loop r)
continue-IsFinished rounds loop p (true, q) z l h k = k q (z, λ c. omega (arith, h c))
continue-IsFinished rounds loop p (false, q) z l h k = tt

sync_loop-IsFinished :
    (s : Setup) (rounds : ℕ) (p : Publisher) → IsEnough rounds p → IsFinished (sync_loop s rounds p)
unfolding sync_loop
sync_loop-IsFinished s zero p h = ground arith
sync_loop-IsFinished s (suc rounds) p h =
    let again = λ (q : Publisher) (g : IsEnough rounds q). sync_loop-IsFinished s rounds q g in
    IsFinished-if (not (is_current p && p.update_subscribed)) (finished true p) _ (λ c. tt)
      (λ c.
        let enough : rounds_left p < suc rounds = h.1 (ground arith) in
        IsFinished-if (ltb p.published p.generation) _ _
          (λ b.
            continue-IsFinished rounds (sync_loop s rounds) p (publish_generation p) (ground arith)
              (omega arith) (generation-Shrinks p b) again)
          (λ b.
            IsFinished-if (not p.update_announced) _ _
              (λ a.
                continue-IsFinished rounds (sync_loop s rounds) p (announce_hidden s p)
                  (ground arith) (omega arith) (hidden-Shrinks s p b (ground arith)) again)
              (λ a. finish-IsFinished (publish_update_availability true p))))

-- A step takes no replies away that it does not use.
abbrev Uses : Publisher → Bool × Publisher → Type 0
Uses p (b, q) = length q.replies ≤ length p.replies

Uses-of : (p : Publisher) (r : Bool × Publisher) → Passes p r → Uses p r
Uses-of p (true, q) h = h.shorter
Uses-of p (false, q) h = h.shorter

Uses-proceed :
    (p : Publisher) (b : Act) (r : Bool × Publisher)
    → Uses p r
    → ((q : Publisher) → Uses q (b q))
    → Uses p (proceed b r)
Uses-proceed p b (true, q) h k = omega (arith, k q)
Uses-proceed p b (false, q) h k = h

Uses-if :
    (p : Publisher) (b : Bool) (r t : Bool × Publisher)
    → Uses p r
    → Uses p t
    → Uses p (if b then r else t)
Uses-if p true r t h k = h
Uses-if p false r t h k = k

call-Uses : (e : Event) (p : Publisher) → Uses p (call e p)
call-Uses e p = (call-Progress e p).shorter

common-Uses : (p : Publisher) → Uses p (ensure_common_availability p)
unfolding ensure_common_availability
common-Uses p =
    Uses-if p (not (is_current p)) (false, p) _ (omega arith)
      (Uses-if p p.common_available (true, p) _ (omega arith)
        (Uses-proceed p raise_common (publish_update_availability false p)
          (Uses-of p (publish_update_availability false p) (told-Passes false p))
          (λ q.
            Uses-proceed q (when_current set_common) (call (retained availability online) q)
              (call-Uses (retained availability online) q)
              (λ r.
                Uses-if r (is_current r) (true, set_common r) (false, r) (omega arith)
                  (omega arith)))))

subscribe-Uses : (p : Publisher) → Uses p (subscribe_updates p)
unfolding subscribe_updates
subscribe-Uses p =
    Uses-if p p.update_subscribed (true, p) _ (omega arith)
      (Uses-proceed p (call (subscribed update_command) >> when_current set_subscribed)
        (publish_update_availability false p)
        (Uses-of p (publish_update_availability false p) (told-Passes false p))
        (λ q.
          Uses-proceed q (when_current set_subscribed) (call (subscribed update_command) q)
            (call-Uses (subscribed update_command) q)
            (λ r.
              Uses-if r (is_current r) (true, set_subscribed r) (false, r) (omega arith)
                (omega arith))))

prepared_replies :
    (s : Setup) (p : Publisher)
    → (first_state s (forget_announcements s.web_url p)).replies ≡ p.replies
unfolding first_state forget_announcements
prepared_replies s p = ground arith

begun-IsFinished :
    (s : Setup) (rounds : ℕ) (p : Publisher) (r : Bool × Publisher)
    → Uses p r
    → length p.replies + 2 < rounds
    → IsFinished
        (continue (λ q. sync_loop s rounds (first_state s (forget_announcements s.web_url q))) r)
begun-IsFinished s rounds p (false, q) h l = tt
begun-IsFinished s rounds p (true, q) h l =
    let t = first_state s (forget_announcements s.web_url q) in
    let e : length t.replies ≡ length q.replies = ap length (prepared_replies s q) in
    sync_loop-IsFinished s rounds t (omega arith, λ c. ground (arith, e))

-- Whatever the calls of the client answer, and whatever the updater reports meanwhile, a synchronisation of the
-- update channel comes to its end: three rounds of its loop more than the list has replies are enough, and
-- behind the list every call is acknowledged and nothing is reported.
pub sync-IsFinished :
    (s : Setup) (rounds : ℕ) (p : Publisher)
    → length p.replies + 2 < rounds
    → IsFinished (sync_update_channel s rounds p)
unfolding sync_update_channel
sync-IsFinished s rounds p h =
    IsFinished-if (not s.has_updates || not (is_current p)) (finished true p) _ (λ c. tt)
      (λ c.
        begun-IsFinished s rounds p ((ensure_common_availability >> subscribe_updates) p)
          (Uses-proceed p subscribe_updates (ensure_common_availability p) (common-Uses p)
            (λ q. subscribe-Uses q))
          h)
