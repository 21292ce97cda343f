-- ===== src/Publisher/Availability.antt =====
-- The availability of the update in internal/hamqtt/publisher.go: what each step needs and leaves, whatever fails.
use rig_exporter.Base.{◌≡◌, refl, sym, ap, ◌∙◌, Bool, true, false, not, ◌&&◌, List, ◌∷◌, arith}
use rig_exporter.Base.Unicode.{list_eq}
use rig_exporter.Publisher.Broker.{
  availability, update_availability, update_command, Event, retained, subscribed, Publisher, ◌>>◌,
  online, call, message, listens,
}
use mathlib.Core.Path.{subst}
use rig_exporter.Publisher.Calls.{Kept, call-Kept, call-message, call-connected}
use rig_exporter.Publisher.Updates.{
  is_current, when_current, available_text, set_availability, announce_availability, bool_eq,
  publish_update_availability, raise_common, set_common, ensure_common_availability, set_subscribed,
  subscribe_updates,
}
use rig_exporter.Publisher.Guarding.{
  is_up, Guarded, with_event, Ends, Ends-proceed, call-Ends, when_current-Ends, Ends-if,
}

-- After a step that told the broker of the update's availability, or had nothing to tell.
pub record Told (b : Bool) (p q : Publisher) : Type 0 where
  pub current : is_current q ≡ true
  pub known : q.availability_known ≡ true
  pub available : q.update_available ≡ b
  pub common : q.common_available ≡ p.common_available
  pub subscribed : q.update_subscribed ≡ p.update_subscribed
  pub announced : q.update_announced ≡ p.update_announced
  pub published : q.published ≡ p.published

-- The message can be sent.
sent-Guarded :
    (b : Bool) (p : Publisher)
    → (b && not p.update_subscribed) ≡ false
    → is_current p ≡ true
    → Guarded p
    → Guarded (with_event (retained update_availability (available_text b)) p)
unfolding message listens
sent-Guarded true p s c h = record {
  answered = ground (arith, h.heard);
  heard = h.heard;
  common_first = h.common_first;
  shut = ground (arith, h.common_first);
  silent = ground arith;
}
sent-Guarded false p s c h = record {
  answered = ground arith;
  heard = h.heard;
  common_first = h.common_first;
  shut = ground arith;
  silent = ground arith;
}

told-Guarded :
    (b : Bool) (q : Publisher)
    → (b && not q.update_subscribed) ≡ false
    → is_current q ≡ true
    → is_up update_availability q.log ≡ b
    → Guarded q
    → Guarded (set_availability b q)
told-Guarded b q s c u h = record {
  answered = h.answered;
  heard = h.heard;
  common_first = h.common_first;
  shut = ground arith;
  silent = ground arith;
}

up_sent :
    (b : Bool) (log : List Event)
    → is_up update_availability (retained update_availability (available_text b) ∷ log) ≡ b
unfolding message
up_sent true log = refl
up_sent false log = refl

announce_availability-Ends :
    (b : Bool) (p : Publisher)
    → (b && not p.update_subscribed) ≡ false
    → is_current p ≡ true
    → Guarded p
    → Ends (Told b p) (announce_availability b p)
announce_availability-Ends b p s c h =
    let e = retained update_availability (available_text b) in
    let After : Publisher → Type 0 =
      λ q. (is_up update_availability q.log ≡ b) × (q.is_connected ≡ true → Kept p q) in
    Ends-proceed After (Told b p) (when_current (set_availability b)) (call e p)
      (call-Ends After e p h (sent-Guarded b p s c h)
        (λ a. (ap (λ m. list_eq m online) (call-message e p a) ∙ up_sent b p.log, call-Kept e p)))
      (λ q g k. when_current-Ends (Told b p) (set_availability b) q g (λ d.
        let kept = k.1 (ground arith) in
        (
          told-Guarded b q (subst (λ x. (b && not x) ≡ false) (sym kept.subscribed) s) d k.0 g,
          record {
            current = d;
            known = refl;
            available = refl;
            common = kept.common;
            subscribed = kept.subscribed;
            announced = kept.announced;
            published = kept.published;
          },
        )))

pub publish_update_availability-Ends :
    (b : Bool) (p : Publisher)
    → (b && not p.update_subscribed) ≡ false
    → Guarded p
    → Ends (Told b p) (publish_update_availability b p)
unfolding publish_update_availability
publish_update_availability-Ends b p s h =
    Ends-if (Told b p) (not (is_current p)) (false, p) _ (λ c. h)
      (λ c.
        Ends-if (Told b p) (p.availability_known && bool_eq p.update_available b) (true, p) _
          (λ k. (
            h,
            record {
              current = ground arith;
              known = ground arith;
              available = ground arith;
              common = refl;
              subscribed = refl;
              announced = refl;
              published = refl;
            },
          ))
          (λ k. announce_availability-Ends b p s (ground arith) h))

raised-Guarded :
    (p : Publisher)
    → p.common_available ≡ false
    → p.availability_known ≡ true
    → p.update_available ≡ false
    → is_current p ≡ true
    → Guarded p
    → Guarded (with_event (retained availability online) p)
unfolding message listens
raised-Guarded p o k a c h = record {
  answered = ground (arith, h.shut);
  heard = h.heard;
  common_first = h.common_first;
  shut = ground (arith, h.shut);
  silent = ground arith;
}

-- What the two checks of availability leave for the rest of the synchronisation.
pub record Ready (q : Publisher) : Type 0 where
  pub current : is_current q ≡ true
  pub common : q.common_available ≡ true

common-Guarded : (q : Publisher) → is_current q ≡ true → Guarded q → Guarded (set_common q)
common-Guarded q c h = record {
  answered = h.answered;
  heard = h.heard;
  common_first = ground arith;
  shut = ground arith;
  silent = h.silent;
}

raise_common-Ends :
    (p : Publisher)
    → p.common_available ≡ false
    → p.availability_known ≡ true
    → p.update_available ≡ false
    → is_current p ≡ true
    → Guarded p
    → Ends Ready (raise_common p)
raise_common-Ends p o k a c h =
    Ends-proceed (λ q. Unit {0}) Ready (when_current set_common)
      (call (retained availability online) p)
      (call-Ends (λ q. Unit {0}) (retained availability online) p h (raised-Guarded p o k a c h)
        (λ x. tt))
      (λ q g u.
        when_current-Ends Ready set_common q g
          (λ d. (common-Guarded q d g, record { current = d; common = refl })))

pub ensure_common_availability-Ends :
    (p : Publisher) → Guarded p → Ends Ready (ensure_common_availability p)
unfolding ensure_common_availability
ensure_common_availability-Ends p h =
    Ends-if Ready (not (is_current p)) (false, p) _ (λ c. h)
      (λ c.
        Ends-if Ready p.common_available (true, p) _
          (λ o. (h, record { current = ground arith; common = o }))
          (λ o.
            Ends-proceed (Told false p) Ready raise_common (publish_update_availability false p)
              (publish_update_availability-Ends false p refl h)
              (λ q g t. raise_common-Ends q (t.common ∙ o) t.known t.available t.current g)))

heard_sent : (p : Publisher) → Guarded p → Guarded (with_event (subscribed update_command) p)
unfolding message listens
heard_sent p h = record {
  answered = ground arith;
  heard = ground arith;
  common_first = h.common_first;
  shut = h.shut;
  silent = h.silent;
}

-- The command topic is subscribed.
pub record Listening (q : Publisher) : Type 0 where
  pub current : is_current q ≡ true
  pub subscribed : q.update_subscribed ≡ true

subscribed-Guarded :
    (q : Publisher)
    → q.common_available ≡ true
    → listens q.log ≡ true
    → is_current q ≡ true
    → Guarded q
    → Guarded (set_subscribed q)
subscribed-Guarded q o l c h = record {
  answered = h.answered;
  heard = ground arith;
  common_first = ground arith;
  shut = h.shut;
  silent = ground arith;
}

listens_subscribed : (log : List Event) → listens (subscribed update_command ∷ log) ≡ true
unfolding listens
listens_subscribed log = refl

call_subscribed-Ends :
    (p : Publisher)
    → p.common_available ≡ true
    → Guarded p
    → Ends Listening ((call (subscribed update_command) >> when_current set_subscribed) p)
call_subscribed-Ends p o h =
    let e = subscribed update_command in
    let After : Publisher → Type 0 =
      λ q. (q.is_connected ≡ true → (listens q.log ≡ true) × Kept p q) in
    Ends-proceed After Listening (when_current set_subscribed) (call e p)
      (call-Ends After e p h (heard_sent p h)
        (λ a c. (ap listens (call-connected e p a c) ∙ listens_subscribed p.log, call-Kept e p c)))
      (λ q g k. when_current-Ends Listening set_subscribed q g (λ d.
        let kept = k (ground arith) in
        (
          subscribed-Guarded q (kept.1.common ∙ o) kept.0 d g,
          record { current = d; subscribed = refl },
        )))

pub subscribe_updates-Ends :
    (p : Publisher) → Ready p → Guarded p → Ends Listening (subscribe_updates p)
unfolding subscribe_updates
subscribe_updates-Ends p r h =
    Ends-if Listening p.update_subscribed (true, p) _
      (λ b. (h, record { current = r.current; subscribed = b }))
      (λ b.
        Ends-proceed (Told false p) Listening
          (call (subscribed update_command) >> when_current set_subscribed)
          (publish_update_availability false p) (publish_update_availability-Ends false p refl h)
          (λ q g t. call_subscribed-Ends q (t.common ∙ r.common) g))
