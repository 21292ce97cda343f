-- ===== src/Publisher/Assurance.antt =====
-- Whatever happens to a publisher of internal/hamqtt/publisher.go, an offer to install has a listener.
use rig_exporter.Base.{
  ℕ, zero, suc, ◌≡◌, refl, sym, Bool, true, false, not, ◌||◌, List, [], ◌∷◌, ◌++◌, arith,
  if◌then◌else◌,
}
use mathlib.Core.Path.{subst}
use rig_exporter.Publisher.Broker.{
  Text, availability, EntityRef, Publisher, take_news, message, listens,
}
use rig_exporter.Publisher.Updates.{Setup, is_current, sync_update_channel, noted}
use rig_exporter.Publisher.Entities.{
  clear_topics, topics_of, delete_refs, retire, unselected, retire_unselected, flush_pending_retire,
  clear_discovery, legacy_topics, judge_legacy, clear_legacy_discovery, update_ref,
}
use rig_exporter.Publisher.Life.{
  begin_connection, raise_alone, disconnect, on_connect, on_update_state_changed, Move, connects,
  loses, exports, reports, retires, narrows, clears, perform, run,
}
use rig_exporter.Publisher.Guarding.{is_up, is_offered, Guarded, lost-Guarded}
use rig_exporter.Publisher.Offering.{sync-Guarded}
use rig_exporter.Publisher.Passing.{
  clear_topics-Guarded, topics_of-IsDiscovery, noted-Guarded, Guarded-if, synced, synced-Guarded,
  export-Guarded,
}

retire-Guarded :
    (s : Setup) (refs : List EntityRef) (p : Publisher) → Guarded p → Guarded (retire s refs p)
unfolding retire
retire-Guarded s refs p h =
    let q = record p { announced = delete_refs refs p.announced } in
    Guarded-if (not (is_current p)) (record q { pending_retire = p.pending_retire ++ refs })
      (clear_topics (topics_of s.cfg refs) q).1 h
      (clear_topics-Guarded (topics_of s.cfg refs) q (topics_of-IsDiscovery s refs) h)

clear_discovery-Guarded : (s : Setup) (p : Publisher) → Guarded p → Guarded (clear_discovery s p)
unfolding clear_discovery
clear_discovery-Guarded s p h =
    let refs = p.announced ++ (if s.has_updates then update_ref ∷ [] else []) in
    let q = record p { update_announced = false; announced = [] } in
    Guarded-if (not (is_current p)) (record q { pending_retire = p.pending_retire ++ refs })
      (clear_topics (topics_of s.cfg refs) q).1 h
      (clear_topics-Guarded (topics_of s.cfg refs) q (topics_of-IsDiscovery s refs) h)

flush-Guarded : (s : Setup) (p : Publisher) → Guarded p → Guarded (flush_pending_retire s p)
unfolding flush_pending_retire
flush-Guarded s p h =
    clear_topics-Guarded (topics_of s.cfg p.pending_retire) (record p { pending_retire = [] })
      (topics_of-IsDiscovery s p.pending_retire) h

judge-Guarded : (r : ℕ × Publisher) → Guarded r.1 → Guarded (judge_legacy r)
judge-Guarded (zero, p) h = h
judge-Guarded (suc n, p) h = h

legacy-Guarded : (s : Setup) (p : Publisher) → Guarded p → Guarded (clear_legacy_discovery s p)
unfolding clear_legacy_discovery
legacy-Guarded s p h =
    judge-Guarded (clear_topics (legacy_topics s.cfg) p)
      (clear_topics-Guarded (legacy_topics s.cfg) p (ground arith) h)

begin-Guarded : (p : Publisher) → p.is_connected ≡ false → Guarded p → Guarded (begin_connection p)
unfolding begin_connection message listens
begin-Guarded p c h = record {
  answered = ground (arith, h.silent);
  heard = refl;
  common_first = refl;
  shut = refl;
  silent = refl;
}

disconnect-Guarded : (p : Publisher) → p.is_connected ≡ false → Guarded p → Guarded (disconnect p)
unfolding message listens
disconnect-Guarded p c h = record {
  answered = ground (arith, h.silent);
  heard = ground (arith, h.silent);
  common_first = h.common_first;
  shut = h.shut;
  silent = h.silent;
}

begun-Guarded :
    (s : Setup) (p : Publisher)
    → s.has_updates ≡ true
    → p.is_connected ≡ false
    → Guarded p
    → Guarded (if s.has_updates then begin_connection p else raise_alone (begin_connection p))
begun-Guarded s p u c h =
    subst (λ b. Guarded (if b then begin_connection p else raise_alone (begin_connection p)))
      (sym u) (begin-Guarded p c h)

on_connect-Guarded :
    (s : Setup) (rounds : ℕ) (p : Publisher)
    → s.has_updates ≡ true
    → p.is_connected ≡ false
    → Guarded p
    → Guarded (on_connect s rounds p)
unfolding on_connect
on_connect-Guarded s rounds p u c h =
    let q = begin_connection p in
    let r = flush_pending_retire s (if s.has_updates then q else raise_alone q) in
    let t = if s.cfg.legacy_cleanup_pending then clear_legacy_discovery s r else r in
    let g =
      flush-Guarded s (if s.has_updates then q else raise_alone q) (begun-Guarded s p u c h) in
    let k =
      Guarded-if s.cfg.legacy_cleanup_pending (clear_legacy_discovery s r) r (legacy-Guarded s r g)
        g in
    Guarded-if (p.stopped || not p.has_client) (disconnect p) (synced s rounds t)
      (disconnect-Guarded p c h) (synced-Guarded s rounds t k)

report-Guarded :
    (s : Setup) (rounds : ℕ) (payload : Text) (p : Publisher)
    → Guarded p
    → Guarded (on_update_state_changed s rounds payload p)
unfolding on_update_state_changed take_news
report-Guarded s rounds payload p h =
    let q = take_news payload p in
    let r = sync_update_channel s rounds q in
    Guarded-if (is_current p) (noted r) q (noted-Guarded r (sync-Guarded s rounds q h)) h

guarded_case :
    (b : Bool) (p q : Publisher)
    → (b ≡ true → Guarded p)
    → (b ≡ false → Guarded q)
    → Guarded (if b then p else q)
guarded_case true p q h k = h refl
guarded_case false p q h k = k refl

perform-Guarded :
    (s : Setup) (rounds : ℕ) (m : Move) (p : Publisher)
    → s.has_updates ≡ true
    → Guarded p
    → Guarded (perform s rounds m p)
unfolding perform retire_unselected
perform-Guarded s rounds connects p u h =
    guarded_case p.is_connected p (on_connect s rounds p) (λ c. h)
      (λ c. on_connect-Guarded s rounds p u c h)
perform-Guarded s rounds loses p u h = lost-Guarded p h
perform-Guarded s rounds (exports selected es document) p u h =
    export-Guarded s selected rounds es document p h
perform-Guarded s rounds (reports payload) p u h = report-Guarded s rounds payload p h
perform-Guarded s rounds (retires refs) p u h = retire-Guarded s refs p h
perform-Guarded s rounds (narrows selected) p u h =
    retire-Guarded s (unselected selected p.announced) p h
perform-Guarded s rounds clears p u h = clear_discovery-Guarded s p h

run-Guarded :
    (s : Setup) (rounds : ℕ) (ms : List Move) (p : Publisher)
    → s.has_updates ≡ true
    → Guarded p
    → Guarded (run s rounds ms p)
unfolding run
run-Guarded s rounds [] p u h = h
run-Guarded s rounds (m ∷ ms) p u h =
    run-Guarded s rounds ms (perform s rounds m p) u (perform-Guarded s rounds m p u h)

-- A publisher that starts: nothing is connected, and the availability of the process is not online.
pub record IsStarting (p : Publisher) : Type 0 where
  pub away : p.is_connected ≡ false
  pub deaf : p.update_subscribed ≡ false
  pub unknown : p.availability_known ≡ false
  pub down : is_up availability p.log ≡ false

starting-Guarded : (p : Publisher) → IsStarting p → Guarded p
starting-Guarded p h = record {
  answered = ground (arith, h.down);
  heard = ground (arith, h.deaf);
  common_first = ground (arith, h.deaf);
  shut = ground (arith, h.unknown);
  silent = ground (arith, h.down, h.deaf, h.unknown);
}

-- Whatever happens to a publisher with an updater between its start, when the broker does not have it online,
-- and its stop: connections and their loss, exports, states of the updater, retirements and the clearing of
-- discovery, each call of the client failing, timing out or losing the connection as it may, and the updater
-- reporting while it waits. Whenever the two topics of the update both say online, so that Home Assistant
-- offers to install, the command topic was subscribed in the connection that is open.
pub run-offers :
    (s : Setup) (rounds : ℕ) (ms : List Move) (p : Publisher)
    → s.has_updates ≡ true
    → IsStarting p
    → is_offered (run s rounds ms p).log ≡ true
    → listens (run s rounds ms p).log ≡ true
run-offers s rounds ms p u h o =
    let g = run-Guarded s rounds ms p u (starting-Guarded p h) in ground (arith, g.answered)
