-- ===== src/Event.antt =====
-- `CoSupport::SystemC::Event`, which src/systemoc/headers/smoc/smoc_event.hpp names smoc_event: the
-- repository does not hold it, so its type and its operations are parameters.
use systemoc_syste_mo_c.Common.{◌≡◌, refl, Bool, true, false}

-- The state of one event as the channels use it: `*e`, `e.notify()`, `e.reset()`,
-- `e.renotifyListener()` and `new smoc_event(b)`.
pub record EventOps (E : Type 0) : Type 0 where
  pub is_active : E → Bool
  pub notify : E → E
  pub reset : E → E
  pub renotify_listener : E → E
  pub new : Bool → E

-- What the channels rely on.
pub record IsEvent {E : Type 0} (ev : EventOps E) : Type 0 where
  pub active_notify : (e : E) → ev.is_active (ev.notify e) ≡ true
  pub active_reset : (e : E) → ev.is_active (ev.reset e) ≡ false
  pub active_renotify : (e : E) → ev.is_active (ev.renotify_listener e) ≡ ev.is_active e
  pub active_new : (b : Bool) → ev.is_active (ev.new b) ≡ b

-- An event that is only its state.
abbrev pub plain_event : EventOps Bool
plain_event = record {
  is_active = λ e. e;
  notify = λ e. true;
  reset = λ e. false;
  renotify_listener = λ e. e;
  new = λ b. b;
}

pub plain_event-IsEvent : IsEvent plain_event
plain_event-IsEvent = record {
  active_notify = λ e. refl;
  active_reset = λ e. refl;
  active_renotify = λ e. refl;
  active_new = λ b. refl;
}
