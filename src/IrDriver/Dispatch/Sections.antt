-- ===== src/IrDriver/Dispatch/Sections.antt =====
-- A statement of the dispatch code of src/ir_driver.cpp keeps the facts about where the mutex is held.
use shirokumakun_matter.Common.{◌-◌, ◌≡◌, refl, ◌∙◌}
use shirokumakun_matter.IrDriver.Dispatch.{
  Store, Section, unlocked, entered, counted, copied, locked, loading, loaded, Thread, waiting,
  woken, holding, ready, Step, lock_pending, store_count, store_pulses, unlock_pending, give, wake,
  lock_active, load_count, load_pulses, unlock_active, send,
}
use shirokumakun_matter.IrDriver.Dispatch.Copy.{take-memcpy}
use shirokumakun_matter.IrDriver.Dispatch.Invariant.{Holds, InSection, InThread, Invariant}

-- A step of the thread outside the mutex leaves the section of a caller as it is.
InSection-outside :
    (m m' : Store) (c : Section) (t t' : Thread)
    → (Holds t → ⊥)
    → m'.pending_count ≡ m.pending_count
    → m'.pending_buf ≡ m.pending_buf
    → m'.stored ≡ m.stored
    → InSection m c t
    → InSection m' c t'
InSection-outside m m' unlocked t t' h e b d s = rw (e, b, d) s
InSection-outside m m' (entered cmd) t t' h e b d s = (rw (e, b, d) s.0, s.1)
InSection-outside m m' (counted cmd) t t' h e b d s = (s.0, e ∙ s.1)
InSection-outside m m' copied t t' h e b d s = rw (e, b, d) s
InSection-outside m m' locked t t' h e b d s = absurd (h s.1)
InSection-outside m m' loading t t' h e b d s = absurd (h s.1)
InSection-outside m m' loaded t t' h e b d s = absurd (h s.1)

InSection-give :
    (m : Store) (c : Section) (t : Thread)
    → InSection m c t
    → InSection (record m { sem = 1; to_give = m.to_give - 1 }) c t
InSection-give m unlocked t s = s
InSection-give m (entered cmd) t s = s
InSection-give m (counted cmd) t s = s
InSection-give m copied t s = s
InSection-give m locked t s = s
InSection-give m loading t s = s
InSection-give m loaded t s = s

InThread-caller :
    (m m' : Store) (t : Thread)
    → m'.taken ≡ m.taken
    → m'.sent ≡ m.sent
    → m'.active_count ≡ m.active_count
    → m'.active_buf ≡ m.active_buf
    → InThread m t
    → InThread m' t
InThread-caller m m' waiting e s a b h = rw (e, s) h
InThread-caller m m' woken e s a b h = rw (e, s) h
InThread-caller m m' holding e s a b h = tt
InThread-caller m m' ready e s a b h = rw (e, s, a, b) h

pub Step-InSection :
    {m m' : Store} {c c' : Section} {t t' : Thread}
    → Step m c t m' c' t'
    → Invariant m c t
    → InSection m' c' t'
Step-InSection (lock_pending fits) i = (i.section, fits)
Step-InSection store_count i = (i.section.1, refl)
Step-InSection {m = m} (store_pulses {cmd = cmd}) i =
    rw i.section.1 (take-memcpy cmd.count cmd.pulses m.pending_buf i.section.0.in_source)
Step-InSection unlock_pending i = i.section
Step-InSection {m = m} (give {c = c} {t = t} g) i = InSection-give m c t i.section
Step-InSection {m = m} {m' = m'} (wake {c = c} g) i =
    InSection-outside m m' c waiting woken (λ h. h) refl refl refl i.section
Step-InSection lock_active i = (i.section, tt, i.thread)
Step-InSection load_count i = (i.section.0, i.section.1, i.section.2, refl)
Step-InSection load_pulses i = (i.section.0, i.section.1, rw i.section.2 refl)
Step-InSection unlock_active i = i.section.0
Step-InSection {m = m} {m' = m'} (send {c = c}) i =
    InSection-outside m m' c ready waiting (λ h. h) refl refl refl i.section

pub Step-InThread :
    {m m' : Store} {c c' : Section} {t t' : Thread}
    → Step m c t m' c' t'
    → Invariant m c t
    → InThread m' t'
Step-InThread (lock_pending fits) i = i.thread
Step-InThread {m = m} {m' = m'} {t = t} store_count i =
    InThread-caller m m' t refl refl refl refl i.thread
Step-InThread {m = m} {m' = m'} {t = t} store_pulses i =
    InThread-caller m m' t refl refl refl refl i.thread
Step-InThread {m = m} {m' = m'} {t = t} unlock_pending i =
    InThread-caller m m' t refl refl refl refl i.thread
Step-InThread {m = m} {m' = m'} {t = t} (give g) i =
    InThread-caller m m' t refl refl refl refl i.thread
Step-InThread (wake g) i = i.thread
Step-InThread lock_active i = tt
Step-InThread load_count i = tt
Step-InThread load_pulses i = tt
Step-InThread unlock_active i = i.section.2
Step-InThread send i = i.thread
