-- ===== src/IrDriver/Dispatch/Sizes.antt =====
-- A statement of the dispatch code of src/ir_driver.cpp keeps the sizes of the buffers.
use shirokumakun_matter.Common.{◌∙◌, arith}
use shirokumakun_matter.IrDriver.Dispatch.{
  Store, Section, Thread, Step, lock_pending, store_count, store_pulses, unlock_pending, give, wake,
  lock_active, load_count, load_pulses, unlock_active, send,
}
use shirokumakun_matter.IrDriver.Dispatch.Copy.{length-memcpy}
use shirokumakun_matter.IrDriver.Dispatch.Invariant.{Sized, Invariant}

pub Step-Sized :
    {m m' : Store} {c c' : Section} {t t' : Thread}
    → Step m c t m' c' t'
    → Invariant m c t
    → Sized m'
Step-Sized (lock_pending fits) i = i.sized
Step-Sized {m = m} (store_count {cmd = cmd}) i = record {
  pending_size = i.sized.pending_size;
  active_size = i.sized.active_size;
  pending_fits = i.section.1.in_buffer;
}
Step-Sized {m = m} (store_pulses {cmd = cmd}) i = record {
  pending_size =
      length-memcpy cmd.count cmd.pulses m.pending_buf i.section.0.in_source
        (ground (arith, i.section.0.in_buffer, i.sized.pending_size))
      ∙ i.sized.pending_size;
  active_size = i.sized.active_size;
  pending_fits = i.sized.pending_fits;
}
Step-Sized unlock_pending i = record {
  pending_size = i.sized.pending_size;
  active_size = i.sized.active_size;
  pending_fits = i.sized.pending_fits;
}
Step-Sized (give g) i = record {
  pending_size = i.sized.pending_size;
  active_size = i.sized.active_size;
  pending_fits = i.sized.pending_fits;
}
Step-Sized (wake g) i = record {
  pending_size = i.sized.pending_size;
  active_size = i.sized.active_size;
  pending_fits = i.sized.pending_fits;
}
Step-Sized lock_active i = i.sized
Step-Sized load_count i = record {
  pending_size = i.sized.pending_size;
  active_size = i.sized.active_size;
  pending_fits = i.sized.pending_fits;
}
Step-Sized {m = m} load_pulses i = record {
  pending_size = i.sized.pending_size;
  active_size =
      length-memcpy m.pending_count m.pending_buf m.active_buf
        (ground (arith, i.sized.pending_fits, i.sized.pending_size))
        (ground (arith, i.sized.pending_fits, i.sized.active_size))
      ∙ i.sized.active_size;
  pending_fits = i.sized.pending_fits;
}
Step-Sized unlock_active i = i.sized
Step-Sized send i = record {
  pending_size = i.sized.pending_size;
  active_size = i.sized.active_size;
  pending_fits = i.sized.pending_fits;
}
