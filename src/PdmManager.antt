-- ===== src/PdmManager.antt =====
-- The microphone of src/pdm_manager.cpp; the children hold the proofs.
-- Floating-point arithmetic, the FFT of the CMSIS library, the window's cosines and the statuses of
-- the nrfx driver are parameters. Logging changes no state and is left out.
pub mod Detector
pub mod Wait
pub mod Capture
pub mod Settings
pub mod Verbose
pub mod Unordered
pub mod Total
pub mod Tuned
mod Tests
use shirokumakun_matter.Common.{
  ℕ, zero, suc, ◌+◌, ◌-◌, ◌*◌, ◌/◌, ◌%◌, Bool, true, false, not, ◌&&◌, Option, none, some, List, [],
  ◌∷◌, ltb, leb, ◌==◌, if◌then◌else◌, get_elem?, get_or, set,
}
use shirokumakun_matter.Common.Int.{ℤ, pos, negsuc, is_negative, is_zero}

abbrev pub pdm_buf_samples : ℕ
pdm_buf_samples = 1024

abbrev pub target_bin : ℕ
target_bin = 127

abbrev pub guard_cells : ℕ
guard_cells = 2

abbrev pub train_cells : ℕ
train_cells = 10

-- The operations on `float` that the file uses, `arm_rfft_fast_f32`, and the entries of the
-- window that `pdm_manager_init` computes.
pub record Floats : Type 1 where
  pub F : Type 0
  pub zero_f : F
  pub of_ℤ : ℤ → F
  pub add : F → F → F
  pub mul : F → F → F
  pub div : F → F → F
  pub gt : F → F → Bool
  pub fft : List F → List F
  pub hann_window : ℕ → F

module _ (floats : Floats) where
  open floats use {F, zero_f, of_ℤ, add, mul, div, gt, fft, hann_window}

  -- `re * re + im * im` of bin `k`; `none` is a read past the end.
  unfoldable pub bin_power : List F → ℕ → Option F
  bin_power out k = elim (get_elem? out (2 * k)) [
    | none ↦ none
    | some re ↦ elim (get_elem? out (2 * k + 1)) [
      | none ↦ none
      | some im ↦ some (add (mul re re) (mul im im))
    ]
  ]

  -- `abs(k - PDM_TARGET_BIN) > PDM_CFAR_GUARD_CELLS`.
  unfoldable pub is_training : ℕ → Bool
  is_training k =
      if leb target_bin k
      then ltb guard_cells (k - target_bin)
      else ltb guard_cells (target_bin - k)

  -- The loop over the bins, with `left` rounds left from bin `k`.
  unfoldable pub noise_loop : ℕ → ℕ → List F → F → Option F
  noise_loop zero k out sum = some sum
  noise_loop (suc left) k out sum = elim (is_training k) [
    | false ↦ noise_loop left (k + 1) out sum
    | true ↦ elim (bin_power out k) [
      | none ↦ none
      | some power ↦ noise_loop left (k + 1) out (add sum power)
    ]
  ]

  -- From bin 115 to bin 139.
  unfoldable pub noise_sum : List F → Option F
  noise_sum out =
      noise_loop (2 * (guard_cells + train_cells) + 1) (target_bin - guard_cells - train_cells) out
        zero_f

  pub record Detection : Type 0 where
    pub cut : F
    pub cfar_thresh : F

  unfoldable pub detection_of : F → Option F → Option F → Option Detection
  detection_of threshold (some cut) (some sum) =
      some
        (record { cut = cut; cfar_thresh = mul (div sum (of_ℤ (pos (2 * train_cells)))) threshold })
  detection_of threshold (some cut) none = none
  detection_of threshold none sum = none

  -- The power under test and the threshold that it is held against.
  unfoldable pub detect : F → List F → Option Detection
  detect threshold out = detection_of threshold (bin_power out target_bin) (noise_sum out)

  -- The windowing loop, from sample `i` on.
  unfoldable pub windowed : ℕ → List ℤ → List F
  windowed i [] = []
  windowed i (x ∷ samples) = mul (of_ℤ x) (hann_window i) ∷ windowed (i + 1) samples

  -- The file's static variables with the semaphore's count, whether the work item is queued, and
  -- whether the driver captures (its last call that succeeded was a start).
  pub record Pdm : Type 0 where
    pub detect_threshold : F
    pub pdm_buf : List (List ℤ)
    pub buf_ready_idx : ℕ
    pub buf_available : Bool
    pub next : ℕ
    pub work_queued : Bool
    pub ack_sem : ℕ
    pub capture_active : Bool
    pub verbose : Bool
    pub verbose_own : Bool
    pub capturing : Bool

  -- The spectrum of the buffer that was released last.
  pub spectrum : Pdm → List F
  spectrum p = fft (windowed 0 (get_or p.pdm_buf p.buf_ready_idx []))

  -- What the handler makes of a detection: `k_sem_give` of a semaphore with limit 1.
  pub give_if_heard : Option Detection → Pdm → Option Pdm
  give_if_heard none p = none
  give_if_heard (some d) p =
      if p.capture_active && gt d.cut d.cfar_thresh then some (record p { ack_sem = 1 }) else some p

  -- `pdm_process_work_handler`, run from the work queue.
  unfoldable pub process_work_handler : Pdm → Option Pdm
  unfolding give_if_heard
  process_work_handler p =
      if not p.buf_available
      then some (record p { work_queued = false })
      else (give_if_heard (detect p.detect_threshold (spectrum p))
          (record p { work_queued = false; buf_available = false }))

  -- `pdm_event_handler`: the buffer that the driver asks for is `next`, and `released` tells which
  -- one it is done with.
  unfoldable pub event_handler : Bool → Option ℕ → Pdm → Pdm
  event_handler requested released p =
      let p₁ = if requested then record p { next = if p.next == 0 then 1 else 0 } else p in
      elim released [
        | none ↦ p₁
        | some idx ↦ record p₁ {
          buf_ready_idx = if idx == 0 then 0 else 1;
          buf_available = true;
          work_queued = true;
        }
      ]

  -- `pdm_manager_start_listen`, with the status of `nrfx_pdm_start`.
  unfoldable pub start_listen : ℤ → Pdm → Pdm
  start_listen status p =
      let p₁ = record p { ack_sem = 0; buf_available = false; capture_active = true } in
      if is_negative status
      then record p₁ { capture_active = false }
      else record p₁ { capturing = true }

  -- What `pdm_manager_collect_ack` does after the wait; the status of `nrfx_pdm_stop` is logged.
  unfoldable pub stop_listen : ℤ → Pdm → Pdm
  stop_listen status p =
      let p₁ = record p { capture_active = false } in
      if is_negative status then p₁ else record p₁ { capturing = false }

  -- `pdm_manager_verbose_start`.
  unfoldable pub verbose_start : ℤ → Pdm → Pdm
  verbose_start status p =
      let p₁ = record p { verbose = true } in
      if not p.capture_active
      then (if is_negative status then p₁ else record p₁ { verbose_own = true; capturing = true })
      else p₁

  -- `pdm_manager_verbose_stop`.
  unfoldable pub verbose_stop : ℤ → Pdm → Pdm
  verbose_stop status p =
      let p₁ = record p { verbose = false } in
      if p.verbose_own
      then (if is_negative status
          then record p₁ { verbose_own = false }
          else record p₁ { verbose_own = false; capturing = false })
      else p₁

  unfoldable pub set_threshold : F → Pdm → Pdm
  set_threshold t p = record p { detect_threshold = t }

  -- What happens while `k_sem_take` waits: the driver fills a buffer and calls the handler, the
  -- work queue runs the work item, or the shell's thread calls one of the functions above.
  pub data Happening : Type 0 where
    event : (requested : Bool) (released : Option (ℕ × List ℤ)) → Happening
    work : Happening
    verbose_on : (status : ℤ) → Happening
    verbose_off : (status : ℤ) → Happening
    threshold : (t : F) → Happening

  unfoldable pub happen : Happening → Pdm → Option Pdm
  unfolding process_work_handler event_handler verbose_start verbose_stop set_threshold
  happen (event requested none) p = some (event_handler requested none p)
  happen (event requested (some (idx, samples))) p =
      some (event_handler requested (some idx) (record p { pdm_buf = set p.pdm_buf idx samples }))
  happen work p = if p.work_queued then process_work_handler p else some p
  happen (verbose_on status) p = some (verbose_start status p)
  happen (verbose_off status) p = some (verbose_stop status p)
  happen (threshold t) p = some (set_threshold t p)

  -- `k_sem_take` with a timeout, over what happens before it: whether the semaphore was taken.
  unfoldable pub take_ack : List Happening → Pdm → Option (Pdm × Bool)
  take_ack [] p = if p.ack_sem == 0 then some (p, false) else some (record p { ack_sem = 0 }, true)
  take_ack (h ∷ hs) p = elim (p.ack_sem == 0) [
    | false ↦ some (record p { ack_sem = 0 }, true)
    | true ↦ elim (happen h p) [ none ↦ none | some p' ↦ take_ack hs p' ]
  ]

  -- `pdm_manager_collect_ack`.
  unfoldable pub collect_ack : List Happening → ℤ → Pdm → Option (Pdm × Bool)
  unfolding take_ack stop_listen
  collect_ack hs status p = elim (take_ack hs p) [
    | none ↦ none
    | some (p', acked) ↦ some (stop_listen status p', acked)
  ]
