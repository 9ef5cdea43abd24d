-- ===== src/Intc/RvPriv/Add.antt =====
-- driver/intc/riscv/rv_priv.c: the controller of a core is put into the table of the interrupts and told of
-- the wakeups and sleeps of its CPU.
pub mod Woken
use baremetal_crt.Common.{
  ℕ, Bool, true, Option, none, some, ◌==◌, if◌then◌else◌, ◌>>=◌, ℤ, pos, is_nonzero, einval,
  enotsup,
}
use baremetal_crt.Event.{Handlers, set_func}
use baremetal_crt.Arch.Intr.{Vectors, k_arch_riscv_set_intr_handler}
use baremetal_crt.Kernel.Handlers.{
  cpu_event_on_wakeup, cpu_event_on_sleep, k_cpu_add_handler, k_cpu_remove_handler,
}
use baremetal_crt.Intc.RvPriv.{IntcPriv, int_ex, int_tm, int_sw}

-- What `add` changes.
pub record Core : Type 0 where
  pub vectors : Vectors
  pub handlers : Handlers
  pub priv : IntcPriv

-- The functions `intc_priv_intr` and `intc_priv_cpu_event` are `intr` and `cpu_event`; `at` is the address of the structure, and
-- `cpu` is what `k_cpu_get_cpu_from_config` returns, with the heads of that CPU's lists.
module _ (intr cpu_event at fuel : ℕ) (cpu : Option (ℤ × (ℕ → ℕ))) where
  unfoldable pub set_functions : IntcPriv → Handlers → Handlers
  unfolding set_func
  set_functions p h =
      set_func (set_func (set_func h p.hnd_ex intr at) p.hnd_tm intr at) p.hnd_sw intr at

  unfoldable pub set_vectors : IntcPriv → Vectors → ℤ × Vectors
  unfolding k_arch_riscv_set_intr_handler
  set_vectors p v =
      let (r1, v1) = k_arch_riscv_set_intr_handler v (pos int_ex) p.hnd_ex in
      let (r2, v2) = k_arch_riscv_set_intr_handler v1 (pos int_tm) p.hnd_tm in
      let (r3, v3) = k_arch_riscv_set_intr_handler v2 (pos int_sw) p.hnd_sw in
      if is_nonzero r1 then (r1, v1) else if is_nonzero r2 then (r2, v2) else (r3, v3)

  -- The handlers of the CPU's two events.
  unfoldable pub add_events : (heads : ℕ → ℕ) → IntcPriv → Handlers → Option (ℤ × Handlers)
  unfolding set_func k_cpu_add_handler
  add_events heads p h = do
    (r1, h1) ←
        k_cpu_add_handler heads fuel cpu_event_on_wakeup p.hnd_wake
          (set_func (set_func h p.hnd_wake cpu_event at) p.hnd_sleep cpu_event at)
    (if is_nonzero r1
        then some (r1, h1)
        else k_cpu_add_handler heads fuel cpu_event_on_sleep p.hnd_sleep h1)

  -- `priv_given` is whether `priv` is not NULL.
  unfoldable pub intc_priv_add : (priv_given : Bool) → Core → Option (ℤ × Core)
  unfolding set_functions set_vectors add_events
  intc_priv_add given c =
      if given
      then (do
        (r, heads) ← cpu
        let h = set_functions c.priv c.handlers
        let (r1, v) = set_vectors c.priv c.vectors
        (if is_nonzero r
            then some (r, c)
            else if is_nonzero r1
            then some (r1, record c { vectors = v; handlers = h })
            else (do
              (r2, h2) ← add_events heads c.priv h
              let c2 = record c { vectors = v; handlers = h2 }
              (if is_nonzero r2
                  then some (r2, c2)
                  else some (
                    pos 0,
                    record c2 {
                      priv = record c.priv {
                        enabled_ex = true;
                        enabled_tm = true;
                        enabled_sw = true;
                      };
                    },
                  )))))
      else some (einval, c)

-- `heads` are those of the CPU.
unfoldable pub intc_priv_remove :
    (fuel : ℕ) → (heads : ℕ → ℕ) → IntcPriv → Handlers → Option (ℤ × Handlers)
unfolding k_cpu_remove_handler
intc_priv_remove fuel heads p h = do
  (r1, h1) ← k_cpu_remove_handler heads fuel cpu_event_on_wakeup p.hnd_wake h
  (if is_nonzero r1 then some (r1, h1) else (do
    (r2, h2) ← k_cpu_remove_handler heads fuel cpu_event_on_sleep p.hnd_sleep h1
    some (if is_nonzero r2 then r2 else enotsup, h2)))
