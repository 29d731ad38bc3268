-- ===== src/KernelIsoTp/Options/Applied.antt =====
-- iso-tp/linux-socketcan-iso-tp/src/linux.rs: `apply_kernel_options` sets the options that are given, in one
-- order, up to the first that the kernel refuses.
use thincan.Common.{
  ℕ, ◌≡◌, refl, ap, Option, none, some, List, [], ◌∷◌, map, Result, ok, err, ◌∙◌, subst, sym,
}
use mathlib.Core.Path.{fun_ext}
use mathlib.Core.Option.{map as option_map}
use thincan.KernelIsoTp.{Error, IsoTpKernelOptions}
use thincan.KernelIsoTp.Stmin.{duration_to_nanos_u32}
use thincan.KernelIsoTp.Kernel.{
  OptName, so_txtime, sol_can_isotp, OptValue, nanos_value, base_value, fc_value, ll_value, SysCall,
  setsockopt, Kernel, Calls, Sys, skip, ◌>>◌, when_some, sys_,
}
use thincan.KernelIsoTp.Options.{build_can_isotp_options, fc_of, ll_of, apply_kernel_options}
use thincan.KernelIsoTp.Order.{in_order, InOrder, in_order-InOrder}

-- The options that are given, each with its name.
abbrev Named : Type 0
Named = OptName × Option OptValue

given : List Named → List (OptName × OptValue)
given [] = []
given ((name, none) ∷ opts) = given opts
given ((name, some v) ∷ opts) = (name, v) ∷ given opts

named_options : IsoTpKernelOptions → List Named
named_options o =
    (so_txtime, option_map (λ t. nanos_value (duration_to_nanos_u32 t)) o.socket.frame_txtime)
    ∷ (sol_can_isotp 1, some (base_value (build_can_isotp_options o.socket)))
    ∷ (sol_can_isotp 2, option_map (λ fc. fc_value (fc_of fc)) o.flow_control)
    ∷ (sol_can_isotp 3, option_map (λ t. nanos_value (duration_to_nanos_u32 t)) o.force_tx_stmin)
    ∷ (sol_can_isotp 4, option_map (λ t. nanos_value (duration_to_nanos_u32 t)) o.force_rx_stmin)
    ∷ (sol_can_isotp 5, option_map (λ ll. ll_value (ll_of ll)) o.link_layer)
    ∷ []

pub option_calls : ℕ → IsoTpKernelOptions → List SysCall
option_calls fd o = map (λ (name, v). setsockopt fd name v) (given (named_options o))

skip_after_result : (x : Result (Unit {0}) Error × Calls) → x ≡ ((λ before. x) >> skip) []
skip_after_result (ok u, after) = refl
skip_after_result (err e, after) = refl

skip_after : (m : Sys (Unit {0})) → m ≡ (m >> skip)
skip_after m = fun_ext λ before. skip_after_result (m before)

module _ (kernel : Kernel) (fd : ℕ) where
  abbrev calls_of : List Named → List SysCall
  calls_of opts = map (λ (name, v). setsockopt fd name v) (given opts)

  -- One option in front of those that follow.
  option_step {ℓ} :
      {A : Type ℓ} (name : OptName) (f : A → OptValue) (x : Option A) (rest : List Named)
      (k : Sys (Unit {0}))
      → k ≡ in_order kernel (calls_of rest)
      → (when_some x (λ a. sys_ kernel (setsockopt fd name (f a))) >> k)
        ≡ in_order kernel (calls_of ((name, option_map f x) ∷ rest))
  unfolding given in_order
  option_step name f none rest k e = e
  option_step name f (some a) rest k e = ap (λ l. sys_ kernel (setsockopt fd name (f a)) >> l) e

  no_options : skip ≡ in_order kernel (calls_of [])
  unfolding given in_order
  no_options = refl

  pub apply_kernel_options-in_order :
      (o : IsoTpKernelOptions)
      → apply_kernel_options kernel fd o ≡ in_order kernel (option_calls fd o)
  unfolding apply_kernel_options option_calls named_options
  apply_kernel_options-in_order o = option_step so_txtime _ o.socket.frame_txtime _ _ (
      option_step (sol_can_isotp 1) base_value (some (build_can_isotp_options o.socket)) _ _ (
        option_step (sol_can_isotp 2) _ o.flow_control _ _ (
          option_step (sol_can_isotp 3) _ o.force_tx_stmin _ _ (
            option_step (sol_can_isotp 4) _ o.force_rx_stmin _ _
              (skip_after _ ∙ option_step (sol_can_isotp 5) _ o.link_layer [] skip no_options)))))

-- `apply_kernel_options` sets the options that are given, in the kernel's names and their order, each with its
-- value: all of them, each accepted, or those in front of the first that the kernel refuses, and that one, and
-- then it returns the kernel's error.
pub apply_kernel_options-InOrder :
    (kernel : Kernel) (fd : ℕ) (o : IsoTpKernelOptions) (before : Calls)
    → InOrder kernel (option_calls fd o) before (apply_kernel_options kernel fd o before)
apply_kernel_options-InOrder kernel fd o before =
    subst (λ m. InOrder kernel (option_calls fd o) before (m before))
      (sym (apply_kernel_options-in_order kernel fd o))
      (in_order-InOrder kernel (option_calls fd o) before)
