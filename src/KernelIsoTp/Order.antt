-- ===== src/KernelIsoTp/Order.antt =====
-- iso-tp/linux-socketcan-iso-tp/src/linux.rs: calls made one after another, up to the first that the kernel
-- refuses.
use thincan.Common.{
  ℕ, ◌≡◌, refl, sym, ap, ◌∙◌, List, [], ◌∷◌, ◌++◌, append-nil, append_assoc, Result, ok, err,
  map_err, subst,
}
use mathlib.Core.Path.{fun_ext}
use thincan.KernelIsoTp.{IoError, Error, io}
use thincan.KernelIsoTp.Kernel.{SysCall, Calls, Kernel, Sys, skip, ◌>>=◌, ◌>>◌, sys_}

module _ (kernel : Kernel) where
  unfoldable pub in_order : List SysCall → Sys (Unit {0})
  in_order [] = skip
  in_order (c ∷ cs) = sys_ kernel c >> in_order cs

  -- The kernel accepts each of the calls, made one after another.
  unfoldable pub IsAccepted : Calls → List SysCall → Type 0
  IsAccepted before [] = Unit
  IsAccepted before (c ∷ cs) =
      ((n : ℕ) × (kernel before c ≡ ok n)) × IsAccepted (before ++ (c ∷ [])) cs

  -- The calls made are those in front of the first that is refused, and that one.
  pub record Refusal (cs : List SysCall) (before : Calls) (e : Error) (after : Calls) : Type 0 where
    pub made : List SysCall
    pub refused : SysCall
    pub rest : List SysCall
    pub code : IoError
    pub split : cs ≡ made ++ (refused ∷ rest)
    pub accepted : IsAccepted before made
    pub answer : kernel (before ++ made) refused ≡ err code
    pub error : e ≡ io code
    pub calls : after ≡ before ++ (made ++ (refused ∷ []))

  unfoldable pub InOrder : List SysCall → Calls → Result (Unit {0}) Error × Calls → Type 0
  InOrder cs before (ok u, after) = IsAccepted before cs × (after ≡ before ++ cs)
  InOrder cs before (err e, after) = Refusal cs before e after

  -- A call that is accepted, in front of calls made in order.
  InOrder-accepted :
      (c : SysCall) (cs : List SysCall) (before : Calls) (n : ℕ)
      (x : Result (Unit {0}) Error × Calls)
      → kernel before c ≡ ok n
      → InOrder cs (before ++ (c ∷ [])) x
      → InOrder (c ∷ cs) before x
  unfolding InOrder IsAccepted
  InOrder-accepted c cs before n (ok u, after) h (oks, e) =
      (((n, h), oks), e ∙ append_assoc before (c ∷ []) cs)
  InOrder-accepted c cs before n (err f, after) h later = record {
    made = c ∷ later.made;
    refused = later.refused;
    rest = later.rest;
    code = later.code;
    split = ap (λ l. c ∷ l) later.split;
    accepted = ((n, h), later.accepted);
    answer =
        subst (λ l. kernel l later.refused ≡ err later.code)
          (append_assoc before (c ∷ []) later.made) later.answer;
    error = later.error;
    calls = later.calls ∙ append_assoc before (c ∷ []) _;
  }

  in_order_step :
      (c : SysCall) (cs : List SysCall) (before : Calls) (r : Result ℕ IoError)
      → kernel before c ≡ r
      → InOrder cs (before ++ (c ∷ [])) (in_order cs (before ++ (c ∷ [])))
      → InOrder
          (c ∷ cs)
          before
          ((((λ calls. (map_err r io, calls ++ (c ∷ []))) >>= λ n. skip) >> in_order cs) before)
  unfolding InOrder IsAccepted
  in_order_step c cs before (ok n) h later = InOrder-accepted c cs before n _ h later
  in_order_step c cs before (err code) h later = record {
    made = [];
    refused = c;
    rest = cs;
    code = code;
    split = refl;
    accepted = tt;
    answer = rw (append-nil before) h;
    error = refl;
    calls = refl;
  }

  pub in_order-InOrder :
      (cs : List SysCall) (before : Calls) → InOrder cs before (in_order cs before)
  unfolding in_order InOrder IsAccepted
  in_order-InOrder [] before = (tt, sym (append-nil before))
  in_order-InOrder (c ∷ cs) before =
      in_order_step c cs before (kernel before c) refl (in_order-InOrder cs (before ++ (c ∷ [])))

-- The calls made only grow.
pub record Grows (before after : Calls) : Type 0 where
  pub more : Calls
  pub grown : after ≡ before ++ more

module _ {before : Calls} where
  pub Grows-refl : Grows before before
  Grows-refl = record { more = []; grown = sym (append-nil before) }

  pub Grows-more : (more : Calls) → Grows before (before ++ more)
  Grows-more more = record { more = more; grown = refl }

  pub Grows-trans :
      {middle after : Calls} → Grows before middle → Grows middle after → Grows before after
  Grows-trans g h = record {
    more = g.more ++ h.more;
    grown = h.grown ∙ ap (λ l. l ++ h.more) g.grown ∙ append_assoc before g.more h.more;
  }

pub InOrder-Grows :
    (kernel : Kernel) (cs : List SysCall) (before : Calls) (x : Result (Unit {0}) Error × Calls)
    → InOrder kernel cs before x
    → Grows before x.1
unfolding InOrder
InOrder-Grows kernel cs before (ok u, after) h = record { more = cs; grown = h.1 }
InOrder-Grows kernel cs before (err e, after) refusal = record { more = _; grown = refusal.calls }

answered-Grows :
    (c : SysCall) (before : Calls) (r : Result ℕ IoError)
    → Grows before (((λ calls. (map_err r io, calls ++ (c ∷ []))) >>= λ n. skip) before).1
answered-Grows c before (ok n) = Grows-more (c ∷ [])
answered-Grows c before (err e) = Grows-more (c ∷ [])

pub sys_-Grows :
    (kernel : Kernel) (c : SysCall) (before : Calls) → Grows before (sys_ kernel c before).1
sys_-Grows kernel c before = answered-Grows c before (kernel before c)

-- Sequences of code that makes calls.
module _ {ℓ κ μ} {A : Type ℓ} {B : Type κ} {C : Type μ} where
  bind_assoc_result :
      (x : Result A Error × Calls) (f : A → Sys B) (g : B → Sys C)
      → (((λ calls. x) >>= f) >>= g) [] ≡ ((λ calls. x) >>= λ a. f a >>= g) []
  bind_assoc_result (ok a, after) f g = refl
  bind_assoc_result (err e, after) f g = refl

  bind_assoc :
      (m : Sys A) (f : A → Sys B) (g : B → Sys C) → ((m >>= f) >>= g) ≡ (m >>= λ a. f a >>= g)
  bind_assoc m f g = fun_ext λ before. bind_assoc_result (m before) f g

module _ {ℓ} {A : Type ℓ} (kernel : Kernel) where
  pub in_order_front :
      (c : SysCall) (cs : List SysCall) (k : Sys A)
      → (sys_ kernel c >> (in_order kernel cs >> k)) ≡ (in_order kernel (c ∷ cs) >> k)
  unfolding in_order
  in_order_front c cs k = sym (bind_assoc (sys_ kernel c) (λ u. in_order kernel cs) (λ u. k))

  pub in_order-append :
      (cs ds : List SysCall) (k : Sys A)
      → (in_order kernel cs >> (in_order kernel ds >> k)) ≡ (in_order kernel (cs ++ ds) >> k)
  unfolding in_order
  in_order-append [] ds k = refl
  in_order-append (c ∷ cs) ds k =
      sym (in_order_front c cs (in_order kernel ds >> k))
      ∙ ap (λ m. sys_ kernel c >> m) (in_order-append cs ds k)
      ∙ in_order_front c (cs ++ ds) k
