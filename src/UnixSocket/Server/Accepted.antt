-- ===== src/UnixSocket/Server/Accepted.antt =====
-- embedded-can/embedded-can-unix-socket/src/server.rs: which frames the filters of a client let through.
use thincan.Common.{
  ℕ, Bool, true, ◌≡◌, refl, List, [], ◌∷◌, if◌then◌else◌, inl, inr, Bool-cases, ◌⊎◌, ◌↔◌, bit_and,
  ==_iff,
}
use thincan.UnixSocket.Frame.{CanId, standard, extended, UnixFrame}
use thincan.UnixSocket.Wire.Filters.{IdMask, standard_mask, extended_mask, IdMaskFilter}
use thincan.UnixSocket.Server.{
  BusCommand, add_client, remove_client, send_frame, set_filters, shutdown, filter_match_of,
  filter_match, any_match, filters_match,
}

-- The frames of the commands that pass the bus's test of the filters.
unfoldable pub accepted : List IdMaskFilter → List BusCommand → List UnixFrame
accepted filters [] = []
accepted filters (send_frame i seq expect_ack frame ∷ commands) =
    let rest = accepted filters commands in
    if filters_match filters frame then frame ∷ rest else rest
accepted filters (_ ∷ commands) = accepted filters commands

-- A filter selects the identifiers of its own format that agree with its own where the mask has ones; no identifier
-- if its mask is of the other format.
pub Selects : CanId → IdMask → CanId → Type 0
Selects (standard own) (standard_mask mask) (standard id) = bit_and id mask ≡ bit_and own mask
Selects (extended own) (extended_mask mask) (extended id) = bit_and id mask ≡ bit_and own mask
Selects _ _ _ = ⊥

pub SomeSelects : List IdMaskFilter → CanId → Type 0
SomeSelects [] id = ⊥
SomeSelects (f ∷ filters) id = Selects f.id f.mask id ⊎ SomeSelects filters id

-- No filters accept every frame, and others those that one of them selects.
pub Accepts : List IdMaskFilter → UnixFrame → Type 0
Accepts [] frame = Unit
Accepts (f ∷ filters) frame = SomeSelects (f ∷ filters) frame.id

-- A command that carries no frame.
abbrev pub HasNoFrame : BusCommand → Type 0
HasNoFrame (send_frame i seq expect_ack frame) = ⊥
HasNoFrame _ = Unit

-- The frames that the filters accept among those that the commands send, in the order of the commands.
pub data Passed (filters : List IdMaskFilter) : List BusCommand → List UnixFrame → Type 0 where
  no_commands : Passed filters [] []
  without_frame :
      {cmd : BusCommand} {commands : List BusCommand} {fs : List UnixFrame}
      → HasNoFrame cmd
      → Passed filters commands fs
      → Passed filters (cmd ∷ commands) fs
  let_through :
      {i seq : ℕ} {expect_ack : Bool} {frame : UnixFrame} {commands : List BusCommand}
      {fs : List UnixFrame}
      → Accepts filters frame
      → Passed filters commands fs
      → Passed filters (send_frame i seq expect_ack frame ∷ commands) (frame ∷ fs)
  held_back :
      {i seq : ℕ} {expect_ack : Bool} {frame : UnixFrame} {commands : List BusCommand}
      {fs : List UnixFrame}
      → ¬ Accepts filters frame
      → Passed filters commands fs
      → Passed filters (send_frame i seq expect_ack frame ∷ commands) fs

filter_match_of-Selects :
    (own : CanId) (mask : IdMask) (id : CanId)
    → (filter_match_of own mask id ≡ true) ↔ Selects own mask id
unfolding Selects
filter_match_of-Selects (standard own) (standard_mask mask) (standard id) = ==_iff _ _
filter_match_of-Selects (extended own) (extended_mask mask) (extended id) = ==_iff _ _
filter_match_of-Selects (standard own) (standard_mask mask) (extended id) = ((λ e. cc), absurd)
filter_match_of-Selects (standard own) (extended_mask mask) id = ((λ e. cc), absurd)
filter_match_of-Selects (extended own) (extended_mask mask) (standard id) = ((λ e. cc), absurd)
filter_match_of-Selects (extended own) (standard_mask mask) id = ((λ e. cc), absurd)

any_match-SomeSelects :
    (filters : List IdMaskFilter) (id : CanId)
    → (any_match filters id ≡ true) ↔ SomeSelects filters id
unfolding SomeSelects any_match filter_match
any_match-SomeSelects [] id = ((λ e. cc), absurd)
any_match-SomeSelects (f ∷ filters) id =
    let one = filter_match_of-Selects f.id f.mask id in
    let others = any_match-SomeSelects filters id in
    elim (Bool-cases (filter_match_of f.id f.mask id)) [
      | inl e ↦ rw e ((λ t. inl (one.0 e)), λ t. refl)
      | inr e ↦ rw e (
        (λ t. inr (others.0 t)),
        λ t. elim t [ inl s ↦ absurd (cc (e, one.1 s)) | inr s ↦ others.1 s ],
      )
    ]

filters_match-Accepts :
    (filters : List IdMaskFilter) (frame : UnixFrame)
    → (filters_match filters frame ≡ true) ↔ Accepts filters frame
unfolding Accepts filters_match
filters_match-Accepts [] frame = ((λ e. tt), λ t. refl)
filters_match-Accepts (f ∷ filters) frame = any_match-SomeSelects (f ∷ filters) frame.id

pub accepted-Passed :
    (filters : List IdMaskFilter) (commands : List BusCommand)
    → Passed filters commands (accepted filters commands)
unfolding accepted
accepted-Passed filters [] = no_commands
accepted-Passed filters (add_client i tx ∷ commands) =
    without_frame tt (accepted-Passed filters commands)
accepted-Passed filters (remove_client i ∷ commands) =
    without_frame tt (accepted-Passed filters commands)
accepted-Passed filters (set_filters i seq fs ∷ commands) =
    without_frame tt (accepted-Passed filters commands)
accepted-Passed filters (shutdown ∷ commands) = without_frame tt (accepted-Passed filters commands)
accepted-Passed filters (send_frame i seq b frame ∷ commands) =
    let meaning = filters_match-Accepts filters frame in
    elim (Bool-cases (filters_match filters frame)) [
      | inl e ↦ rw e (let_through (meaning.0 e) (accepted-Passed filters commands))
      | inr e ↦ rw e (held_back (λ a. cc (e, meaning.1 a)) (accepted-Passed filters commands))
    ]
