-- ===== src/UnixSocket/Server/Refines.antt =====
-- The bus is, for each client, a machine of that client alone.
use thincan.Common.{
  ℕ, Bool, true, false, ◌≡◌, ◌≢◌, ◌⊎◌, refl, ap, ap₂, ◌∙◌, Option, List, [], ◌++◌, length, ◌==◌,
  arith, inl, inr, Bool-cases, Option-cases, ==_refl, ne→==, append-nil,
}
use thincan.Common.Maps.{
  lookup, lookup-All, lookup-insert_self, lookup-insert_ne, lookup-remove_self, lookup-remove_ne,
}
use thincan.UnixSocket.Frame.{UnixFrame}
use thincan.UnixSocket.Wire.Filters.{IdMaskFilter}
use thincan.UnixSocket.Server.{
  BusCommand, add_client, remove_client, send_frame, set_filters, shutdown, ServerMsg,
  PendingFilters, Bus, Sends, broadcast_frame, handle_command,
}
use thincan.UnixSocket.Server.View.{
  received, IsOwnEntry, IsBus, ClientView, connection_of, view, frames_for, received-append,
  received-broadcast, received-send_to, silent-send_to, own_step, client_step, IsOwn,
}

abbrev Agrees : ℕ → Bus × Sends → ClientView × List ServerMsg → Type 0
Agrees id (bus, sends) (v, msgs) = (view id bus ≡ v) × (received id sends ≡ msgs)

view_eq :
    {a a' : Option (List IdMaskFilter)} {p p' : Option PendingFilters}
    → a ≡ a'
    → p ≡ p'
    → ◌≡◌ {A = ClientView}
        (record { connection = a; pending = p })
        (record { connection = a'; pending = p' })
view_eq ea ep = ap₂ (λ a p. record { connection = a; pending = p }) ea ep

same_or_other :
    (id i : ℕ) → (◌≡◌ {A = ℕ} i id × ((i == id) ≡ true)) ⊎ ((id ≢ i) × ((i == id) ≡ false))
same_or_other id i = elim (Bool-cases (i == id)) [
  | inl e ↦ inl (ground arith, e)
  | inr e ↦ inr ((λ s. ground arith), e)
]

module _ (id : ℕ) (bus : Bus) (b : IsBus bus) where
  own_add :
      Agrees id
        (handle_command (add_client id id) bus)
        (own_step (length bus.clients) (add_client id id) (view id bus))
  unfolding handle_command received
  own_add = (
    view_eq (ap connection_of (lookup-insert_self id _ bus.clients))
        (lookup-remove_self id bus.pending_filters),
    elim (Option-cases (lookup id bus.pending_filters)) [
      | inl e ↦ rw (==_refl id) (rw e refl)
      | inr (p, e) ↦ rw (==_refl id) (rw e (rw (==_refl id) refl))
    ],
  )

  own_remove :
      Agrees id
        (handle_command (remove_client id) bus)
        (own_step (length bus.clients) (remove_client id) (view id bus))
  unfolding handle_command received
  own_remove = (
    view_eq (ap connection_of (lookup-remove_self id bus.clients))
        (lookup-remove_self id bus.pending_filters),
    refl,
  )

  own_send :
      (seq : ℕ) (expect_ack : Bool) (frame : UnixFrame)
      → Agrees id
          (handle_command (send_frame id seq expect_ack frame) bus)
          (own_step (length bus.clients) (send_frame id seq expect_ack frame) (view id bus))
  unfolding handle_command received
  own_send seq true frame = (
    refl,
    received-append id (broadcast_frame bus.clients frame) _
        ∙ ap₂ (λ x y. x ++ y) (received-broadcast id bus.clients frame b.unique b.own)
            (received-send_to id bus.clients _ b.own),
  )
  own_send seq false frame = (
    refl,
    received-append id (broadcast_frame bus.clients frame) []
        ∙ ap (λ x. x ++ received id []) (received-broadcast id bus.clients frame b.unique b.own),
  )

  own_set :
      (seq : ℕ) (filters : List IdMaskFilter)
      → Agrees id
          (handle_command (set_filters id seq filters) bus)
          (own_step (length bus.clients) (set_filters id seq filters) (view id bus))
  unfolding handle_command received
  own_set seq filters = elim (Bool-cases (seq == 0)) [
    | inl e ↦ rw e (refl, received-send_to id bus.clients _ b.own)
    | inr e ↦ elim (Option-cases (lookup id bus.clients)) [
      | inl out ↦ rw e (rw out (view_eq refl (lookup-insert_self id _ bus.pending_filters), refl))
      | inr (client, on) ↦ rw e (
          rw on (
            view_eq (ap connection_of (lookup-insert_self id _ bus.clients)) refl,
            rw (lookup-All IsOwnEntry id client bus.clients b.own on) (rw (==_refl id) refl),
          ))
    ]
  ]

  module _ (i : ℕ) (other : id ≢ i) where
    other_add : Agrees id (handle_command (add_client i i) bus) (view id bus, [])
    unfolding handle_command received
    other_add = (
      view_eq (ap connection_of (lookup-insert_ne id i _ bus.clients other))
          (lookup-remove_ne id i bus.pending_filters other),
      elim (Option-cases (lookup i bus.pending_filters)) [
        | inl e ↦ rw (ne→== id i other) (rw e refl)
        | inr (p, e) ↦ rw (ne→== id i other) (rw e (rw (ne→== id i other) refl))
      ],
    )

    other_remove : Agrees id (handle_command (remove_client i) bus) (view id bus, [])
    unfolding handle_command received
    other_remove = (
      view_eq (ap connection_of (lookup-remove_ne id i bus.clients other))
          (lookup-remove_ne id i bus.pending_filters other),
      refl,
    )

    other_send :
        (seq : ℕ) (expect_ack : Bool) (frame : UnixFrame)
        → Agrees id
            (handle_command (send_frame i seq expect_ack frame) bus)
            (view id bus, frames_for (view id bus).connection frame)
    unfolding handle_command received
    other_send seq true frame = (
      refl,
      received-append id (broadcast_frame bus.clients frame) _
          ∙ ap₂ (λ x y. x ++ y) (received-broadcast id bus.clients frame b.unique b.own)
              (silent-send_to id i bus.clients _ b.own other)
          ∙ append-nil _,
    )
    other_send seq false frame = (
      refl,
      received-append id (broadcast_frame bus.clients frame) []
          ∙ ap (λ x. x ++ received id []) (received-broadcast id bus.clients frame b.unique b.own)
          ∙ append-nil _,
    )

    other_set :
        (seq : ℕ) (filters : List IdMaskFilter)
        → Agrees id (handle_command (set_filters i seq filters) bus) (view id bus, [])
    unfolding handle_command received
    other_set seq filters = elim (Bool-cases (seq == 0)) [
      | inl e ↦ rw e (refl, silent-send_to id i bus.clients _ b.own other)
      | inr e ↦ elim (Option-cases (lookup i bus.clients)) [
        | inl out ↦
            rw e (rw out (view_eq refl (lookup-insert_ne id i _ bus.pending_filters other), refl))
        | inr (client, on) ↦ rw e (
            rw on (
              view_eq (ap connection_of (lookup-insert_ne id i _ bus.clients other)) refl,
              rw (lookup-All IsOwnEntry i client bus.clients b.own on) (rw (ne→== id i other) refl),
            ))
      ]
    ]

  own_shutdown : Agrees id (handle_command shutdown bus) (view id bus, [])
  unfolding handle_command received
  own_shutdown = (refl, refl)

-- A bus where every client sits once with its own channel, and a command that adds a client with its
-- own channel only: for every client, connected or not, its filters, the filters that wait for it and
-- what its channel receives are those of the machine of one client, which takes from the others the
-- number of them that are connected and nothing else.
pub handle_command-view :
    (id : ℕ) (cmd : BusCommand) (bus : Bus)
    → IsBus bus
    → IsOwn cmd
    → let (bus', sends) = handle_command cmd bus in
      let (v, msgs) = client_step id (length bus.clients) cmd (view id bus) in
      (view id bus' ≡ v) × (received id sends ≡ msgs)
handle_command-view id (add_client i tx) bus b own = elim (same_or_other id i) [
  | inl (same, e) ↦ rw own (rw e (rw same (own_add id bus b)))
  | inr (other, e) ↦ rw own (rw e (other_add id bus b i other))
]
handle_command-view id (remove_client i) bus b own = elim (same_or_other id i) [
  | inl (same, e) ↦ rw e (rw same (own_remove id bus b))
  | inr (other, e) ↦ rw e (other_remove id bus b i other)
]
handle_command-view id (send_frame i seq expect_ack frame) bus b own = elim (same_or_other id i) [
  | inl (same, e) ↦ rw e (rw same (own_send id bus b seq expect_ack frame))
  | inr (other, e) ↦ rw e (other_send id bus b i other seq expect_ack frame)
]
handle_command-view id (set_filters i seq filters) bus b own = elim (same_or_other id i) [
  | inl (same, e) ↦ rw e (rw same (own_set id bus b seq filters))
  | inr (other, e) ↦ rw e (other_set id bus b i other seq filters)
]
handle_command-view id shutdown bus b own = own_shutdown id bus b
