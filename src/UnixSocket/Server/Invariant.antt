-- ===== src/UnixSocket/Server/Invariant.antt =====
-- The maps of the bus stay in order, whatever the commands.
use thincan.Common.{
  ℕ, ◌≡◌, refl, sym, subst, length, ◌⊎◌, none, List, [], ◌∷◌, All, ◌==◌, inl, inr, Bool-cases,
  Option-cases,
}
use thincan.Common.Maps.{lookup, insert, lookup-All, lookup-remove_self, remove-Unique, remove-All}
use thincan.UnixSocket.Server.{
  BusCommand, add_client, remove_client, send_frame, set_filters, shutdown, Bus, handle_command,
  bus_loop, empty_bus,
}
use thincan.UnixSocket.Server.View.{
  IsOwnEntry, IsBus, ClientView, view, named, names, own_step, client_step, IsOwn,
}
use thincan.UnixSocket.Server.Refines.{handle_command-view}

pub handle_command-IsBus :
    (cmd : BusCommand) (bus : Bus) → IsBus bus → IsOwn cmd → IsBus (handle_command cmd bus).0
unfolding handle_command insert
handle_command-IsBus (add_client i tx) bus b own = record {
  unique = (lookup-remove_self i bus.clients, remove-Unique i bus.clients b.unique);
  own = (own, remove-All IsOwnEntry i bus.clients b.own);
}
handle_command-IsBus (remove_client i) bus b own = record {
  unique = remove-Unique i bus.clients b.unique;
  own = remove-All IsOwnEntry i bus.clients b.own;
}
handle_command-IsBus (send_frame i seq expect_ack frame) bus b own = b
handle_command-IsBus (set_filters i seq filters) bus b own = elim (Bool-cases (seq == 0)) [
  | inl e ↦ rw e b
  | inr e ↦ elim (Option-cases (lookup i bus.clients)) [
    | inl out ↦ rw e (rw out (record { unique = b.unique; own = b.own }))
    | inr (client, on) ↦ rw e (
        rw on (record {
          unique = (lookup-remove_self i bus.clients, remove-Unique i bus.clients b.unique);
          own = (
            lookup-All IsOwnEntry i client bus.clients b.own on,
            remove-All IsOwnEntry i bus.clients b.own,
          );
        }))
  ]
]
handle_command-IsBus shutdown bus b own = b

-- Filters wait only for a client that is not connected.
abbrev pub Apart : Bus → Type 0
Apart bus = (id : ℕ) → ((view id bus).connection ≡ none) ⊎ ((view id bus).pending ≡ none)

abbrev ApartView : ClientView → Type 0
ApartView v = (v.connection ≡ none) ⊎ (v.pending ≡ none)

own_step-ApartView :
    (count : ℕ) (cmd : BusCommand) (v : ClientView)
    → ApartView v
    → ApartView (own_step count cmd v).0
own_step-ApartView count (add_client i tx) v h = inr refl
own_step-ApartView count (remove_client i) v h = inr refl
own_step-ApartView count (send_frame i seq expect_ack frame) v h = h
own_step-ApartView count (set_filters i seq filters) v h = elim (Bool-cases (seq == 0)) [
  | inl e ↦ rw e h
  | inr e ↦ elim (Option-cases v.connection) [
    | inl out ↦ rw e (rw out (inl out))
    | inr (old, on) ↦ rw e (rw on (elim h [ inl out ↦ cc | inr p ↦ inr p ]))
  ]
]
own_step-ApartView count shutdown v h = h

client_step-ApartView :
    (id count : ℕ) (cmd : BusCommand) (v : ClientView)
    → ApartView v
    → ApartView (client_step id count cmd v).0
client_step-ApartView id count cmd v h = elim (Bool-cases (names (named cmd) id)) [
  | inl e ↦ rw e (own_step-ApartView count cmd v h)
  | inr e ↦ rw e h
]

handle_command-Apart :
    (cmd : BusCommand) (bus : Bus)
    → IsBus bus
    → IsOwn cmd
    → Apart bus
    → Apart (handle_command cmd bus).0
handle_command-Apart cmd bus b own apart id =
    subst ApartView (sym (handle_command-view id cmd bus b own).0)
      (client_step-ApartView id (length bus.clients) cmd (view id bus) (apart id))

bus_loop_from :
    (commands : List BusCommand) (bus : Bus)
    → IsBus bus
    → Apart bus
    → All IsOwn commands
    → IsBus (bus_loop commands bus).0 × Apart (bus_loop commands bus).0
unfolding bus_loop
bus_loop_from [] bus b apart own = (b, apart)
bus_loop_from (shutdown ∷ commands) bus b apart own = (b, apart)
bus_loop_from (add_client i tx ∷ commands) bus b apart (o, own) =
    bus_loop_from commands _ (handle_command-IsBus _ bus b o) (handle_command-Apart _ bus b o apart)
      own
bus_loop_from (remove_client i ∷ commands) bus b apart (o, own) =
    bus_loop_from commands _ (handle_command-IsBus _ bus b o) (handle_command-Apart _ bus b o apart)
      own
bus_loop_from (send_frame i seq expect_ack frame ∷ commands) bus b apart (o, own) =
    bus_loop_from commands _ (handle_command-IsBus _ bus b o) (handle_command-Apart _ bus b o apart)
      own
bus_loop_from (set_filters i seq filters ∷ commands) bus b apart (o, own) =
    bus_loop_from commands _ (handle_command-IsBus _ bus b o) (handle_command-Apart _ bus b o apart)
      own

-- Commands that add a client with its own channel only, on an empty bus: whenever the loop stops, no
-- client sits in the map twice, every client holds its own channel, and filters wait only for a client
-- that is not connected.
pub bus_loop-IsBus :
    (commands : List BusCommand)
    → All IsOwn commands
    → IsBus (bus_loop commands empty_bus).0 × Apart (bus_loop commands empty_bus).0
unfolding lookup
bus_loop-IsBus commands own =
    bus_loop_from commands empty_bus (record { unique = tt; own = tt }) (λ id. inl refl) own
