-- ===== src/UnixSocket/Server/View.antt =====
-- The bus as one client sees it: a machine of its own filters, fed with every command.
use thincan.Common.{
  ℕ, Bool, false, ◌≡◌, ◌≢◌, refl, Option, none, some, List, [], ◌∷◌, ◌++◌, All, leb, ◌==◌,
  if◌then◌else◌, arith, inl, inr, Bool-cases, Option-cases, ==_refl, ne→==,
}
use thincan.Common.Maps.{lookup, Unique, lookup-All}
use thincan.UnixSocket.Frame.{UnixFrame}
use thincan.UnixSocket.Wire.{ack_ok, ack_no_ack, ack_server_err}
use thincan.UnixSocket.Wire.Filters.{IdMaskFilter}
use thincan.UnixSocket.Server.{
  BusCommand, add_client, remove_client, send_frame, set_filters, shutdown, ServerMsg, frame_msg,
  ack_msg, hello_msg, filters_ack_msg, ClientState, PendingFilters, Bus, Sends, filters_match,
  broadcast_frame, send_to, pending_of,
}

-- What is sent on a channel, in order.
unfoldable pub received : ℕ → Sends → List ServerMsg
received id [] = []
received id ((tx, msg) ∷ sends) =
    let rest = received id sends in if id == tx then msg ∷ rest else rest

abbrev pub IsOwnEntry : ℕ × ClientState → Type 0
IsOwnEntry (id, client) = client.tx ≡ id

-- Every client sits in the map once, with its own channel.
pub record IsBus (bus : Bus) : Type 0 where
  pub unique : Unique bus.clients
  pub own : All IsOwnEntry bus.clients

-- The filters of a client that is connected, and the filters that wait for one that is not.
pub record ClientView : Type 0 where
  pub connection : Option (List IdMaskFilter)
  pub pending : Option PendingFilters

abbrev pub connection_of : Option ClientState → Option (List IdMaskFilter)
connection_of none = none
connection_of (some client) = some client.filters

abbrev pub view : ℕ → Bus → ClientView
view id bus = record {
  connection = connection_of (lookup id bus.clients);
  pending = lookup id bus.pending_filters;
}

abbrev pub frames_for : Option (List IdMaskFilter) → UnixFrame → List ServerMsg
frames_for none frame = []
frames_for (some filters) frame = if filters_match filters frame then frame_msg frame ∷ [] else []

abbrev pub answer : Option (List IdMaskFilter) → ServerMsg → List ServerMsg
answer none msg = []
answer (some filters) msg = msg ∷ []

abbrev pub pending_answer : Option PendingFilters → List ServerMsg
pending_answer none = []
pending_answer (some pending) = filters_ack_msg pending.seq ack_ok ∷ []

pub received-append : (id : ℕ) (a b : Sends) → received id (a ++ b) ≡ received id a ++ received id b
unfolding received
received-append id [] b = refl
received-append id ((tx, msg) ∷ a) b = elim (Bool-cases (id == tx)) [
  | inl e ↦ rw (e, received) (rw (received-append id a b) refl)
  | inr e ↦ rw (e, received) (received-append id a b)
]

absent-broadcast :
    (id : ℕ) (clients : List (ℕ × ClientState)) (frame : UnixFrame)
    → All IsOwnEntry clients
    → lookup id clients ≡ none
    → received id (broadcast_frame clients frame) ≡ []
unfolding received broadcast_frame lookup
absent-broadcast id [] frame own e = refl
absent-broadcast id ((k, client) ∷ clients) frame (tx, own) e = elim (Bool-cases (id == k)) [
  | inl same ↦ cc (rw (same, lookup) at e)
  | inr other ↦
      let rest = absent-broadcast id clients frame own (rw (other, lookup) at e) in
      elim (Bool-cases (filters_match client.filters frame)) [
        | inl hit ↦ rw (hit, broadcast_frame) (rw tx (rw (other, received) rest))
        | inr miss ↦ rw (miss, broadcast_frame) rest
      ]
]

pub received-broadcast :
    (id : ℕ) (clients : List (ℕ × ClientState)) (frame : UnixFrame)
    → Unique clients
    → All IsOwnEntry clients
    → received id (broadcast_frame clients frame)
      ≡ frames_for (connection_of (lookup id clients)) frame
unfolding received broadcast_frame lookup
received-broadcast id [] frame u own = refl
received-broadcast id ((k, client) ∷ clients) frame (fresh, u) (tx, own) =
    elim (Bool-cases (id == k)) [
      | inl same ↦
          let key : id ≡ k = ground arith in
          let rest = absent-broadcast id clients frame own (rw key fresh) in
          elim (Bool-cases (filters_match client.filters frame)) [
            | inl hit ↦
                rw (hit, broadcast_frame) (rw tx (rw (same, received) (rw rest (rw hit refl))))
            | inr miss ↦ rw (miss, broadcast_frame) (rw rest (rw same (rw miss refl)))
          ]
      | inr other ↦
          let rest = received-broadcast id clients frame u own in
          elim (Bool-cases (filters_match client.filters frame)) [
            | inl hit ↦ rw (hit, broadcast_frame) (rw tx (rw (other, received) rest))
            | inr miss ↦ rw (miss, broadcast_frame) (rw (other, lookup) rest)
          ]
    ]

pub received-send_to :
    (id : ℕ) (clients : List (ℕ × ClientState)) (msg : ServerMsg)
    → All IsOwnEntry clients
    → received id (send_to (lookup id clients) msg) ≡ answer (connection_of (lookup id clients)) msg
unfolding received
received-send_to id clients msg own = elim (Option-cases (lookup id clients)) [
  | inl e ↦ rw e refl
  | inr (client, e) ↦
      rw e (rw (lookup-All IsOwnEntry id client clients own e) (rw (==_refl id) refl))
]

pub silent-send_to :
    (id i : ℕ) (clients : List (ℕ × ClientState)) (msg : ServerMsg)
    → All IsOwnEntry clients
    → id ≢ i
    → received id (send_to (lookup i clients) msg) ≡ []
unfolding received
silent-send_to id i clients msg own h = elim (Option-cases (lookup i clients)) [
  | inl e ↦ rw e refl
  | inr (client, e) ↦
      rw e (rw (lookup-All IsOwnEntry i client clients own e) (rw (ne→== id i h) refl))
]

-- A command that names the client, which `count` connected clients share the bus with or not.
abbrev pub own_step : ℕ → BusCommand → ClientView → ClientView × List ServerMsg
own_step count (add_client i tx) v = (
  record { connection = some (pending_of v.pending); pending = none },
  hello_msg ∷ pending_answer v.pending,
)
own_step count (remove_client i) v = (record { connection = none; pending = none }, [])
own_step count (send_frame i seq expect_ack frame) v = (
  v,
  frames_for v.connection frame
      ++ (if expect_ack
          then answer v.connection (ack_msg seq (if leb count 1 then ack_no_ack else ack_ok))
          else []),
)
own_step count (set_filters i seq filters) v =
    if seq == 0
    then (v, answer v.connection (filters_ack_msg seq ack_server_err))
    else elim v.connection [
      | some old ↦ (record v { connection = some filters }, filters_ack_msg seq ack_ok ∷ [])
      | none ↦ (record v { pending = some (record { seq = seq; filters = filters }) }, [])
    ]
own_step count shutdown v = (v, [])

-- A command of another client.
abbrev pub other_step : BusCommand → ClientView → List ServerMsg
other_step (send_frame i seq expect_ack frame) v = frames_for v.connection frame
other_step _ v = []

abbrev pub named : BusCommand → Option ℕ
named (add_client i tx) = some i
named (remove_client i) = some i
named (send_frame i seq expect_ack frame) = some i
named (set_filters i seq filters) = some i
named shutdown = none

abbrev pub names : Option ℕ → ℕ → Bool
names none id = false
names (some i) id = i == id

-- One command, as the client sees it.
abbrev pub client_step : ℕ → ℕ → BusCommand → ClientView → ClientView × List ServerMsg
client_step id count cmd v =
    if names (named cmd) id then own_step count cmd v else (v, other_step cmd v)

-- `AddClient` carries the channel that `handle_client` made for the client.
abbrev pub IsOwn : BusCommand → Type 0
IsOwn (add_client i tx) = tx ≡ i
IsOwn _ = Unit
