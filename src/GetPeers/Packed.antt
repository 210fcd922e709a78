-- ===== src/GetPeers/Packed.antt =====
-- The rows of peers that track.c packs into a compact reply, as the entries that getpeers takes out
-- of it.
use traccoon.CLib.Decimal.{print_int}
use traccoon.GetPeers.Compact.{Entry, packed, lines, IsEntry}
use traccoon.GetPeers.Reply.{tab, newline}
use traccoon.Memory.{returns}
use traccoon.Track.Replies.{others}
use traccoon.Track.{
  PeerRow, Network, buffer_size, text_equal, append_to, port_bytes, push_address, push_peer,
  push_peers,
}
use traccoon.Prelude.{
  ℕ, pos, uint16, uint16-small, zero, suc, ◌+◌, ◌*◌, ◌≤◌, ◌≡◌, refl, ap, ◌∙◌, inl, inr, ◌&&◌,
  Bool-cases, none, some, List, [], ◌∷◌, ◌++◌, Bytes, length, All, arith, append_assoc, append-nil,
  length-append,
}

-- A peer of IPv4 whose port has 16 bits, with the bytes of its address, of which `show_address` is
-- its text.
abbrev pub IsShown : Network → (Bytes → Bytes) → PeerRow → Type 0
IsShown net show_address row =
    (a : Bytes) × (net.pton4 row.ip ≡ some a)
    × (length a ≡ 4)
    × (show_address a ≡ row.ip)
    × (row.proto ≡ pos 4)
    × (row.port ≡ pos (uint16 row.port))

abbrev entry_of : Network → PeerRow → Entry
entry_of net row = (elim (net.pton4 row.ip) [ none ↦ [] | some a ↦ a ], uint16 row.port)

abbrev pub entries : Network → List PeerRow → List Entry
entries net [] = []
entries net (row ∷ rows) = entry_of net row ∷ entries net rows

-- The lines for some peers: address and port.
unfoldable pub peer_lines : List PeerRow → Bytes
peer_lines [] = []
peer_lines (row ∷ rows) =
    (tab ++ (tab ++ (row.ip ++ (b':' ∷ print_int row.port ++ newline)))) ++ peer_lines rows

append_to-fits :
    (buf bytes : Bytes)
    → length buf + length bytes ≤ buffer_size
    → append_to buf bytes ≡ returns (buf ++ bytes)
unfolding append_to
append_to-fits buf bytes fits = ground (arith, fits)

module _ (net : Network) (show_address : Bytes → Bytes) where
  pub entries-IsEntry :
      (rows : List PeerRow) → All (IsShown net show_address) rows → All IsEntry (entries net rows)
  entries-IsEntry [] shown = tt
  entries-IsEntry (row ∷ rows) ((a, known, size, text, four, port_fits), shown) =
      ((rw known size, uint16-small row.port), entries-IsEntry rows shown)

  pub lines-entries :
      (rows : List PeerRow)
      → All (IsShown net show_address) rows
      → lines show_address (entries net rows) ≡ peer_lines rows
  unfolding lines peer_lines print_int
  lines-entries [] shown = refl
  lines-entries (row ∷ rows) ((a, known, size, text, four, port_fits), shown) =
      rw (known, text, ap print_int port_fits, lines-entries rows shown) refl

  pub others-IsShown :
      (ip peer_id : Bytes) (n : ℕ) (rows : List PeerRow)
      → All (IsShown net show_address) rows
      → All (IsShown net show_address) (others ip peer_id n rows)
  unfolding others
  others-IsShown ip peer_id zero rows shown = tt
  others-IsShown ip peer_id (suc n) [] shown = tt
  others-IsShown ip peer_id (suc n) (row ∷ rows) (s, shown) =
      elim (Bool-cases (text_equal ip row.ip && text_equal peer_id row.peer_id)) [
        | inl own ↦ rw own (others-IsShown ip peer_id n rows shown)
        | inr other ↦ rw other (s, others-IsShown ip peer_id n rows shown)
      ]

  push_peer-entry :
      (row : PeerRow) (buf4 buf6 : Bytes)
      → IsShown net show_address row
      → length buf4 + 6 ≤ buffer_size
      → push_peer net row buf4 buf6
        ≡ returns (buf4 ++ ((entry_of net row).0 ++ port_bytes (uint16 row.port)), buf6)
  unfolding push_peer push_address
  push_peer-entry row buf4 buf6 (a, known, size, text, four, port_fits) room =
      let one = append_to-fits buf4 a (omega (arith, size, room)) in
      let two =
        append_to-fits (buf4 ++ a) (port_bytes (uint16 row.port))
          (omega (arith, size, room, length-append buf4 a)) in
      rw (known, four, one, two, append_assoc buf4 a (port_bytes (uint16 row.port))) refl

  entry_size :
      (row : PeerRow)
      → IsShown net show_address row
      → length ((entry_of net row).0 ++ port_bytes (uint16 row.port)) ≡ 6
  entry_size row (a, known, size, text, four, port_fits) =
      rw known (length-append a (port_bytes (uint16 row.port)) ∙ omega (arith, size))

  -- The loop over the rows packs the entries of the others behind what the buffer holds.
  pub push_peers-packed :
      (ip peer_id : Bytes) (n : ℕ) (rows : List PeerRow) (buf4 buf6 : Bytes)
      → All (IsShown net show_address) rows
      → length buf4 + n * 6 ≤ buffer_size
      → push_peers net ip peer_id n rows buf4 buf6
        ≡ returns (buf4 ++ packed (entries net (others ip peer_id n rows)), buf6)
  unfolding push_peers others packed
  push_peers-packed ip peer_id zero rows buf4 buf6 shown room = rw (append-nil buf4) refl
  push_peers-packed ip peer_id (suc n) [] buf4 buf6 shown room = rw (append-nil buf4) refl
  push_peers-packed ip peer_id (suc n) (row ∷ rows) buf4 buf6 (s, shown) room =
      elim (Bool-cases (text_equal ip row.ip && text_equal peer_id row.peer_id)) [
        | inl own ↦ rw own (push_peers-packed ip peer_id n rows buf4 buf6 shown (omega arith))
        | inr other ↦
            let entry : Bytes = (entry_of net row).0 ++ port_bytes (uint16 row.port) in
            let first = push_peer-entry row buf4 buf6 s (omega arith) in
            let size : length (buf4 ++ entry) ≡ length buf4 + 6 =
              length-append buf4 entry ∙ ap (λ k. length buf4 + k) (entry_size row s) in
            let next =
              push_peers-packed ip peer_id n rows (buf4 ++ entry) buf6 shown
                (omega (arith, size, room)) in
            rw (other, first, next)
              (ap (λ b. returns (b, buf6))
                (append_assoc buf4 entry (packed (entries net (others ip peer_id n rows)))))
      ]
