-- ===== src/Server/Sound.antt =====
-- examples/tcp_server.rs: the invariant of the server.
use mathlib.Core.List.Perm
use gaea.Base.{ℕ, ◌+◌, ◌^◌, ◌≤◌, ◌<◌, List, ◌++◌, map, Perm, arith}
use gaea.Sys.Net.{TcpStream}
use gaea.Sys.Net.Abi.{SocketAddr}
use gaea.Server.{Server}
use gaea.Base.{◌≡◌, ◌⊎◌, inl, inr, none, refl, ◌∙◌}
use gaea.Server.Connections.{HashMap, Distinct, Below, get}

abbrev pub descriptors : HashMap (TcpStream × SocketAddr) → List ℕ
descriptors m = map (λ x. x.1.0.stream) m

module _ {W : Type 0} (opened : W → List ℕ) (waiting : W → ℕ) where
  -- The state of the server: its counter is past all ids that are in use and can not wrap round
  -- while the connections that wait are accepted, no id is in use twice, and the descriptors of the
  -- connections are open, with those that were open before, and no others.
  pub record Sound (base : List ℕ) (s : Server) (w : W) : Type 0 where
    pub low : 10 ≤ s.current_id
    pub room : s.current_id + waiting w < 2 ^ 64
    pub below : Below s.current_id s.connections
    pub distinct : Distinct s.connections
    pub owned : Perm (opened w) (descriptors s.connections ++ base)

  -- The server is as sound in a world with the same descriptors and no more connections to accept.
  pub Sound-world :
      (base : List ℕ) (s : Server) (w w' : W)
      → waiting w' ≤ waiting w
      → Perm (opened w') (opened w)
      → Sound base s w
      → Sound base s w'
  Sound-world base s w w' less perm sound = record {
    low = sound.low;
    room = omega (arith, sound.room);
    below = sound.below;
    distinct = sound.distinct;
    owned = Perm.trans perm sound.owned;
  }

-- What becomes of the ids of a server: the counter only grows, and an id that was given out before
-- is the id of the same connection as before, or of none.
pub record Later (s s' : Server) : Type 0 where
  pub grows : s.current_id ≤ s'.current_id
  pub unused :
      (id : ℕ)
      → id < s.current_id
      → (get id s'.connections ≡ none) ⊎ (get id s'.connections ≡ get id s.connections)

pub Later-refl : (s : Server) → Later s s
Later-refl s = record { grows = omega arith; unused = λ id h. inr refl }

pub Later-trans : (s t u : Server) → Later s t → Later t u → Later s u
Later-trans s t u h k = record {
  grows = omega (arith, h.grows, k.grows);
  unused = λ id l. elim (k.unused id (omega (arith, h.grows))) [
    | inl e ↦ inl e
    | inr e ↦ elim (h.unused id l) [ inl f ↦ inl (e ∙ f) | inr f ↦ inr (e ∙ f) ]
  ];
}
